-- ===== src/Jobs/Claims.antt =====
-- Any sequence of the workers' calls, and how often jobs are claimed in it.
use fast_api_e_commerce.Prelude.{
  ℕ, suc, ◌+◌, ◌≤◌, ◌<◌, Bool, true, false, Option, none, some, List, [], ◌∷◌, ◌++◌, map, leb, ◌≡◌,
  inl, inr, refl, ap, ◌∙◌, arith, Option-cases,
}
use fast_api_e_commerce.Jobs.{
  Job, ClaimedJob, is_due, is_attempt, is_picked, fail_exhausted, next_due, on_row, claim_row,
  claim_from, claim_next, complete_row, complete_job, fail_row, fail_job, new_job, enqueue,
  retry_delay_seconds,
}
use fast_api_e_commerce.Jobs.Rows.{
  sum_attempts, sum_max_attempts, WithinMax, WithinMax-sum, on_row-kept, map-kept, on_row-more,
  next_due-there,
}

-- The number counts the claims.
pub data JobRun : List Job → List Job → ℕ → Type 0 where
  done : {a : List Job} → JobRun a a 0
  then_claim :
      {a b c : List Job} {n : ℕ} (now lock : ℕ) (r : ClaimedJob)
      → JobRun a b n
      → claim_next now lock b ≡ (some r, c)
      → JobRun a c (suc n)
  then_nothing_due :
      {a b c : List Job} {n : ℕ} (now lock : ℕ)
      → JobRun a b n
      → claim_next now lock b ≡ (none, c)
      → JobRun a c n
  then_complete :
      {a b c : List Job} {n : ℕ} {r : Bool} (now : ℕ) (job : ClaimedJob)
      → JobRun a b n
      → complete_job now job b ≡ (r, c)
      → JobRun a c n
  then_fail :
      {a b c : List Job} {n : ℕ} {r : Bool} (now base cap_seconds : ℕ) (job : ClaimedJob)
      → JobRun a b n
      → fail_job now base cap_seconds job b ≡ (r, c)
      → JobRun a c n
  then_enqueue :
      {a b c : List Job} {n : ℕ} {r : Option ℕ} (id now delay max_attempts : ℕ)
      (dedupe_key : Option ℕ)
      → JobRun a b n
      → enqueue id now delay max_attempts dedupe_key b ≡ (r, c)
      → JobRun a c n

fail_exhausted-kept :
    (now : ℕ) (j : Job)
    → ((fail_exhausted now j).attempts ≡ j.attempts)
      × ((fail_exhausted now j).max_attempts ≡ j.max_attempts)
unfolding fail_exhausted
fail_exhausted-kept now j = (ground arith, ground arith)

fail_row-kept :
    (now : ℕ) (final : Bool) (delay : ℕ) (j : Job)
    → ((fail_row now final delay j).attempts ≡ j.attempts)
      × ((fail_row now final delay j).max_attempts ≡ j.max_attempts)
fail_row-kept now true delay j = (refl, refl)
fail_row-kept now false delay j = (refl, refl)

due-less : (now : ℕ) (j : Job) → is_due now j ≡ true → j.attempts < j.max_attempts
due-less now j h = ground arith

picked-less : (now : ℕ) (j k : Job) → is_picked now j k ≡ true → k.attempts < k.max_attempts
picked-less now j k h = due-less now k (ground arith)

abbrev claims_in : Option ClaimedJob → ℕ
claims_in none = 0
claims_in (some _) = 1

-- a claim adds one attempt, and a worker that finds nothing due adds none
claim_from-counts :
    (now lock : ℕ) (jobs : List Job) (r : Option ClaimedJob) (after : List Job)
    → WithinMax jobs
    → claim_from now lock jobs ≡ (r, after)
    → (sum_attempts after ≡ claims_in r + sum_attempts jobs) × WithinMax after
unfolding claim_from
claim_from-counts now lock jobs r after w h = elim (Option-cases (next_due now jobs)) [
  | inl e ↦ let same : jobs ≡ after = ground arith in (ground arith, rw same at w)
  | inr (j, e) ↦
      let (there, _) = next_due-there now jobs j e in
      let (s, t) =
        on_row-more (is_picked now j) (claim_row now lock) (λ k. (refl, refl))
          (λ k p. picked-less now j k p) jobs there w in
      let same : on_row (is_picked now j) (claim_row now lock) jobs ≡ after = ground arith in
      (ground arith, rw same at t)
]

claim_next-counts :
    (now lock : ℕ) (jobs : List Job) (r : Option ClaimedJob) (after : List Job)
    → WithinMax jobs
    → claim_next now lock jobs ≡ (r, after)
    → (sum_attempts after ≡ claims_in r + sum_attempts jobs) × WithinMax after
unfolding claim_next
claim_next-counts now lock jobs r after w h =
    let (s, t) = map-kept (fail_exhausted now) (fail_exhausted-kept now) jobs w in
    let (x, y) = claim_from-counts now lock (map (fail_exhausted now) jobs) r after t h in
    (omega (arith, x, s), y)

append-WithinMax :
    (js : List Job) (j : Job)
    → j.attempts ≡ 0
    → WithinMax js
    → (sum_attempts (js ++ (j ∷ [])) ≡ sum_attempts js) × WithinMax (js ++ (j ∷ []))
unfolding WithinMax
append-WithinMax [] j z w = (omega arith, (omega arith, tt))
append-WithinMax (k ∷ ks) j z (a, w) =
    let (s, t) = append-WithinMax ks j z w in (omega arith, (a, t))

enqueue-counts :
    (id now delay max_attempts : ℕ) (key : Option ℕ) (jobs : List Job) (r : Option ℕ)
    (after : List Job)
    → WithinMax jobs
    → enqueue id now delay max_attempts key jobs ≡ (r, after)
    → (sum_attempts after ≡ sum_attempts jobs) × WithinMax after
unfolding enqueue
enqueue-counts id now delay max_attempts key jobs r after w h =
    let (s, t) = append-WithinMax jobs (new_job id now delay max_attempts key) refl w in
    (ground arith, ground arith)

-- If no job has been tried more often than it may be, then so it is after any sequence of calls, and the
-- claims in it are exactly the attempts that were added.
JobRun-counts :
    (a b : List Job) (n : ℕ)
    → JobRun a b n
    → WithinMax a
    → (sum_attempts b ≡ n + sum_attempts a) × WithinMax b
unfolding complete_job fail_job
JobRun-counts a b n done w = (omega arith, w)
JobRun-counts a b n (then_claim {b = m} {n = k} now lock r run e) w =
    let (s, t) = JobRun-counts a m k run w in
    let (x, y) = claim_next-counts now lock m (some r) b t e in (omega (arith, x, s), y)
JobRun-counts a b n (then_nothing_due {b = m} now lock run e) w =
    let (s, t) = JobRun-counts a m n run w in
    let (x, y) = claim_next-counts now lock m none b t e in (omega (arith, x, s), y)
JobRun-counts a b n (then_complete {b = m} now job run e) w =
    let (s, t) = JobRun-counts a m n run w in
    let (x, y) = on_row-kept (is_attempt job) (complete_row now) (λ j. (refl, refl)) m t in
    let same : on_row (is_attempt job) (complete_row now) m ≡ b = ap (λ p. p.1) e in
    (rw same at (x ∙ s), rw same at y)
JobRun-counts a b n (then_fail {b = m} now base cap_seconds job run e) w =
    let (s, t) = JobRun-counts a m n run w in
    let f =
      fail_row now (leb job.max_attempts job.attempts)
        (retry_delay_seconds job.attempts base cap_seconds) in
    let (x, y) = on_row-kept (is_attempt job) f (fail_row-kept now _ _) m t in
    let same : on_row (is_attempt job) f m ≡ b = ap (λ p. p.1) e in
    (rw same at (x ∙ s), rw same at y)
JobRun-counts a b n (then_enqueue {b = m} id now delay max_attempts key run e) w =
    let (s, t) = JobRun-counts a m n run w in
    let (x, y) = enqueue-counts id now delay max_attempts key m _ b t e in (omega (arith, x, s), y)

-- If at first no job has been tried more often than it may be, then in any sequence of calls jobs are
-- claimed at most as often as the jobs at its end may be tried in all.
pub JobRun-bounded : (a b : List Job) (n : ℕ) → WithinMax a → JobRun a b n → n ≤ sum_max_attempts b
JobRun-bounded a b n w run =
    let (s, t) = JobRun-counts a b n run w in omega (arith, s, WithinMax-sum b t)
