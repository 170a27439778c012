-- ===== src/Jobs/Finished.antt =====
-- Jobs that have succeeded or failed.
use fast_api_e_commerce.Prelude.{
  ℕ, Bool, true, false, ◌&&◌, Option, none, some, List, [], ◌∷◌, ◌++◌, map, any, leb, ◌≡◌, ◌⊎◌, inl,
  inr, ap, ◌∙◌, arith, Option-cases, Bool-cases, is_some, same_key,
}
use fast_api_e_commerce.Jobs.{
  Job, JobStatus, succeeded, failed, ClaimedJob, is_attempt, is_picked, fail_exhausted, next_due,
  on_row, claim_row, claim_from, claim_next, complete_row, complete_job, fail_row, fail_job,
  new_job, enqueue, retry_delay_seconds,
}
use fast_api_e_commerce.Jobs.Claims.{
  JobRun, done, then_claim, then_nothing_due, then_complete, then_fail, then_enqueue,
}

abbrev pub is_final : JobStatus → Bool
is_final succeeded = true
is_final failed = true
is_final _ = false

-- the job is one of the rows
unfoldable pub Has : Job → List Job → Type 0
Has j [] = ⊥
Has j (k ∷ ks) = (k ≡ j) ⊎ Has j ks

on_row-Has :
    (p : Job → Bool) (f : Job → Job) (j : Job) (js : List Job)
    → p j ≡ false
    → Has j js
    → Has j (on_row p f js)
unfolding on_row Has
on_row-Has p f j [] miss h = absurd h
on_row-Has p f j (k ∷ ks) miss (inl e) =
    let other : p k ≡ false = rw e miss in
    let kept : on_row p f (k ∷ ks) ≡ k ∷ on_row p f ks = ground arith in rw kept (inl e)
on_row-Has p f j (k ∷ ks) miss (inr h) = elim (Bool-cases (p k)) [
  | inl t ↦ let kept : on_row p f (k ∷ ks) ≡ f k ∷ ks = ground arith in rw kept (inr h)
  | inr t ↦
      let kept : on_row p f (k ∷ ks) ≡ k ∷ on_row p f ks = ground arith in
      rw kept (inr (on_row-Has p f j ks miss h))
]

map-Has : (f : Job → Job) (j : Job) (js : List Job) → f j ≡ j → Has j js → Has j (map f js)
unfolding Has
map-Has f j [] e h = absurd h
map-Has f j (k ∷ ks) e (inl same) = inl (ap f same ∙ e)
map-Has f j (k ∷ ks) e (inr h) = inr (map-Has f j ks e h)

append-Has : (j k : Job) (js : List Job) → Has j js → Has j (js ++ (k ∷ []))
unfolding Has
append-Has j k [] h = absurd h
append-Has j k (i ∷ js) (inl e) = inl e
append-Has j k (i ∷ js) (inr h) = inr (append-Has j k js h)

final-not_attempt : (c : ClaimedJob) (j : Job) → is_final j.status ≡ true → is_attempt c j ≡ false
final-not_attempt c j h = ground arith

final-not_picked : (now : ℕ) (i j : Job) → is_final j.status ≡ true → is_picked now i j ≡ false
final-not_picked now i j h = ground arith

final-not_exhausted : (now : ℕ) (j : Job) → is_final j.status ≡ true → fail_exhausted now j ≡ j
unfolding fail_exhausted
final-not_exhausted now j h = ground arith

claim_next-Has :
    (now lock : ℕ) (j : Job) (js : List Job) (r : Option ClaimedJob) (after : List Job)
    → is_final j.status ≡ true
    → claim_next now lock js ≡ (r, after)
    → Has j js
    → Has j after
unfolding claim_next claim_from
claim_next-Has now lock j js r after final e h =
    let swept = map (fail_exhausted now) js in
    let here = map-Has (fail_exhausted now) j js (final-not_exhausted now j final) h in
    elim (Option-cases (next_due now swept)) [
      | inl n ↦ let same : swept ≡ after = ground arith in rw same at here
      | inr (i, n) ↦
          let same : on_row (is_picked now i) (claim_row now lock) swept ≡ after = ground arith in
          rw same at (
            on_row-Has (is_picked now i) (claim_row now lock) j swept
              (final-not_picked now i j final) here)
    ]

enqueue-Has :
    (id now delay max_attempts : ℕ) (key : Option ℕ) (j : Job) (js : List Job) (r : Option ℕ)
    (after : List Job)
    → enqueue id now delay max_attempts key js ≡ (r, after)
    → Has j js
    → Has j after
unfolding enqueue
enqueue-Has id now delay max_attempts key j js r after e h =
    let more = append-Has j (new_job id now delay max_attempts key) js h in
    elim (Bool-cases (is_some key && any (λ k. same_key k.dedupe_key key) js)) [
      | inl t ↦ let same : js ≡ after = ground arith in rw same at h
      | inr t ↦
          let same : js ++ (new_job id now delay max_attempts key ∷ []) ≡ after = ground arith in
          rw same at more
    ]

-- A job that has succeeded or failed is the same after any sequence of calls.
pub JobRun-Has :
    (a b : List Job) (n : ℕ) (j : Job) → JobRun a b n → is_final j.status ≡ true → Has j a → Has j b
unfolding complete_job fail_job
JobRun-Has a b n j done final h = h
JobRun-Has a b n j (then_claim {b = m} {n = k} now lock r run e) final h =
    claim_next-Has now lock j m (some r) b final e (JobRun-Has a m k j run final h)
JobRun-Has a b n j (then_nothing_due {b = m} now lock run e) final h =
    claim_next-Has now lock j m none b final e (JobRun-Has a m n j run final h)
JobRun-Has a b n j (then_complete {b = m} now job run e) final h =
    let same : on_row (is_attempt job) (complete_row now) m ≡ b = ap (λ p. p.1) e in
    rw same at (
      on_row-Has (is_attempt job) (complete_row now) j m (final-not_attempt job j final)
        (JobRun-Has a m n j run final h))
JobRun-Has a b n j (then_fail {b = m} now base cap_seconds job run e) final h =
    let f =
      fail_row now (leb job.max_attempts job.attempts)
        (retry_delay_seconds job.attempts base cap_seconds) in
    let same : on_row (is_attempt job) f m ≡ b = ap (λ p. p.1) e in
    rw same at (
      on_row-Has (is_attempt job) f j m (final-not_attempt job j final)
        (JobRun-Has a m n j run final h))
JobRun-Has a b n j (then_enqueue {b = m} id now delay max_attempts key run e) final h =
    enqueue-Has id now delay max_attempts key j m _ b e (JobRun-Has a m n j run final h)
