-- ===== src/Jobs.antt =====
-- app/core/jobs: the queue of background jobs (queue.py) and the statements by which workers claim,
-- finish and fail them (worker.py).
--
-- Each call is one transaction, so `SKIP LOCKED` never has a row to skip. Times are seconds; the type,
-- the payload and the error of a job are left out. A job's id is its primary key.
pub mod Rows
pub mod Claims
pub mod Finished
pub mod Examples
use fast_api_e_commerce.Prelude.{
  ℕ, zero, suc, ◌+◌, ◌-◌, ◌*◌, ◌^◌, Bool, true, false, ◌&&◌, ◌||◌, Option, none, some, List, [],
  ◌∷◌, ◌++◌, map, any, ltb, leb, ◌==◌, if◌then◌else◌, min, same_key, is_some,
}

pub data JobStatus : Type 0 where
  pending running succeeded failed : JobStatus

pub record Job : Type 0 where
  pub id : ℕ
  pub status : JobStatus
  pub attempts : ℕ
  pub max_attempts : ℕ
  pub run_at : ℕ
  pub locked_until : Option ℕ
  pub finished_at : Option ℕ
  pub dedupe_key : Option ℕ

pub record ClaimedJob : Type 0 where
  pub id : ℕ
  pub attempts : ℕ
  pub max_attempts : ℕ

abbrev pub is_pending : JobStatus → Bool
is_pending pending = true
is_pending _ = false

abbrev pub is_running : JobStatus → Bool
is_running running = true
is_running _ = false

-- `locked_until < now()`, which NULL is not
abbrev pub expired : Option ℕ → ℕ → Bool
expired none now = false
expired (some t) now = ltb t now

-- the row of `_FAIL_EXHAUSTED_SQL`
unfoldable pub fail_exhausted : ℕ → Job → Job
fail_exhausted now j =
    if is_running j.status && expired j.locked_until now && leb j.max_attempts j.attempts
    then record j { status = failed; finished_at = some now; locked_until = none }
    else j

-- the condition of `_CLAIM_SQL`
abbrev pub is_due : ℕ → Job → Bool
is_due now j =
    ltb j.attempts j.max_attempts
    && ((is_pending j.status && leb j.run_at now)
        || (is_running j.status && expired j.locked_until now))

-- `ORDER BY run_at, id`
abbrev before : Job → Job → Bool
before j k = ltb j.run_at k.run_at || (j.run_at == k.run_at && ltb j.id k.id)

abbrev earlier : Job → Option Job → Job
earlier j none = j
earlier j (some k) = if before k j then k else j

-- the first job that is due
unfoldable pub next_due : ℕ → List Job → Option Job
next_due now [] = none
next_due now (j ∷ js) =
    let rest = next_due now js in if is_due now j then some (earlier j rest) else rest

-- an update of the row that a condition picks
unfoldable pub on_row : (Job → Bool) → (Job → Job) → List Job → List Job
on_row p f [] = []
on_row p f (j ∷ js) = elim (p j) [ true ↦ f j ∷ js | false ↦ j ∷ on_row p f js ]

abbrev pub claim_row : ℕ → ℕ → Job → Job
claim_row now lock j = record j {
  status = running;
  attempts = suc j.attempts;
  locked_until = some (now + lock);
}

abbrev pub claimed : Job → ClaimedJob
claimed j = record { id = j.id; attempts = suc j.attempts; max_attempts = j.max_attempts }

abbrev pub is_picked : ℕ → Job → Job → Bool
is_picked now j k = k.id == j.id && is_due now k

-- the claim, once the exhausted jobs are failed
unfoldable pub claim_from : ℕ → ℕ → List Job → Option ClaimedJob × List Job
claim_from now lock jobs = elim (next_due now jobs) [
  | none ↦ (none, jobs)
  | some j ↦ (some (claimed j), on_row (is_picked now j) (claim_row now lock) jobs)
]

unfoldable pub claim_next : ℕ → ℕ → List Job → Option ClaimedJob × List Job
unfolding fail_exhausted
claim_next now lock jobs = claim_from now lock (map (fail_exhausted now) jobs)

-- `id = :id AND status = 'running' AND attempts = :attempts`
abbrev pub is_attempt : ClaimedJob → Job → Bool
is_attempt c j = j.id == c.id && is_running j.status && j.attempts == c.attempts

abbrev pub complete_row : ℕ → Job → Job
complete_row now j = record j { status = succeeded; finished_at = some now; locked_until = none }

-- whether a row was changed, and the jobs
unfoldable pub complete_job : ℕ → ClaimedJob → List Job → Bool × List Job
complete_job now c jobs = (any (is_attempt c) jobs, on_row (is_attempt c) (complete_row now) jobs)

-- `base * 2 ** max(attempts - 1, 0)`, at most the cap
unfoldable pub retry_delay_seconds : ℕ → ℕ → ℕ → ℕ
retry_delay_seconds attempts base cap_seconds = min (base * 2 ^ (attempts - 1)) cap_seconds

abbrev pub fail_row : ℕ → Bool → ℕ → Job → Job
fail_row now true delay j = record j {
  status = failed;
  run_at = now + delay;
  finished_at = some now;
  locked_until = none;
}
fail_row now false delay j = record j {
  status = pending;
  run_at = now + delay;
  finished_at = none;
  locked_until = none;
}

unfoldable pub fail_job : ℕ → ℕ → ℕ → ClaimedJob → List Job → Bool × List Job
unfolding retry_delay_seconds
fail_job now base cap_seconds c jobs =
    let final = leb c.max_attempts c.attempts in
    let delay = retry_delay_seconds c.attempts base cap_seconds in
    (any (is_attempt c) jobs, on_row (is_attempt c) (fail_row now final delay) jobs)

abbrev pub new_job : ℕ → ℕ → ℕ → ℕ → Option ℕ → Job
new_job id now delay max_attempts dedupe_key = record {
  id = id;
  status = pending;
  attempts = 0;
  max_attempts = max_attempts;
  run_at = now + delay;
  locked_until = none;
  finished_at = none;
  dedupe_key = dedupe_key;
}

-- `enqueue`, with the id that the database gives
unfoldable pub enqueue : ℕ → ℕ → ℕ → ℕ → Option ℕ → List Job → Option ℕ × List Job
enqueue id now delay max_attempts dedupe_key jobs =
    if is_some dedupe_key && any (λ j. same_key j.dedupe_key dedupe_key) jobs
    then (none, jobs)
    else (some id, jobs ++ (new_job id now delay max_attempts dedupe_key ∷ []))
