-- ===== src/Jobs/Examples.antt =====
-- A job that is claimed, fails, and is claimed once more.
use fast_api_e_commerce.Prelude.{◌≤◌, ◌≡◌, true, false, none, some, List, [], ◌∷◌, refl, inl, arith}
use fast_api_e_commerce.Jobs.{
  Job, pending, failed, running, claimed, claim_next, claim_from, next_due, on_row, fail_job,
  complete_job,
}
use fast_api_e_commerce.Jobs.Rows.{WithinMax, sum_max_attempts}
use fast_api_e_commerce.Jobs.Claims.{
  JobRun, done, then_claim, then_complete, then_fail, JobRun-bounded,
}
use fast_api_e_commerce.Jobs.Finished.{Has, JobRun-Has}

abbrev email : Job
email = record {
  id = 1;
  status = pending;
  attempts = 0;
  max_attempts = 2;
  run_at = 100;
  locked_until = none;
  finished_at = none;
  dedupe_key = some 9;
}

-- a job that was given up
abbrev given_up : Job
given_up = record email {
  id = 2;
  status = failed;
  attempts = 2;
  finished_at = some 50;
  dedupe_key = none;
}

abbrev jobs : Job → List Job
jobs j = given_up ∷ j ∷ []

abbrev tried : Job
tried = record email { status = running; attempts = 1; locked_until = some 420 }

abbrev waiting : Job
waiting = record email { attempts = 1; run_at = 160 }

abbrev tried_again : Job
tried_again = record waiting { status = running; attempts = 2; locked_until = some 500 }

first_claim : claim_next 120 300 (jobs email) ≡ (some (claimed email), jobs tried)
unfolding claim_next claim_from next_due on_row
first_claim = refl

first_failure : fail_job 130 30 3600 (claimed email) (jobs tried) ≡ (true, jobs waiting)
unfolding fail_job on_row
first_failure = refl

second_claim : claim_next 200 300 (jobs waiting) ≡ (some (claimed waiting), jobs tried_again)
unfolding claim_next claim_from next_due on_row
second_claim = refl

-- what the first attempt reports late is not taken
late_result : complete_job 210 (claimed email) (jobs tried_again) ≡ (false, jobs tried_again)
unfolding complete_job on_row
late_result = refl

two_claims : JobRun (jobs email) (jobs tried_again) 2
two_claims =
    then_complete 210 (claimed email)
      (then_claim 200 300 (claimed waiting)
        (then_fail 130 30 3600 (claimed email) (then_claim 120 300 (claimed email) done first_claim)
          first_failure)
        second_claim)
      late_result

jobs-WithinMax : WithinMax (jobs email)
unfolding WithinMax
jobs-WithinMax = (omega arith, (omega arith, tt))

JobRun-bounded_example : 2 ≤ sum_max_attempts (jobs tried_again)
JobRun-bounded_example = JobRun-bounded (jobs email) (jobs tried_again) 2 jobs-WithinMax two_claims

jobs-Has : Has given_up (jobs email)
unfolding Has
jobs-Has = inl refl

JobRun-Has_example : Has given_up (jobs tried_again)
JobRun-Has_example = JobRun-Has (jobs email) (jobs tried_again) 2 given_up two_claims refl jobs-Has
