-- ===== src/Hub/Exposure/Jobs.antt =====
-- internal/hub/exposure.go: `ExposureWorker.runOne` and `enqueueExposureEvaluation` over the jobs table,
-- in a transaction, each statement of which may fail. `next_attempt_at` and `updated_at` are numbers
-- of seconds.
pub mod Steps
pub mod Outcome
pub mod FirstSeen
use barrikade_lens.Common.{
  ℕ, ◌+◌, Bool, true, false, ◌&&◌, String, List, [], ◌∷◌, Option, none, some, ◌==◌, leb, Result, ok,
  err, map, if◌then◌else◌,
}
use barrikade_lens.Discovery.Values.{Value}
use barrikade_lens.Hub.Exposure.{Address, ExposureFinding}
use barrikade_lens.Hub.Exposure.Rules.{Reads, evaluate}
use barrikade_lens.Hub.Exposure.Session.{Session, Statement, exec, commit, and_then, in_transaction}
use barrikade_lens.Hub.Exposure.Table.{
  Tables, finding_key, add_entry, add_finding, add_resolved, mark_resolved,
}

-- A row of exposure_evaluation_jobs.
pub record ExposureJob : Type 0 where
  pub organization_id : String
  pub status : String
  pub attempts : ℕ
  pub next_attempt_at : ℕ
  pub updated_at : ℕ

pub record Database : Type 0 where
  pub jobs : List ExposureJob
  pub tables : Tables

-- status='pending' AND next_attempt_at<=now()
unfoldable pub is_due : ℕ → ExposureJob → Bool
is_due now job = job.status == "pending" && leb job.next_attempt_at now

unfoldable pub earlier : ExposureJob → Option ExposureJob → ExposureJob
earlier job none = job
earlier job (some other) = if leb job.updated_at other.updated_at then job else other

-- ORDER BY updated_at LIMIT 1
unfoldable pub next_job : ℕ → List ExposureJob → Option ExposureJob
next_job now [] = none
next_job now (job ∷ jobs) =
    let rest = next_job now jobs in if is_due now job then some (earlier job rest) else rest

-- UPDATE exposure_evaluation_jobs SET ... WHERE organization_id=$1
unfoldable pub update_job :
    String → (ExposureJob → ExposureJob) → List ExposureJob → List ExposureJob
update_job org change [] = []
update_job org change (job ∷ jobs) =
    let rest = update_job org change jobs in
    if job.organization_id == org then change job ∷ rest else job ∷ rest

-- DELETE FROM exposure_evaluation_jobs WHERE organization_id=$1
pub delete_job : String → List ExposureJob → List ExposureJob
delete_job org [] = []
delete_job org (job ∷ jobs) =
    let rest = delete_job org jobs in if job.organization_id == org then rest else job ∷ rest

unfoldable pub started : ℕ → ExposureJob → ExposureJob
started now job = record job {
  status = "processing";
  attempts = job.attempts + 1;
  updated_at = now;
}

unfoldable pub postponed : ℕ → ExposureJob → ExposureJob
postponed now job = record job { status = "pending"; next_attempt_at = now + 30; updated_at = now }

-- enqueueExposureEvaluation
unfoldable pub enqueue : ℕ → String → List ExposureJob → List ExposureJob
enqueue now org [] =
    record {
      organization_id = org;
      status = "pending";
      attempts = 0;
      next_attempt_at = now;
      updated_at = now;
    }
    ∷ []
enqueue now org (job ∷ jobs) =
    let rest = enqueue now org jobs in
    if job.organization_id == org
    then record job { status = "pending"; next_attempt_at = now; updated_at = now } ∷ jobs
    else job ∷ rest

module _ {E : Type 0} where
  -- A statement on the table of jobs.
  exec_jobs : (List ExposureJob → List ExposureJob) → Statement Database E
  exec_jobs change = exec (λ db. record db { jobs = change db.jobs })

  -- A statement on the tables of findings.
  exec_tables : (Tables → Tables) → Statement Database E
  exec_tables change = exec (λ db. record db { tables = change db.tables })

module _ (content_hash : String → String) (marshal : Value → String) (uuid : String → String)
    (to_lower : String → String) (parse_ip : String → Option Address)
    (url_hostname : String → Option String) {E : Type 0} where
  -- The loop over the findings.
  unfoldable pub store_findings : ℕ → String → List ExposureFinding → Statement Database E
  unfolding exec_tables
  store_findings now org [] = λ s. (ok tt, s)
  store_findings now org (finding ∷ rest) =
      and_then (exec_tables (add_entry content_hash marshal uuid org finding)) (
        and_then (exec_tables (add_finding content_hash marshal uuid now org finding))
          (store_findings now org rest))

  unfoldable pub resolve_findings : ℕ → String → List String → Statement Database E
  unfolding exec_tables
  resolve_findings now org ids =
      and_then (exec_tables (add_resolved content_hash marshal uuid org ids))
        (exec_tables (mark_resolved content_hash marshal uuid now org ids))

  -- recomputeOrganizationExposures, from its findings
  unfoldable pub replace_findings : ℕ → String → List ExposureFinding → Statement Database E
  replace_findings now org findings =
      and_then (store_findings now org findings)
        (resolve_findings now org (map finding_key findings))

  unfoldable pub store_evaluated :
      ℕ → String → Result E (List ExposureFinding) → Statement Database E
  store_evaluated now org (err e) = λ s. (err e, s)
  store_evaluated now org (ok findings) = replace_findings now org findings

  -- recomputeOrganizationExposures
  unfoldable pub recompute : ℕ → Reads E → String → Statement Database E
  recompute now reads org =
      store_evaluated now org (evaluate content_hash to_lower parse_ip url_hostname reads)

  -- runOne, after recomputeOrganizationExposures
  unfoldable pub finish_job :
      ℕ
      → String
      → Result E (Unit {0}) × Session Database E
      → Result E (Unit {0}) × Session Database E
  unfolding exec_jobs
  finish_job now org (err e, s) = (err e, (exec_jobs (update_job org (postponed now)) s).1)
  finish_job now org (ok u, s) = and_then (exec_jobs (delete_job org)) commit s

  unfoldable pub process_job :
      ℕ → (String → Reads E) → E → Option ExposureJob → Statement Database E
  unfolding exec_jobs
  process_job now reads no_rows none = λ s. (err no_rows, s)
  process_job now reads no_rows (some job) =
      let org = job.organization_id in
      and_then (exec_jobs (update_job org (started now)))
        (λ s. finish_job now org (recompute now (reads org) org s))

  -- The query for the job, and what is done with it.
  unfoldable pub take_job : ℕ → (String → Reads E) → E → Statement Database E
  take_job now reads no_rows =
      and_then (exec (λ db. db))
        (λ s. process_job now reads no_rows (next_job now s.working.jobs) s)

  -- runOne
  unfoldable pub run_one :
      ℕ → (String → Reads E) → E → Database → List (Option E) → Result E (Unit {0}) × Database
  run_one now reads no_rows db faults = in_transaction (take_job now reads no_rows) db faults
