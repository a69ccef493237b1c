-- ===== src/Hub/Exposure/Jobs/Outcome.antt =====
-- How one evaluation of internal/hub/exposure.go ends, whichever of its statements fail.
use barrikade_lens.Common.{
  ℕ, Bool, false, String, List, [], ◌∷◌, Option, none, some, ◌==◌, ◌≡◌, refl, sym, ◌∙◌, ap, subst,
  ◌⊎◌, inl, inr, arith, any, Result, ok, err, err-ne-ok, ok-inj, some-inj, Result-cases,
}
use barrikade_lens.Discovery.Values.{Value}
use barrikade_lens.Hub.Exposure.{Address, ExposureFinding}
use barrikade_lens.Hub.Exposure.Rules.{Reads, evaluate}
use barrikade_lens.Hub.Exposure.Session.{Session, in_transaction}
use barrikade_lens.Hub.Exposure.Session.Steps.{
  NoFault, Atomic, exec-Does, and_then-cases, and_then-ok,
}
use barrikade_lens.Hub.Exposure.Table.Current.{find_row, shown, last_content, all_replaced-shown}
use barrikade_lens.Hub.Exposure.Jobs.Steps.{
  delete_job-update_job, finished, process_job-Atomic, process_job_failed, process_job-ok,
}
use barrikade_lens.Hub.Exposure.Jobs.{
  ExposureJob, Database, next_job, delete_job, process_job, take_job, run_one,
}

abbrev pub has_job : String → List ExposureJob → Bool
has_job org = any (λ job. job.organization_id == org)

pub has_job-delete_job :
    (org : String) (jobs : List ExposureJob) → has_job org (delete_job org jobs) ≡ false
unfolding delete_job
has_job-delete_job org [] = refl
has_job-delete_job org (job ∷ jobs) = ground (arith, has_job-delete_job org jobs)

module _ (content_hash : String → String) (marshal : Value → String) (uuid : String → String)
    (to_lower : String → String) (parse_ip : String → Option Address)
    (url_hostname : String → Option String) {E : Type 0} where
  -- A run that has stored what the rules find for the next job.
  pub record Evaluated (now : ℕ) (reads : String → Reads E) (db : Database)
      (r : Result E (Unit {0}) × Database) : Type 0 where
    pub job : ExposureJob
    pub findings : List ExposureFinding
    pub chosen : next_job now db.jobs ≡ some job
    pub given :
        evaluate content_hash to_lower parse_ip url_hostname (reads job.organization_id)
        ≡ ok findings
    pub success : r.0 ≡ ok tt
    pub jobs : r.1.jobs ≡ delete_job job.organization_id db.jobs
    pub tables :
        (id : String)
        → shown (find_row job.organization_id id r.1.tables.findings)
          ≡ last_content id findings none

  -- A result that is an error and leaves the database, or of which `Q` holds.
  abbrev pub UndoneOr :
      Database → (Result E (Unit {0}) × Database → Type 0) → Result E (Unit {0}) × Database → Type 0
  UndoneOr db Q r = ((e : E) × (r.0 ≡ err e) × (r.1 ≡ db)) ⊎ Q r

  abbrev committed_by : Result E (Unit {0}) × Session Database E → Result E (Unit {0}) × Database
  committed_by x = (x.0, x.1.committed)

  Atomic-Evaluated :
      (now : ℕ) (reads : String → Reads E) (db : Database) (job : ExposureJob)
      (findings : List ExposureFinding) (x : Result E (Unit {0}) × Session Database E)
      → next_job now db.jobs ≡ some job
      → evaluate content_hash to_lower parse_ip url_hostname (reads job.organization_id)
        ≡ ok findings
      → Atomic db (finished content_hash marshal uuid now job.organization_id findings db) x
      → UndoneOr db (Evaluated now reads db) (committed_by x)
  Atomic-Evaluated now reads db job findings x n g (inl u) = inl u
  Atomic-Evaluated now reads db job findings x n g (inr (p, q)) = inr (record {
    job = job;
    findings = findings;
    chosen = n;
    given = g;
    success = p;
    jobs = ap (λ (d : Database). d.jobs) q ∙ delete_job-update_job now job.organization_id db.jobs;
    tables = λ id.
        ap (λ (d : Database). shown (find_row job.organization_id id d.tables.findings)) q
        ∙ all_replaced-shown content_hash marshal uuid now job.organization_id id findings
            db.tables;
  })

  process_job-Evaluated :
      (now : ℕ) (reads : String → Reads E) (no_rows : E) (db : Database) (o : Option ExposureJob)
      (s : Session Database E)
      → next_job now db.jobs ≡ o
      → s.committed ≡ db
      → s.working ≡ db
      → UndoneOr db (Evaluated now reads db) (
          committed_by (
            process_job content_hash marshal uuid to_lower parse_ip url_hostname now reads no_rows o
              s))
  unfolding process_job
  process_job-Evaluated now reads no_rows db none s n k w = inl (no_rows, refl, k)
  process_job-Evaluated now reads no_rows db (some job) s n k w =
      elim (Result-cases
        (evaluate content_hash to_lower parse_ip url_hostname (reads job.organization_id))) [
          | inl (findings, g) ↦
              Atomic-Evaluated now reads db job findings
                (process_job content_hash marshal uuid to_lower parse_ip url_hostname now reads
                  no_rows (some job) s)
                n g
                (process_job-Atomic content_hash marshal uuid to_lower parse_ip url_hostname now
                  reads no_rows db job findings s g k w)
          | inr (e, g) ↦ inl (
              process_job_failed content_hash marshal uuid to_lower parse_ip url_hostname now reads
                no_rows e db job s g k)
        ]

  -- Whichever of its statements fail, also the last: a run ends with an error and leaves the database
  -- as it was, so that its job is not postponed; or it succeeds, its job is gone and the other jobs are
  -- as they were, and for each id the table shows the last of the findings with that id.
  pub run_one-Evaluated :
      (now : ℕ) (reads : String → Reads E) (no_rows : E) (db : Database) (faults : List (Option E))
      → UndoneOr db (Evaluated now reads db) (
          run_one content_hash marshal uuid to_lower parse_ip url_hostname now reads no_rows db
            faults)
  unfolding run_one in_transaction take_job
  run_one-Evaluated now reads no_rows db faults =
      and_then-cases _ _ (λ x. UndoneOr db (Evaluated now reads db) (committed_by x)) _
        (exec-Does _) (λ e r q. inl (e, refl, q))
        λ r q w.
          and_then-cases _ _ (λ x. UndoneOr db (Evaluated now reads db) (committed_by x)) r
            (exec-Does _) (λ e r' q'. inl (e, refl, q' ∙ q))
            λ r' q' w'.
              process_job-Evaluated now reads no_rows db _ r'
                (ap (λ (d : Database). next_job now d.jobs) (sym (w' ∙ w))) (q' ∙ q) (w' ∙ w)

  run_one-ok :
      (now : ℕ) (reads : String → Reads E) (no_rows : E) (db : Database) (faults : List (Option E))
      (job : ExposureJob) (findings : List ExposureFinding)
      → NoFault faults
      → next_job now db.jobs ≡ some job
      → evaluate content_hash to_lower parse_ip url_hostname (reads job.organization_id)
        ≡ ok findings
      → (run_one content_hash marshal uuid to_lower parse_ip url_hostname now reads no_rows db
          faults).0
        ≡ ok tt
  unfolding run_one in_transaction take_job
  run_one-ok now reads no_rows db faults job findings f n g =
      and_then-ok _ _ _ (exec-Does _) f λ r f' w. and_then-ok _ _ r (exec-Does _) f' λ r' f'' w'.
        subst
          (λ o.
            (process_job content_hash marshal uuid to_lower parse_ip url_hostname now reads no_rows
              o r').0
            ≡ ok tt)
          (sym (ap (λ (d : Database). next_job now d.jobs) (w' ∙ w) ∙ n))
          (process_job-ok content_hash marshal uuid to_lower parse_ip url_hostname now reads no_rows
            job findings r' f'' g)

  -- Let the next job be of an organization whose evaluation gives findings, and let no statement fail.
  -- Then the run succeeds, no job of the organization is left, and for each id the table shows the last
  -- of the findings with that id, and nothing where there is none, whatever it held before.
  pub run_one-shown :
      (now : ℕ) (reads : String → Reads E) (no_rows : E) (db : Database) (faults : List (Option E))
      (job : ExposureJob) (findings : List ExposureFinding) (id : String)
      → NoFault faults
      → next_job now db.jobs ≡ some job
      → evaluate content_hash to_lower parse_ip url_hostname (reads job.organization_id)
        ≡ ok findings
      → ((run_one content_hash marshal uuid to_lower parse_ip url_hostname now reads no_rows db
            faults).0
          ≡ ok tt)
        × (has_job job.organization_id
              (run_one content_hash marshal uuid to_lower parse_ip url_hostname now reads no_rows db
                faults).1.jobs
            ≡ false)
        × (shown (
              find_row job.organization_id id
                (run_one content_hash marshal uuid to_lower parse_ip url_hostname now reads no_rows
                  db faults).1.tables.findings)
            ≡ last_content id findings none)
  run_one-shown now reads no_rows db faults job findings id f n g =
      elim (run_one-Evaluated now reads no_rows db faults) [
        | inl (e, p, q) ↦
            absurd (err-ne-ok (sym p ∙ run_one-ok now reads no_rows db faults job findings f n g))
        | inr done ↦
            let same : done.job ≡ job = some-inj (sym done.chosen ∙ n) in
            let all : done.findings ≡ findings = ok-inj (
              sym done.given
              ∙ ap
                  (λ (j : ExposureJob).
                    evaluate content_hash to_lower parse_ip url_hostname (reads j.organization_id))
                  same
              ∙ g) in
            (
              done.success,
              ap (has_job job.organization_id) (
                    done.jobs ∙ ap (λ (j : ExposureJob). delete_job j.organization_id db.jobs) same)
                  ∙ has_job-delete_job job.organization_id db.jobs,
              subst
                  (λ j.
                    shown (find_row j.organization_id id after.1.tables.findings)
                    ≡ last_content id findings none)
                  same (done.tables id ∙ ap (λ l. last_content id l none) all),
            )
      ]
    where
      after : Result E (Unit {0}) × Database
      after =
          run_one content_hash marshal uuid to_lower parse_ip url_hostname now reads no_rows db
            faults
