-- ===== src/Hub/Exposure/Jobs/Steps.antt =====
-- What the statements of one evaluation of internal/hub/exposure.go come to.
use barrikade_lens.Common.{
  ℕ, String, List, [], ◌∷◌, Option, some, ◌≡◌, refl, ◌∙◌, ap, inl, inr, arith, Result, ok, err,
  err-ne-ok,
}
use barrikade_lens.Discovery.Values.{Value}
use barrikade_lens.Hub.Exposure.{Address, ExposureFinding}
use barrikade_lens.Hub.Exposure.Rules.{Reads, evaluate}
use barrikade_lens.Hub.Exposure.Session.{Session, Statement, commit}
use barrikade_lens.Hub.Exposure.Session.Steps.{
  NoFault, Does, Atomic, exec-Does, and_then-Does, commit-Atomic, commit-total, and_then-cases,
  and_then-ok,
}
use barrikade_lens.Hub.Exposure.Table.Current.{all_stored, all_replaced}
use barrikade_lens.Hub.Exposure.Jobs.{
  ExposureJob, Database, update_job, delete_job, started, exec_jobs, exec_tables, store_findings,
  resolve_findings, replace_findings, store_evaluated, recompute, finish_job, process_job,
}

-- The mark of a started job goes with the job.
pub delete_job-update_job :
    (now : ℕ) (org : String) (jobs : List ExposureJob)
    → delete_job org (update_job org (started now) jobs) ≡ delete_job org jobs
unfolding delete_job update_job started
delete_job-update_job now org [] = refl
delete_job-update_job now org (job ∷ jobs) = ground (arith, delete_job-update_job now org jobs)

-- What is committed after a success.
abbrev pub finished :
    (String → String)
    → (Value → String)
    → (String → String)
    → ℕ
    → String
    → List ExposureFinding
    → Database
    → Database
finished content_hash marshal uuid now org findings db = record {
  jobs = delete_job org (update_job org (started now) db.jobs);
  tables = all_replaced content_hash marshal uuid now org findings db.tables;
}

module _ (content_hash : String → String) (marshal : Value → String) (uuid : String → String)
    (to_lower : String → String) (parse_ip : String → Option Address)
    (url_hostname : String → Option String) {E : Type 0} where
  store_findings-Does :
      (now : ℕ) (org : String) (findings : List ExposureFinding)
      → Does
          (λ db. record db {
            tables = all_stored content_hash marshal uuid now org findings db.tables;
          })
          (store_findings content_hash marshal uuid to_lower parse_ip url_hostname {E = E} now org
            findings)
  unfolding store_findings all_stored exec_tables
  store_findings-Does now org [] = record {
    kept = λ s. refl;
    effect = λ s h. refl;
    total = λ s h. (refl, h);
  }
  store_findings-Does now org (finding ∷ rest) =
      and_then-Does _ _ (exec-Does _)
        (and_then-Does _ _ (exec-Does _) (store_findings-Does now org rest))

  pub replace_findings-Does :
      (now : ℕ) (org : String) (findings : List ExposureFinding)
      → Does
          (λ db. record db {
            tables = all_replaced content_hash marshal uuid now org findings db.tables;
          })
          (replace_findings content_hash marshal uuid to_lower parse_ip url_hostname {E = E} now org
            findings)
  unfolding replace_findings resolve_findings all_replaced exec_tables
  replace_findings-Does now org findings =
      and_then-Does _ _ (store_findings-Does now org findings)
        (and_then-Does _ _ (exec-Does _) (exec-Does _))

  abbrev process : ℕ → (String → Reads E) → E → Option ExposureJob → Statement Database E
  process = process_job content_hash marshal uuid to_lower parse_ip url_hostname

  finish_job-Atomic :
      (now : ℕ) (org : String) (db after : Database) (x : Result E (Unit {0}) × Session Database E)
      → x.1.committed ≡ db
      → (x.0 ≡ ok tt → x.1.working ≡ after)
      → Atomic db
          (record after { jobs = delete_job org after.jobs })
          (finish_job content_hash marshal uuid to_lower parse_ip url_hostname now org x)
  unfolding finish_job exec_jobs
  finish_job-Atomic now org db after (err e, s) k h = inl (e, refl, (exec-Does _).kept s ∙ k)
  finish_job-Atomic now org db after (ok u, s) k h =
      and_then-cases {change = λ (d : Database). record d { jobs = delete_job org d.jobs }} _ commit
        (Atomic db (record after { jobs = delete_job org after.jobs })) s (exec-Does _)
        (λ e r q. inl (e, refl, q ∙ k))
        λ r q w. elim (commit-Atomic r) [
          | inl (e, p, c) ↦ inl (e, p, c ∙ q ∙ k)
          | inr (p, c) ↦ inr (
            p,
            c
                ∙ w
                ∙ ap {A = Database} (λ (d : Database). record d { jobs = delete_job org d.jobs })
                    (h refl),
          )
        ]

  pub process_job-Atomic :
      (now : ℕ) (reads : String → Reads E) (no_rows : E) (db : Database) (job : ExposureJob)
      (findings : List ExposureFinding) (s : Session Database E)
      → evaluate content_hash to_lower parse_ip url_hostname (reads job.organization_id)
        ≡ ok findings
      → s.committed ≡ db
      → s.working ≡ db
      → Atomic db
          (finished content_hash marshal uuid now job.organization_id findings db)
          (process now reads no_rows (some job) s)
  unfolding process_job exec_jobs recompute store_evaluated
  process_job-Atomic now reads no_rows db job findings s g k w =
      let org = job.organization_id in
      let stored = replace_findings-Does now org findings in
      and_then-cases _ _ (Atomic db (finished content_hash marshal uuid now org findings db)) s
        (exec-Does _) (λ e r q. inl (e, refl, q ∙ k))
        λ r q v. rw g (
          finish_job-Atomic now org db _ _ (stored.kept r ∙ q ∙ k) λ h.
            stored.effect r h
            ∙ ap {A = Database}
                (λ (d : Database). record d {
                  tables = all_replaced content_hash marshal uuid now org findings d.tables;
                })
                (v
                  ∙ ap {A = Database}
                      (λ (d : Database). record d { jobs = update_job org (started now) d.jobs })
                      w))

  pub process_job_failed :
      (now : ℕ) (reads : String → Reads E) (no_rows e : E) (db : Database) (job : ExposureJob)
      (s : Session Database E)
      → evaluate content_hash to_lower parse_ip url_hostname (reads job.organization_id) ≡ err e
      → s.committed ≡ db
      → (d : E) × ((process now reads no_rows (some job) s).0 ≡ err d)
        × ((process now reads no_rows (some job) s).1.committed ≡ db)
  unfolding process_job exec_jobs recompute store_evaluated finish_job
  process_job_failed now reads no_rows e db job s g k =
      and_then-cases _ _ (λ r. (d : E) × (r.0 ≡ err d) × (r.1.committed ≡ db)) s (exec-Does _)
        (λ d r q. (d, refl, q ∙ k)) λ r q v. rw g (e, refl, (exec-Does _).kept r ∙ q ∙ k)

  finish_job-ok :
      (now : ℕ) (org : String) (x : Result E (Unit {0}) × Session Database E)
      → (x.0 ≡ ok tt) × NoFault x.1.faults
      → (finish_job content_hash marshal uuid to_lower parse_ip url_hostname now org x).0 ≡ ok tt
  unfolding finish_job exec_jobs
  finish_job-ok now org (err e, s) h = absurd (err-ne-ok h.0)
  finish_job-ok now org (ok u, s) h =
      and_then-ok _ commit s (exec-Does _) h.1 λ r f w. commit-total r f

  pub process_job-ok :
      (now : ℕ) (reads : String → Reads E) (no_rows : E) (job : ExposureJob)
      (findings : List ExposureFinding) (s : Session Database E)
      → NoFault s.faults
      → evaluate content_hash to_lower parse_ip url_hostname (reads job.organization_id)
        ≡ ok findings
      → (process now reads no_rows (some job) s).0 ≡ ok tt
  unfolding process_job exec_jobs recompute store_evaluated
  process_job-ok now reads no_rows job findings s f g = and_then-ok _ _ s (exec-Does _) f λ r f' w.
      rw g (
        finish_job-ok now job.organization_id _
          ((replace_findings-Does now job.organization_id findings).total r f'))
