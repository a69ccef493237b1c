-- ===== src/Hub/Exposure/Jobs/FirstSeen.antt =====
-- What a recompute of internal/hub/exposure.go keeps, also where it ends early.
use barrikade_lens.Common.{ℕ, String, List, [], ◌∷◌, Option, some, ◌≡◌, ◌∙◌, map}
use barrikade_lens.Discovery.Values.{Value}
use barrikade_lens.Hub.Exposure.{Address, ExposureFinding}
use barrikade_lens.Hub.Exposure.Session.{Session}
use barrikade_lens.Hub.Exposure.Session.Steps.{Keeps, exec-Keeps, and_then-Keeps}
use barrikade_lens.Hub.Exposure.Table.{
  finding_key, add_entry, add_finding, add_resolved, mark_resolved,
}
use barrikade_lens.Hub.Exposure.Table.Current.{
  find_row, first_seen, first_seen-upsert_finding, first_seen-resolve_stale,
}
use barrikade_lens.Hub.Exposure.Jobs.{
  Database, exec_tables, store_findings, resolve_findings, replace_findings,
}

-- The finding with a key was first seen at a time.
abbrev pub SeenAt : String → String → ℕ → Database → Type 0
SeenAt org id at db = first_seen (find_row org id db.tables.findings) ≡ some at

module _ (content_hash : String → String) (marshal : Value → String) (uuid : String → String)
    (to_lower : String → String) (parse_ip : String → Option Address)
    (url_hostname : String → Option String) {E : Type 0} where
  store_findings-SeenAt :
      (now : ℕ) (org o id : String) (at : ℕ) (findings : List ExposureFinding)
      → Keeps (SeenAt o id at) (
          store_findings content_hash marshal uuid to_lower parse_ip url_hostname {E = E} now org
            findings)
  unfolding store_findings exec_tables add_entry add_finding
  store_findings-SeenAt now org o id at [] = λ s h. h
  store_findings-SeenAt now org o id at (finding ∷ rest) =
      and_then-Keeps (SeenAt o id at) _ _ (exec-Keeps (SeenAt o id at) _ λ db h. h) (
        and_then-Keeps (SeenAt o id at) _ _
          (exec-Keeps (SeenAt o id at) _
            λ db h. first_seen-upsert_finding now org o id finding db.tables.findings h)
          (store_findings-SeenAt now org o id at rest))

  -- The time at which a stored finding was first seen stays in all that a recompute writes, whichever
  -- of its statements fails, and for every organization.
  pub replace_findings-SeenAt :
      (now : ℕ) (org o id : String) (at : ℕ) (findings : List ExposureFinding)
      (s : Session Database E)
      → SeenAt o id at s.working
      → SeenAt o id at
          (replace_findings content_hash marshal uuid to_lower parse_ip url_hostname now org
            findings s).1.working
  unfolding replace_findings resolve_findings exec_tables add_resolved mark_resolved
  replace_findings-SeenAt now org o id at findings =
      and_then-Keeps (SeenAt o id at) _ _ (store_findings-SeenAt now org o id at findings) (
        and_then-Keeps (SeenAt o id at) _ _ (exec-Keeps (SeenAt o id at) _ λ db h. h) (
          exec-Keeps (SeenAt o id at) _ λ db h.
            first_seen-resolve_stale now org (map finding_key findings) o id db.tables.findings
            ∙ h))
