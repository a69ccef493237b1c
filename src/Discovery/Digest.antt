-- ===== src/Discovery/Digest.antt =====
-- pkg/discovery/digest.go: what `Digest` hashes. json.Marshal and SHA-256 are the parameter
-- `fingerprint`, `none` being an error of the former.
use mathlib.Core.List.{Permᴰ}
use barrikade_lens.Common.{
  ℕ, true, false, String, List, [], ◌∷◌, map, Option, ◌≡◌, refl, sym, ◌≢◌, ap, ◌∙◌, arith, All,
  Distinct, subst,
}
use barrikade_lens.Common.Sorting.{sort_by, sort_by-All, sort_by-ne-nil, sort_by_perm}
use barrikade_lens.Discovery.Types.{
  Entity, Relationship, Evidence, Snapshot, entity_id, evidence_id, relationship_id,
}
use barrikade_lens.Discovery.Merge.{normalize, normalize_entity}

pub clear_time : Evidence → Evidence
clear_time e = record e { observed_at = "" }

-- The copy that `Digest` marshals.
unfoldable pub digest_content : Snapshot → Snapshot
unfolding clear_time
digest_content s = normalize (record s {
  snapshot_id = "";
  observed_at = "";
  sequence = 0;
  evidence = map clear_time s.evidence;
})

-- Snapshot.Digest
unfoldable pub digest : (Snapshot → Option String) → Snapshot → Option String
digest fingerprint s = fingerprint (digest_content s)

abbrev pub at_times : (Evidence → String) → Evidence → Evidence
at_times times e = record e { observed_at = times e }

-- The same inventory, delivered again: `times` are the new times of the evidence.
abbrev pub redeliver : String → String → ℕ → (Evidence → String) → Snapshot → Snapshot
redeliver id time sequence times s = record s {
  snapshot_id = id;
  observed_at = time;
  sequence = sequence;
  evidence = map (at_times times) s.evidence;
}

cleared :
    (times : Evidence → String) (l : List Evidence)
    → map clear_time (map (at_times times) l) ≡ map clear_time l
unfolding clear_time
cleared times [] = refl
cleared times (e ∷ l) = ap (◌∷◌ (clear_time e)) (cleared times l)

-- The digest does not depend on the snapshot's id, time and sequence number, nor on the times of its
-- evidence.
pub digest-redeliver :
    (fingerprint : Snapshot → Option String) (id time : String) (sequence : ℕ)
    (times : Evidence → String) (s : Snapshot)
    → digest fingerprint (redeliver id time sequence times s) ≡ digest fingerprint s
unfolding digest digest_content
digest-redeliver fingerprint id time sequence times s =
    ap
      (λ l.
        fingerprint
          (normalize (record s { snapshot_id = ""; observed_at = ""; sequence = 0; evidence = l })))
      (cleared times s.evidence)

cleared_ids : (l : List Evidence) → map evidence_id (map clear_time l) ≡ map evidence_id l
unfolding clear_time
cleared_ids [] = refl
cleared_ids (e ∷ l) = ap (◌∷◌ e.id) (cleared_ids l)

perm-map {ℓ κ} :
    {A : Type ℓ} {B : Type κ} (f : A → B) {xs ys : List A}
    → Permᴰ xs ys
    → Permᴰ (map f xs) (map f ys)
perm-map f Permᴰ.nil = Permᴰ.nil
perm-map f (Permᴰ.cons e p) = Permᴰ.cons (ap f e) (perm-map f p)
perm-map f (Permᴰ.swap e q) = Permᴰ.swap (ap f e) (ap f q)
perm-map f (Permᴰ.trans p q) = Permᴰ.trans (perm-map f p) (perm-map f q)

-- Where ids are distinct, the order of entities, relationships and evidence does not matter to the
-- digest.
pub digest_of_perm :
    (fingerprint : Snapshot → Option String) (s : Snapshot) {es : List Entity}
    {rs : List Relationship} {vs : List Evidence}
    → Permᴰ s.entities es
    → Permᴰ s.relationships rs
    → Permᴰ s.evidence vs
    → Distinct (map entity_id s.entities)
    → Distinct (map relationship_id s.relationships)
    → Distinct (map evidence_id s.evidence)
    → digest fingerprint s
      ≡ digest fingerprint (record s { entities = es; relationships = rs; evidence = vs })
unfolding digest digest_content normalize
digest_of_perm fingerprint s p q r d e f = λ i. fingerprint (record s {
  snapshot_id = "";
  observed_at = "";
  sequence = 0;
  entities = map normalize_entity (sort_by_perm entity_id p d i);
  relationships = sort_by_perm relationship_id q e i;
  evidence =
      sort_by_perm evidence_id (perm-map clear_time r)
        (subst Distinct (sym (cleared_ids s.evidence)) f) i;
})

abbrev pub stamp_relationship : String → Relationship → Relationship
stamp_relationship time r = record r { observed_at = time }

-- Every relationship observed at `time`, as in a scan that the builder stamps with one time.
abbrev pub stamp : String → Snapshot → Snapshot
stamp time s = record s { relationships = map (stamp_relationship time) s.relationships }

stamped :
    (time : String) (l : List Relationship)
    → All (λ r. r.observed_at ≡ time) (map (stamp_relationship time) l)
stamped time [] = tt
stamped time (r ∷ l) = (refl, stamped time l)

same_time :
    (t u : String) (l : List Relationship)
    → l ≢ []
    → All (λ r. r.observed_at ≡ t) l
    → All (λ r. r.observed_at ≡ u) l
    → t ≡ u
same_time t u [] n h k = absurd (n refl)
same_time t u (r ∷ l) n (p, h) (q, k) = sym p ∙ q

stamped_ne-nil :
    (time : String) (l : List Relationship)
    → l ≢ []
    → sort_by relationship_id (map (stamp_relationship time) l) ≢ []
stamped_ne-nil time [] n e = n refl
stamped_ne-nil time (r ∷ l) n e =
    sort_by-ne-nil relationship_id (map (stamp_relationship time) (r ∷ l)) (λ k. ground (arith, k))
      e

sorted_stamped :
    (time : String) (l : List Relationship)
    → All (λ r. r.observed_at ≡ time) (sort_by relationship_id (map (stamp_relationship time) l))
sorted_stamped time l =
    sort_by-All relationship_id (λ r. r.observed_at ≡ time) (map (stamp_relationship time) l)
      (stamped time l)

-- Two scans of one inventory that differ only in the time that their relationships carry differ in
-- what the digest hashes, if there is a relationship.
pub digest_content-stamp-ne :
    (s : Snapshot) (t u : String)
    → s.relationships ≢ []
    → t ≢ u
    → digest_content (stamp t s) ≢ digest_content (stamp u s)
unfolding digest_content normalize
digest_content-stamp-ne s t u n apart e = apart (
    same_time t u _ (stamped_ne-nil t s.relationships n) (sorted_stamped t s.relationships) (
      subst (All (λ r. r.observed_at ≡ u)) (sym (ap (λ (c : Snapshot). c.relationships) e))
        (sorted_stamped u s.relationships)))

-- So do a full and an incremental scan of one inventory.
pub digest_content-full-ne :
    (s : Snapshot)
    → digest_content (record s { full = true }) ≢ digest_content (record s { full = false })
unfolding digest_content normalize
digest_content-full-ne s e = ground (arith, ap (λ (c : Snapshot). c.full) e)
