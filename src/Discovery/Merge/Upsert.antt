-- ===== src/Discovery/Merge/Upsert.antt =====
-- The loops of pkg/discovery/merge.go over evidence, entities and relationships: an index by id,
-- which names the last item of an id, and a list that grows at its end.
use barrikade_lens.Common.{
  ◌||◌, String, List, [], ◌∷◌, map, ◌==◌, ◌≡◌, refl, arith, eq_iff, All, Distinct, contains,
  if◌then◌else◌, Bool-cases, inl, inr,
}

module _ {ℓ} {A : Type ℓ} (key : A → String) (merge : A → A → A) where
  -- items[index[key(x)]] = merge(..., x) where the index has the key, and append(items, x) else.
  pub upsert : A → List A → List A
  upsert x [] = x ∷ []
  upsert x (y ∷ ys) =
      let after = y ∷ upsert x ys in
      if contains (map key ys) (key x)
      then after
      else if key y == key x
      then merge y x ∷ ys
      else after

  pub upsert_all : List A → List A → List A
  upsert_all target [] = target
  upsert_all target (x ∷ xs) = upsert_all (upsert x target) xs

module _ {ℓ} {A : Type ℓ} (key : A → String) (merge : A → A → A)
    (same_key : (x y : A) → key (merge x y) ≡ key x) where
  upsert-contains :
      (x : A) (ys : List A) (k : String)
      → contains (map key (upsert key merge x ys)) k ≡ (contains (map key ys) k || k == key x)
  unfolding upsert
  upsert-contains x [] k = ground arith
  upsert-contains x (y ∷ ys) k = ground (
    arith,
    same_key y x,
    upsert-contains x ys k,
    eq_iff (key y) (key x),
    eq_iff k (key x),
    eq_iff k (key y),
  )

  -- The ids afterwards are those of both lists.
  pub upsert_all-contains :
      (ys xs : List A) (k : String)
      → contains (map key (upsert_all key merge ys xs)) k
        ≡ (contains (map key ys) k || contains (map key xs) k)
  unfolding upsert_all
  upsert_all-contains ys [] k = ground arith
  upsert_all-contains ys (x ∷ xs) k =
      ground (arith, upsert_all-contains (upsert key merge x ys) xs k, upsert-contains x ys k)

  upsert-Distinct :
      (x : A) (ys : List A) → Distinct (map key ys) → Distinct (map key (upsert key merge x ys))
  unfolding upsert
  upsert-Distinct x [] d = (refl, tt)
  upsert-Distinct x (y ∷ ys) d = ground (
    arith,
    same_key y x,
    upsert-Distinct x ys,
    upsert-contains x ys (key y),
    eq_iff (key y) (key x),
    eq_iff (key x) (key y),
  )

  -- Distinct ids stay distinct, whatever is merged in.
  pub upsert_all-Distinct :
      (ys xs : List A) → Distinct (map key ys) → Distinct (map key (upsert_all key merge ys xs))
  unfolding upsert_all
  upsert_all-Distinct ys [] d = d
  upsert_all-Distinct ys (x ∷ xs) d =
      upsert_all-Distinct (upsert key merge x ys) xs (upsert-Distinct x ys d)

module _ {ℓ κ} {A : Type ℓ} (key : A → String) (merge : A → A → A) (P : A → Type κ)
    (keeps : (x y : A) → P x → P y → P (merge x y)) where
  upsert-All : (x : A) (ys : List A) → P x → All P ys → All P (upsert key merge x ys)
  unfolding upsert
  upsert-All x [] p h = (p, tt)
  upsert-All x (y ∷ ys) p (q, h) = elim (Bool-cases (contains (map key ys) (key x))) [
    | inl e ↦ rw e (q, upsert-All x ys p h)
    | inr e ↦ rw e (elim (Bool-cases (key y == key x)) [
      | inl f ↦ rw f (keeps y x q p, h)
      | inr f ↦ rw f (q, upsert-All x ys p h)
    ])
  ]

  -- What `merge` keeps holds of every item, if it held of the items of both lists.
  pub upsert_all-All : (ys xs : List A) → All P ys → All P xs → All P (upsert_all key merge ys xs)
  unfolding upsert_all
  upsert_all-All ys [] h k = h
  upsert_all-All ys (x ∷ xs) h (p, k) =
      upsert_all-All (upsert key merge x ys) xs (upsert-All x ys p h) k
