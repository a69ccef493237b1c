-- ===== src/Scanner/Builder/Confidence.antt =====
-- The rule of confidence of internal/scanner/builder/builder.go: evidence of two families confirms.
use barrikade_lens.Common.{
  ◌≤◌, true, false, String, List, [], ◌∷◌, Option, none, some, ◌==◌, ◌≡◌, ◌≢◌, ◌⊎◌, inl, inr, refl,
  ap, sym, ◌∙◌, arith, eq_iff, contains, length, All, Bool-cases, leb, eqb, ne_of_test, subst,
}
use barrikade_lens.Discovery.Types.{Evidence, confidence_confirmed}
use barrikade_lens.Scanner.Builder.{
  Builder, Tally, nothing_seen, authority, evidence_of, count_family, count_evidence, tally, level,
  confidence,
}

count_evidence-high :
    (b : Builder) (ref : String) (o : Option Evidence) (t : Tally)
    → t.high ≡ length t.families
    → (count_evidence b ref o t).high ≡ length (count_evidence b ref o t).families
unfolding count_evidence
count_evidence-high b ref none t h = h
count_evidence-high b ref (some e) t h = ground (arith, h)

tally-high :
    (b : Builder) (refs : List String) (t : Tally)
    → t.high ≡ length t.families
    → (tally b refs t).high ≡ length (tally b refs t).families
unfolding tally
tally-high b [] t h = h
tally-high b (ref ∷ refs) t h =
    tally-high b refs _ (count_evidence-high b ref (evidence_of b ref) t h)

count_evidence-families :
    (b : Builder) (ref : String) (o : Option Evidence) (t : Tally) (f : String)
    → contains t.families f ≡ true
    → contains (count_evidence b ref o t).families f ≡ true
unfolding count_evidence
count_evidence-families b ref none t f h = h
count_evidence-families b ref (some e) t f h = ground (arith, h)

tally-families :
    (b : Builder) (refs : List String) (t : Tally) (f : String)
    → contains t.families f ≡ true
    → contains (tally b refs t).families f ≡ true
unfolding tally
tally-families b [] t f h = h
tally-families b (ref ∷ refs) t f h =
    tally-families b refs _ f (count_evidence-families b ref (evidence_of b ref) t f h)

counted :
    (b : Builder) (ref : String) (t : Tally) (e : Evidence)
    → e.specificity ≡ "high"
    → contains (count_evidence b ref (some e) t).families e.family ≡ true
unfolding count_evidence
counted b ref t e h = ground (arith, h, eq_iff e.specificity "high", eq_iff e.family e.family)

tally-found :
    (b : Builder) (refs : List String) (t : Tally) (ref : String) (e : Evidence)
    → contains refs ref ≡ true
    → evidence_of b ref ≡ some e
    → e.specificity ≡ "high"
    → contains (tally b refs t).families e.family ≡ true
unfolding tally
tally-found b [] t ref e c h s = ground arith
tally-found b (r ∷ refs) t ref e c h s = elim (Bool-cases (ref == r)) [
  | inl q ↦
      subst (λ o. contains (tally b refs (count_evidence b r o t)).families e.family ≡ true)
        (sym (ap (evidence_of b) (sym ((eq_iff ref r).0 q)) ∙ h))
        (tally-families b refs _ e.family (counted b r t e s))
  | inr q ↦ tally-found b refs _ ref e (ground arith) h s
]

two_members :
    (l : List String) (f g : String)
    → contains l f ≡ true
    → contains l g ≡ true
    → f ≢ g
    → 2 ≤ length l
two_members [] f g c d n = ground arith
two_members (x ∷ []) f g c d n = ground (arith, eq_iff f x, eq_iff g x, n)
two_members (x ∷ y ∷ l) f g c d n = ground arith

-- Two known pieces of highly specific evidence of different families confirm what refers to both.
pub confidence_corroborated :
    (b : Builder) (refs : List String) (r s : String) (e f : Evidence)
    → contains refs r ≡ true
    → contains refs s ≡ true
    → evidence_of b r ≡ some e
    → evidence_of b s ≡ some f
    → e.specificity ≡ "high"
    → f.specificity ≡ "high"
    → e.family ≢ f.family
    → confidence b refs ≡ confidence_confirmed
unfolding confidence level
confidence_corroborated b refs r s e f c d p q h k n = ground (
  arith,
  two_members (tally b refs nothing_seen).families e.family f.family
      (tally-found b refs nothing_seen r e c p h) (tally-found b refs nothing_seen s f d q k) n,
  tally-high b refs nothing_seen refl,
)

-- Nothing authoritative, and no family but `f` in what is highly specific.
abbrev pub OneFamily : Builder → String → String → Type 0
OneFamily b f ref =
    (authority b ref ≡ false)
    × ((e : Evidence) → evidence_of b ref ≡ some e → e.specificity ≡ "high" → e.family ≡ f)

-- What the loop has counted then.
abbrev AtMostOne : String → Tally → Type 0
AtMostOne f t =
    (t.authoritative ≡ false)
    × (((t.families ≡ []) × (t.high ≡ 0)) ⊎ ((t.families ≡ f ∷ []) × (t.high ≡ 1)))

count_family-AtMostOne :
    (f : String) (e : Evidence) (t : Tally)
    → (e.specificity ≡ "high" → e.family ≡ f)
    → AtMostOne f t
    → AtMostOne f (count_family e t)
unfolding count_family
count_family-AtMostOne f e t h k =
    ground (arith, h, k, eq_iff e.specificity "high", eq_iff f f, eq_iff e.family f)

count_evidence-AtMostOne :
    (b : Builder) (f ref : String) (o : Option Evidence) (t : Tally)
    → authority b ref ≡ false
    → ((e : Evidence) → o ≡ some e → e.specificity ≡ "high" → e.family ≡ f)
    → AtMostOne f t
    → AtMostOne f (count_evidence b ref o t)
unfolding count_evidence
count_evidence-AtMostOne b f ref none t a h k = k
count_evidence-AtMostOne b f ref (some e) t a h (u, k) =
    count_family-AtMostOne f e _ (h e refl) (ground (arith, a, u), k)

tally-AtMostOne :
    (b : Builder) (f : String) (refs : List String) (t : Tally)
    → All (OneFamily b f) refs
    → AtMostOne f t
    → AtMostOne f (tally b refs t)
unfolding tally
tally-AtMostOne b f [] t h k = k
tally-AtMostOne b f (ref ∷ refs) t ((a, o), h) k =
    tally-AtMostOne b f refs _ h (count_evidence-AtMostOne b f ref (evidence_of b ref) t a o k)

level_unconfirmed :
    (t : Tally) → t.authoritative ≡ false → leb 2 t.high ≡ false → level t ≢ confidence_confirmed
unfolding level
level_unconfirmed t a h = elim (Bool-cases (eqb t.high 1)) [
  | inl e ↦ rw (a, h, e) (ne_of_test _ _ refl)
  | inr e ↦ rw (a, h, e) (ne_of_test _ _ refl)
]

-- Evidence of one family, none of it authoritative, confirms nothing.
pub confidence-OneFamily :
    (b : Builder) (f : String) (refs : List String)
    → All (OneFamily b f) refs
    → confidence b refs ≢ confidence_confirmed
unfolding confidence level
confidence-OneFamily b f refs h =
    let (a, c) = tally-AtMostOne b f refs nothing_seen h (refl, inl (refl, refl)) in
    level_unconfirmed (tally b refs nothing_seen) a (ground (arith, c))
