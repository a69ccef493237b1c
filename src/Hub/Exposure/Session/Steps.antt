-- ===== src/Hub/Exposure/Session/Steps.antt =====
-- What the statements of a transaction (internal/hub/exposure.go) come to when none, or some, fail.
use barrikade_lens.Common.{
  List, [], ◌∷◌, Option, none, some, ◌≡◌, refl, ◌∙◌, ap, ◌⊎◌, inl, inr, All, Result, ok, err,
  err-ne-ok,
}
use barrikade_lens.Hub.Exposure.Session.{
  Session, Statement, next_fault, answer, exec, commit, continue_with, and_then,
}

abbrev pub NoFault : {E : Type 0} → List (Option E) → Type 0
NoFault faults = All (λ fault. fault ≡ none) faults

next_fault-NoFault :
    {E : Type 0} (faults : List (Option E))
    → NoFault faults
    → ((next_fault faults).0 ≡ none) × NoFault (next_fault faults).1
next_fault-NoFault [] h = (refl, tt)
next_fault-NoFault (fault ∷ faults) h = h

module _ {S E : Type 0} where
  -- What is committed stays, a success makes `change`, and without a fault there is success.
  pub record Does (change : S → S) (t : Statement S E) : Type 0 where
    pub kept : (s : Session S E) → (t s).1.committed ≡ s.committed
    pub effect : (s : Session S E) → (t s).0 ≡ ok tt → (t s).1.working ≡ change s.working
    pub total : (s : Session S E) → NoFault s.faults → ((t s).0 ≡ ok tt) × NoFault (t s).1.faults

  -- `P` of what the transaction sees stays, whether the statement succeeds or fails.
  abbrev pub Keeps : (S → Type 0) → Statement S E → Type 0
  Keeps P t = (s : Session S E) → P s.working → P (t s).1.working

  pub exec-Does : (change : S → S) → Does change (exec {E = E} change)
  unfolding exec answer
  exec-Does change = record {
    kept = λ s. kept (next_fault s.faults) s;
    effect = λ s h. effect (next_fault s.faults) s h;
    total = λ s h. total (next_fault s.faults) s (next_fault-NoFault s.faults h);
  }
    where
      write : Session S E → Session S E
      write t = record t { working = change t.working }

      kept :
          (n : Option E × List (Option E)) (s : Session S E)
          → (answer write n s).1.committed ≡ s.committed
      kept (none, faults) s = refl
      kept (some e, faults) s = refl

      effect :
          (n : Option E × List (Option E)) (s : Session S E)
          → (answer write n s).0 ≡ ok tt
          → (answer write n s).1.working ≡ change s.working
      effect (none, faults) s h = refl
      effect (some e, faults) s h = absurd (err-ne-ok h)

      total :
          (n : Option E × List (Option E)) (s : Session S E)
          → (n.0 ≡ none) × NoFault n.1
          → ((answer write n s).0 ≡ ok tt) × NoFault (answer write n s).1.faults
      total (none, faults) s h = (refl, h.1)
      total (some e, faults) s h = cc h.0

  pub exec-Keeps :
      (P : S → Type 0) (change : S → S) → ((x : S) → P x → P (change x)) → Keeps P (exec change)
  unfolding exec answer
  exec-Keeps P change f s h = keeps (next_fault s.faults)
    where
      keeps :
          (n : Option E × List (Option E))
          → P (answer (λ t. record t { working = change t.working }) n s).1.working
      keeps (none, faults) = f s.working h
      keeps (some e, faults) = h

  pub and_then-Keeps :
      (P : S → Type 0) (t u : Statement S E) → Keeps P t → Keeps P u → Keeps P (and_then t u)
  unfolding and_then continue_with
  and_then-Keeps P t u k l s h = keeps (t s) (k s h)
    where
      keeps :
          (x : Result E (Unit {0}) × Session S E) → P x.1.working → P (continue_with x u).1.working
      keeps (ok u, r) p = l r p
      keeps (err e, r) p = p

  pub and_then-Does :
      {change after : S → S} (t u : Statement S E)
      → Does change t
      → Does after u
      → Does (λ x. after (change x)) (and_then t u)
  unfolding and_then continue_with
  and_then-Does {change} {after} t u d c = record {
    kept = λ s. kept (t s) ∙ d.kept s;
    effect = λ s h. effect (t s) s (d.effect s) h;
    total = λ s h. total (t s) (d.total s h);
  }
    where
      kept :
          (x : Result E (Unit {0}) × Session S E) → (continue_with x u).1.committed ≡ x.1.committed
      kept (ok u, r) = c.kept r
      kept (err e, r) = refl

      effect :
          (x : Result E (Unit {0}) × Session S E) (s : Session S E)
          → (x.0 ≡ ok tt → x.1.working ≡ change s.working)
          → (continue_with x u).0 ≡ ok tt
          → (continue_with x u).1.working ≡ after (change s.working)
      effect (ok u, r) s f h = c.effect r h ∙ ap after (f refl)
      effect (err e, r) s f h = absurd (err-ne-ok h)

      total :
          (x : Result E (Unit {0}) × Session S E)
          → (x.0 ≡ ok tt) × NoFault x.1.faults
          → ((continue_with x u).0 ≡ ok tt) × NoFault (continue_with x u).1.faults
      total (ok u, r) h = c.total r h.1
      total (err e, r) h = absurd (err-ne-ok h.0)

  -- A result of a transaction that began with `before`: an error that left it, or `after`.
  abbrev pub Atomic : S → S → Result E (Unit {0}) × Session S E → Type 0
  Atomic before after r =
      ((e : E) × (r.0 ≡ err e) × (r.1.committed ≡ before))
      ⊎ ((r.0 ≡ ok tt) × (r.1.committed ≡ after))

  pub commit-Atomic : (s : Session S E) → Atomic s.committed s.working (commit s)
  unfolding commit answer
  commit-Atomic s = atomic (next_fault s.faults)
    where
      atomic :
          (n : Option E × List (Option E))
          → Atomic s.committed s.working (answer (λ t. record t { committed = t.working }) n s)
      atomic (none, faults) = inr (refl, refl)
      atomic (some e, faults) = inl (e, refl, refl)

  pub commit-total : (s : Session S E) → NoFault s.faults → (commit s).0 ≡ ok tt
  unfolding commit answer
  commit-total s h = total (next_fault s.faults) (next_fault-NoFault s.faults h)
    where
      total :
          (n : Option E × List (Option E))
          → (n.0 ≡ none) × NoFault n.1
          → (answer (λ t. record t { committed = t.working }) n s).0 ≡ ok tt
      total (none, faults) h = refl
      total (some e, faults) h = cc h.0

  -- `t` fails, or the rest begins after it.
  pub and_then-cases {ℓ} :
      {change : S → S} (t next : Statement S E) (Q : Result E (Unit {0}) × Session S E → Type ℓ)
      (s : Session S E)
      → Does change t
      → ((e : E) (r : Session S E) → r.committed ≡ s.committed → Q (err e, r))
      → ((r : Session S E) → r.committed ≡ s.committed → r.working ≡ change s.working → Q (next r))
      → Q (and_then t next s)
  unfolding and_then continue_with
  and_then-cases {change = change} t next Q s d f g = cases (t s) (d.kept s) (d.effect s)
    where
      cases :
          (x : Result E (Unit {0}) × Session S E)
          → x.1.committed ≡ s.committed
          → (x.0 ≡ ok tt → x.1.working ≡ change s.working)
          → Q (continue_with x next)
      cases (ok u, r) k h = g r k (h refl)
      cases (err e, r) k h = f e r k

  -- Without a fault the rest succeeds if it does so from any session without faults.
  pub and_then-ok :
      {change : S → S} (t next : Statement S E) (s : Session S E)
      → Does change t
      → NoFault s.faults
      → ((r : Session S E) → NoFault r.faults → r.working ≡ change s.working → (next r).0 ≡ ok tt)
      → (and_then t next s).0 ≡ ok tt
  unfolding and_then continue_with
  and_then-ok {change = change} t next s d n g = total (t s) (d.total s n) (d.effect s)
    where
      total :
          (x : Result E (Unit {0}) × Session S E)
          → (x.0 ≡ ok tt) × NoFault x.1.faults
          → (x.0 ≡ ok tt → x.1.working ≡ change s.working)
          → (continue_with x next).0 ≡ ok tt
      total (ok u, r) h k = g r h.1 (k refl)
      total (err e, r) h k = absurd (err-ne-ok h.0)
