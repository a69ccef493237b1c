-- ===== src/Hub/Exposure/Session.antt =====
-- A transaction of internal/hub/exposure.go: what the pool, Exec, Commit and the deferred Rollback do
-- with a state. Each statement uses up one of `faults`, and fails where that is an error; past the end
-- of the list it succeeds. A statement or a Commit that fails changes nothing.
pub mod Steps
use barrikade_lens.Common.{List, [], ◌∷◌, Option, none, some, Result, ok, err}

-- The connection: what is committed, what the transaction sees, and how the next statements end.
pub record Session (S E : Type 0) : Type 0 where
  pub committed : S
  pub working : S
  pub faults : List (Option E)

abbrev pub Statement : Type 0 → Type 0 → Type 0
Statement S E = Session S E → Result E (Unit {0}) × Session S E

abbrev pub next_fault : {E : Type 0} → List (Option E) → Option E × List (Option E)
next_fault [] = (none, [])
next_fault (fault ∷ faults) = (fault, faults)

module _ {S E : Type 0} where
  pub answer : (Session S E → Session S E) → Option E × List (Option E) → Statement S E
  answer change (none, faults) s = (ok tt, change (record s { faults = faults }))
  answer change (some e, faults) s = (err e, record s { faults = faults })

  -- tx.Exec; a query is a statement that changes nothing
  unfoldable pub exec : (S → S) → Statement S E
  unfolding answer
  exec change s = answer (λ t. record t { working = change t.working }) (next_fault s.faults) s

  -- tx.Commit
  unfoldable pub commit : Statement S E
  unfolding answer
  commit s = answer (λ t. record t { committed = t.working }) (next_fault s.faults) s

  unfoldable pub continue_with :
      Result E (Unit {0}) × Session S E → Statement S E → Result E (Unit {0}) × Session S E
  continue_with (ok u, s) next = next s
  continue_with (err e, s) next = (err e, s)

  -- if err := first; err != nil { return err }
  unfoldable pub and_then : Statement S E → Statement S E → Statement S E
  unfolding continue_with
  and_then first next s = continue_with (first s) next

  roll_back : Session S E → Session S E
  roll_back s = record s { working = s.committed }

  closed : Result E (Unit {0}) × Session S E → Result E (Unit {0}) × S
  unfolding roll_back
  closed (r, s) = (r, (roll_back s).working)

  -- BeginTx, a body and the deferred Rollback, which after a Commit finds nothing to undo
  unfoldable pub in_transaction : Statement S E → S → List (Option E) → Result E (Unit {0}) × S
  unfolding closed
  in_transaction body state faults = closed (
      and_then (exec (λ t. t)) body
        (record { committed = state; working = state; faults = faults }))
