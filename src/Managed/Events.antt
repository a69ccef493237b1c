-- ===== src/Managed/Events.antt =====
-- internal/managed/collector.go: the select loop of `Run`. Times are seconds; a timer is the time at
-- which it fires, and `none` for a nil channel. Which ready case the select takes is up to the list
-- of signals.
use barrikade_lens.Common.{
  ℕ, ◌+◌, Bool, true, false, List, [], ◌∷◌, Option, none, some, ◌≡◌, refl, arith, All,
  if◌then◌else◌,
}

abbrev pub debounce_interval : ℕ
debounce_interval = 10

abbrev pub max_event_delay : ℕ
max_event_delay = 60

pub record Loop : Type 0 where
  pub debounce : Option ℕ
  pub deadline : Option ℕ
  pub stopped : Bool

pub data Signal : Type 0 where
  done : Signal  -- ctx.Done()
  events_closed : Signal
  event : Bool → ℕ → Signal  -- whether its operation is relevant, and the time
  debounce_fired deadline_fired process_tick full_tick : Signal
  watch_error : Bool → Signal  -- whether it ends the loop

pub data Action : Type 0 where
  nothing stop : Action
  scan : Bool → Action  -- scanAndUpload(full)

abbrev pub idle : Loop
idle = record { debounce = none; deadline = none; stopped = false }

pub reset_deadline : Option ℕ → ℕ → Option ℕ
reset_deadline none now = some (now + max_event_delay)
reset_deadline (some t) now = some t

-- resetEvents
pub reset_events : ℕ → Loop → Loop
unfolding reset_deadline
reset_events now l = record l {
  debounce = some (now + debounce_interval);
  deadline = reset_deadline l.deadline now;
}

-- clearEvents
pub clear_events : Loop → Loop
clear_events l = record l { debounce = none; deadline = none }

pub react : Loop → Signal → Loop × Action
unfolding reset_events clear_events
react l done = (record l { stopped = true }, stop)
react l events_closed = (record l { stopped = true }, stop)
react l (event relevant now) = if relevant then (reset_events now l, nothing) else (l, nothing)
react l debounce_fired = (clear_events l, scan false)
react l deadline_fired = (clear_events l, scan false)
react l process_tick = (l, scan false)
react l full_tick = (l, scan true)
react l (watch_error ends) = if ends then (record l { stopped = true }, stop) else (l, nothing)

-- One round of the loop.
pub step : Loop → Signal → Loop × Action
unfolding react
step l s = if l.stopped then (l, nothing) else react l s

pub run : Loop → List Signal → Loop × List Action
run l [] = (l, [])
run l (s ∷ ss) = let (l', a) = step l s in let (l'', actions) = run l' ss in (l'', a ∷ actions)

-- The signals that leave an armed loop armed.
abbrev pub Leaves : Signal → Type 0
Leaves done = ⊥
Leaves events_closed = ⊥
Leaves debounce_fired = ⊥
Leaves deadline_fired = ⊥
Leaves (watch_error true) = ⊥
Leaves _ = Unit

step_pending :
    (l : Loop) (s : Signal) (t : ℕ)
    → l.stopped ≡ false
    → l.deadline ≡ some t
    → Leaves s
    → ((step l s).0.deadline ≡ some t) × ((step l s).0.stopped ≡ false)
unfolding step
step_pending l done t r h v = absurd v
step_pending l (event relevant now) t r h v = ground arith
step_pending l (watch_error true) t r h v = absurd v
step_pending l (watch_error false) t r h v = ground arith
step_pending l events_closed t r h v = absurd v
step_pending l debounce_fired t r h v = absurd v
step_pending l deadline_fired t r h v = absurd v
step_pending l process_tick t r h v = ground arith
step_pending l full_tick t r h v = ground arith

run_pending :
    (l : Loop) (ss : List Signal) (t : ℕ)
    → l.stopped ≡ false
    → l.deadline ≡ some t
    → All Leaves ss
    → (run l ss).0.deadline ≡ some t
unfolding run
run_pending l [] t r h v = h
run_pending l (s ∷ ss) t r h (v, vs) =
    let (h', r') = step_pending l s t r h v in run_pending (step l s).0 ss t r' h' vs

-- Once a relevant event has come to an idle loop at time `now`, the deadline is 60 seconds later,
-- and no further event, tick or passing error postpones it.
pub deadline_kept :
    (ss : List Signal) (now : ℕ)
    → All Leaves ss
    → (run idle (event true now ∷ ss)).0.deadline ≡ some (now + max_event_delay)
unfolding run step
deadline_kept ss now v = run_pending _ ss (now + max_event_delay) refl refl v

-- Both timers are armed, or neither is.
abbrev pub Together : Option ℕ → Option ℕ → Type 0
Together none none = Unit
Together (some _) (some _) = Unit
Together _ _ = ⊥

step-Together :
    (l : Loop) (s : Signal)
    → Together l.debounce l.deadline
    → Together (step l s).0.debounce (step l s).0.deadline
unfolding step
step-Together l s h = ground arith

-- After any signals both timers of the loop are armed, or neither is, if that held before.
pub run-Together :
    (l : Loop) (ss : List Signal)
    → Together l.debounce l.deadline
    → Together (run l ss).0.debounce (run l ss).0.deadline
unfolding run
run-Together l [] h = h
run-Together l (s ∷ ss) h = run-Together (step l s).0 ss (step-Together l s h)
