-- ===== src/Flow/Connecting.antt =====
-- pkg/flow/flow.go: what the user hears and does while `connect` waits for the card.
use status_keycard_go.Prelude.{
  ap, ◌≡◌, ◌≢◌, ◌⊎◌, inl, inr, refl, arith, ℕ, Bool, true, false, Option, none, some, List, [], ◌∷◌,
  Text,
}
use status_keycard_go.Prelude.Dict.{Dict}
use status_keycard_go.Card.{Card}
use status_keycard_go.Keycard.Life.{Connected, connected, refused, panicked}
use status_keycard_go.Keycard.Life
use status_keycard_go.Flow.Values.{Value, Action, action_text}
use status_keycard_go.Flow.Control.{
  Flow, FlowError, Signal, action, Called, returned, crashed, blocked, resume, resume_with, merge,
  cancel, wake_up, send_at, pause, card_arrived, in_state, paused, running, cancelling, idle,
}
use status_keycard_go.Flow.Control
use status_keycard_go.Flow.Session.{
  Arrival, plugged, timer_fired, resumed_there, cancelled_there, Session, Ended, value, ◌>>=◌,
  pause_status,
}
use status_keycard_go.Flow.Run.{
  resumed_in_connect, cancelled_in_connect, run_ended, timed_out, connect_loop,
}
use status_keycard_go.Flow.Messages

-- Nothing was sent, or the card was asked for and then announced.
abbrev pub Announced : {W : Type 0} → List (Signal Value) → Ended W (Unit {0}) → Type 0
Announced old (value _ t) =
    (t.flow.position ≡ Control.working)
    × ((t.flow.signals ≡ old)
        ⊎ ((status : Dict Value) × (t.flow.signals
              ≡ action (action_text Action.card_inserted) []
                ∷ action (action_text Action.insert_card) status
                ∷ old)
            × (t.flow.state ≡ running)))
Announced old _ = Unit

-- Before and behind the pause of the timer.
abbrev Before : List (Signal Value) → Flow Value → Type 0
Before old f = (f.signals ≡ old) × (f.state ≢ paused)

abbrev Behind : List (Signal Value) → Flow Value → Type 0
Behind old f =
    (status : Dict Value) × (f.signals ≡ action (action_text Action.insert_card) status ∷ old)
    × (f.state ≡ paused)

abbrev Waits : Bool → List (Signal Value) → Flow Value → Type 0
Waits true old f = Before old f
Waits false old f = Behind old f

arrived-unpaused :
    (t : Text) (f : Flow Value)
    → f.state ≢ paused
    → card_arrived t f ≡ record f { position = Control.working }
unfolding card_arrived
arrived-unpaused t f h = ground arith

arrived-paused :
    (t : Text) (f : Flow Value)
    → f.state ≡ paused
    → card_arrived t f
      ≡ record f { signals = action t [] ∷ f.signals; state = running; position = Control.working }
unfolding card_arrived
arrived-paused t f h = ground arith

unpaused : (f : Flow Value) → f.state ≢ paused → in_state f.state paused ≡ false
unpaused f h = ground arith

is_paused : (f : Flow Value) → f.state ≡ paused → in_state f.state paused ≡ true
is_paused f h = ground arith

cancelled-Before :
    (old : List (Signal Value)) (f : Flow Value)
    → Before old f
    → (e : Option FlowError) × (g : Flow Value) × (cancel f ≡ returned e g) × Before old g
unfolding cancel
cancelled-Before old f (h, k) = elim (Control.RunState-discrete f.state idle) [
  | yes p ↦ (some Control.cannot_cancel_idle, f, ground arith, (h, k))
  | no p ↦ (none, record f { state = cancelling }, ground arith, (h, λ q. cc q))
]

resume-unpaused :
    (d : Dict Value) (f : Flow Value)
    → f.state ≢ paused
    → resume d f ≡ returned (some Control.only_paused) f
unfolding resume
resume-unpaused d f h = ground arith

merged-accepted :
    (o : Option (Option (Dict Value))) (f : Flow Value) (e : FlowError) (g : Flow Value)
    → resume_with o f ≢ returned (some e) g
unfolding resume_with wake_up send_at
merged-accepted none f e g = λ q. cc q
merged-accepted (some m) f e g = ground arith

resume-accepted :
    (d : Dict Value) (f : Flow Value) (e : FlowError) (g : Flow Value)
    → f.state ≡ paused
    → resume d f ≢ returned (some e) g
unfolding resume
resume-accepted d f e g h = ground (arith, merged-accepted (merge d f.params) f e g)

running-cancelled :
    (f : Flow Value)
    → f.state ≡ running
    → cancel f ≡ returned none (record f { state = cancelling })
unfolding cancel
running-cancelled f h = ground arith

module _ {W : Type 0} (card : Card W) (rounds : ℕ) where
  ended-Announced :
      (armed : Bool) (old : List (Signal Value)) (r : Connected × W) (s : Session W)
      → Waits armed old s.flow
      → Announced old (run_ended r s)
  unfolding run_ended
  ended-Announced true old (connected, w) s (h, k) =
      rw (arrived-unpaused (action_text Action.card_inserted) s.flow k) (refl, inl h)
  ended-Announced false old (connected, w) s (st, h, k) =
      rw (arrived-paused (action_text Action.card_inserted) s.flow k)
        (refl, inr (st, ap (λ l. action (action_text Action.card_inserted) [] ∷ l) h, refl))
  ended-Announced armed old (refused e, w) s h = tt
  ended-Announced armed old (panicked, w) s h = tt
  ended-Announced armed old (Connected.waiting, w) s h = tt

  resumed-Announced :
      (old : List (Signal Value)) (r : Called Value) (rest : Session W → Ended W (Unit {0}))
      (s : Session W)
      → ((e : FlowError) (g : Flow Value) → r ≢ returned (some e) g)
      → Announced old (resumed_in_connect r rest s)
  unfolding resumed_in_connect
  resumed-Announced old (returned (some e) g) rest s h = absurd (h e g refl)
  resumed-Announced old (returned none g) rest s h = tt
  resumed-Announced old crashed rest s h = tt
  resumed-Announced old blocked rest s h = tt

  cancelled-Announced :
      (old : List (Signal Value)) (r : Called Value) (rest : Session W → Ended W (Unit {0}))
      (s : Session W)
      → Announced old (cancelled_in_connect true r rest s)
  unfolding cancelled_in_connect
  cancelled-Announced old (returned e g) rest s = tt
  cancelled-Announced old crashed rest s = tt
  cancelled-Announced old blocked rest s = tt

  loop-Announced :
      (readers : List Text) (list : List Arrival) (armed : Bool) (old : List (Signal Value))
      (s : Session W)
      → Waits armed old s.flow
      → Announced old (connect_loop card rounds readers list armed s)
  unfolding connect_loop timed_out pause ◌>>=◌
  loop-Announced readers [] armed old s h = tt
  loop-Announced readers (plugged ∷ rest) armed old s h =
      ended-Announced armed old (Life.run card rounds readers s.world)
        (record s { arrivals = rest }) h
  loop-Announced readers (timer_fired ∷ rest) true old s (h, k) =
      let st = pause_status Messages.error_connection [] s.card_info in
      loop-Announced readers rest false old _
        (st, ap (λ l. action (action_text Action.insert_card) st ∷ l) h, refl)
  loop-Announced readers (timer_fired ∷ rest) false old s h =
      loop-Announced readers rest false old (record s { arrivals = rest }) h
  loop-Announced readers (resumed_there d ∷ rest) true old s (h, k) =
      rw (resume-unpaused d s.flow k)
        (loop-Announced readers rest true old (record s { arrivals = rest }) (h, k))
  loop-Announced readers (resumed_there d ∷ rest) false old s (st, h, k) =
      resumed-Announced old (resume d s.flow) _ _ (λ e g. resume-accepted d s.flow e g k)
  loop-Announced readers (cancelled_there ∷ rest) true old s (h, k) =
      let (e, g, q, b) = cancelled-Before old s.flow (h, k) in
      rw (unpaused s.flow k, q)
        (loop-Announced readers rest true old (record s { flow = g; arrivals = rest }) b)
  loop-Announced readers (cancelled_there ∷ rest) false old s (st, h, k) =
      rw (is_paused s.flow k) (cancelled-Announced old (cancel s.flow) _ _)

  -- Let connect wait for the card in a flow that is not paused, before its timer has fired. If it
  -- returns the card, either no signal was sent, or exactly the question for the card and then the
  -- announcement that it is there, and the flow is running again.
  pub connect-Announced :
      (readers : List Text) (list : List Arrival) (s : Session W)
      → s.flow.state ≢ paused
      → Announced s.flow.signals (connect_loop card rounds readers list true s)
  connect-Announced readers list s h = loop-Announced readers list true s.flow.signals s (refl, h)

  ended-running :
      (r : Connected × W) (s : Session W)
      → r.0 ≡ connected
      → s.flow.state ≡ paused
      → (t : Session W) × (run_ended r s ≡ value tt t) × (t.flow.state ≡ running)
  unfolding run_ended
  ended-running (connected, w) s h k =
      (_, refl, rw (arrived-paused (action_text Action.card_inserted) s.flow k) refl)
  ended-running (refused e, w) s h k = cc h
  ended-running (panicked, w) s h k = cc h
  ended-running (Connected.waiting, w) s h k = cc h

  -- A Cancel of a running flow that waits for the card, before the timer fires, returns no error;
  -- but if the timer fires then and a card is connected afterwards, connect returns it and the flow
  -- is running.
  pub connect-Uncancelled :
      (readers : List Text) (rest : List Arrival) (s : Session W)
      → s.flow.state ≡ running
      → (Life.run card rounds readers s.world).0 ≡ connected
      → (cancel s.flow ≡ returned none (record s.flow { state = cancelling }))
        × ((t : Session W) × (connect_loop card rounds readers
                (cancelled_there ∷ timer_fired ∷ plugged ∷ rest)
                true
                s
              ≡ value tt t)
            × (t.flow.state ≡ running))
  unfolding connect_loop timed_out pause ◌>>=◌ cancelled_in_connect
  connect-Uncancelled readers rest s h k = (
    running-cancelled s.flow h,
    rw (unpaused s.flow (λ q. cc (h, q)), running-cancelled s.flow h)
        (ended-running (Life.run card rounds readers s.world) _ k refl),
  )
