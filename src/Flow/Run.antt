-- ===== src/Flow/Run.antt =====
-- pkg/flow/flow.go: `connect`, `connectedFlow`, and the loop of `runFlow`.
use status_keycard_go.Prelude.{
  ℕ, Bool, true, false, none, some, List, [], ◌∷◌, if◌then◌else◌, Text, codes,
}
use status_keycard_go.Prelude.Int.{negsuc}
use status_keycard_go.Internal.Errors.{Result, ok, err, error_text}
use status_keycard_go.Pairing.{FileSystem}
use status_keycard_go.Card.{Card}
use status_keycard_go.Keycard.Life.{Connected, connected, refused, panicked}
use status_keycard_go.Keycard.Life
use status_keycard_go.Flow.Values.{Value, text, Action, action_text}
use status_keycard_go.Flow.Control.{
  Called, returned, crashed, blocked, resume, cancel, pause, begin_connect, card_arrived, end_flow,
  in_state, paused, leaving, working,
}
use status_keycard_go.Flow.Session.{
  CardState, Fault, Arrival, plugged, timer_fired, resumed_there, cancelled_there, Session, Ended,
  value, fault, waiting, panic, exhausted, F, pure, gets, ◌>>=◌, ◌>>◌, call, flag, is_known,
  pause_status, Round, finished, again, repeat,
}
use status_keycard_go.Flow.Opening.{factory_reset_flow, select_keycard}
use status_keycard_go.Flow.Kinds.{FlowStatus, flow_type_of, identity}
use status_keycard_go.Flow.Flows.{flow_of}
use status_keycard_go.Flow.Keys
use status_keycard_go.Flow.Messages

abbrev pub unknown_card : CardState
unknown_card = record {
  instance_uid = [];
  key_uid = [];
  free_slots = negsuc 0;
  pin_retries = negsuc 0;
  puk_retries = negsuc 0;
  version = 0;
}

unfoldable pub fault_text : Fault → Text
fault_text Fault.restart = codes "restart"
fault_text Fault.giveup = codes "giveup"
fault_text Fault.authenticity = codes "authenticity"
fault_text (Fault.error e) = error_text e

-- What `runFlow` publishes for an error.
unfoldable pub error_status : Fault → CardState → FlowStatus
unfolding fault_text
error_status e c =
    (Keys.error, text (fault_text e)) ∷ (if is_known c.free_slots then identity c else [])

module _ {W : Type 0} where
  -- A `Resume` while `connect` waits: where it is not refused, `connect` panics.
  unfoldable pub resumed_in_connect : Called Value → F W (Unit {0}) → F W (Unit {0})
  resumed_in_connect (returned (some _) g) rest s = rest (record s { flow = g })
  resumed_in_connect (returned none g) rest s = panic
  resumed_in_connect crashed rest s = panic
  resumed_in_connect blocked rest s = waiting s

  -- A `Cancel` while `connect` waits: it is received only behind the pause of the timer.
  unfoldable pub cancelled_in_connect : Bool → Called Value → F W (Unit {0}) → F W (Unit {0})
  cancelled_in_connect true (returned _ g) rest s =
      fault Fault.giveup (record s { flow = record g { position = leaving } })
  cancelled_in_connect false (returned _ g) rest s = rest (record s { flow = g })
  cancelled_in_connect _ crashed rest s = panic
  cancelled_in_connect _ blocked rest s = waiting s

  -- What `run` did, when `connect` hears of it.
  unfoldable pub run_ended : Connected × W → F W (Unit {0})
  run_ended (connected, w) s =
      value tt
        (record s { world = w; flow = card_arrived (action_text Action.card_inserted) s.flow })
  run_ended (refused e, w) s =
      fault Fault.restart (record s { world = w; flow = record s.flow { position = working } })
  run_ended (panicked, w) s = panic
  run_ended (Connected.waiting, w) s = exhausted

  -- The timer fires once.
  unfoldable pub timed_out : Bool → F W (Unit {0})
  timed_out true s = value tt (record s {
    flow =
        pause (action_text Action.insert_card)
          (pause_status Messages.error_connection [] s.card_info) s.flow;
  })
  timed_out false s = value tt s

module _ {W : Type 0} (card : Card W) (rounds : ℕ) where
  -- The loop of `connect`; the Boolean says that the timer has not fired yet.
  unfoldable pub connect_loop : List Text → List Arrival → Bool → F W (Unit {0})
  unfolding resumed_in_connect cancelled_in_connect run_ended timed_out
  connect_loop readers [] armed s = waiting s
  connect_loop readers (plugged ∷ rest) armed s =
      run_ended (Life.run card rounds readers s.world) (record s { arrivals = rest })
  connect_loop readers (timer_fired ∷ rest) armed s =
      let later = connect_loop readers rest false in
      (timed_out armed >> later) (record s { arrivals = rest })
  connect_loop readers (resumed_there d ∷ rest) armed s =
      let later = connect_loop readers rest armed in
      resumed_in_connect (resume d s.flow) later (record s { arrivals = rest })
  connect_loop readers (cancelled_there ∷ rest) armed s =
      let later = connect_loop readers rest armed in
      cancelled_in_connect (in_state s.flow.state paused) (cancel s.flow) later
        (record s { arrivals = rest })

  -- The readers that `StartKeycardContext` has found, or its error.
  unfoldable pub with_readers : Result (List Text) → F W (Unit {0})
  unfolding connect_loop
  with_readers (err e) s = fault (Fault.error e) s
  with_readers (ok readers) s =
      connect_loop readers s.arrivals true (record s { flow = begin_connect s.flow })

  unfoldable pub connect : F W (Unit {0})
  unfolding with_readers
  connect = call (Life.start card) >>= with_readers

  -- The deferred `closeKeycard`: the goroutine of the context ends and releases it.
  unfoldable pub released : Session W → Session W
  released s = record s { world = (card.release s.world).1; app_info = none; paired_at = none }

  unfoldable pub closing : {A : Type 0} → F W A → F W A
  unfolding released
  closing m s = elim (m s) [
    | value a t ↦ value a (released t)
    | fault e t ↦ fault e (released t)
    | waiting t ↦ waiting t
    | panic ↦ panic
    | exhausted ↦ exhausted
  ]

module _ {W : Type 0} (card : Card W) (fs : FileSystem W) (rounds : ℕ) where
  unfoldable pub when_reset : Bool → F W (Unit {0})
  when_reset b = if b then factory_reset_flow card else pure tt

  unfoldable pub with_card : F W FlowStatus
  unfolding when_reset
  with_card = do
    wanted ← flag Keys.factory_reset
    when_reset wanted
    select_keycard card
    t ← gets (λ s. flow_type_of s.flow.flow_type)
    flow_of card fs rounds t

  unfoldable pub connected_flow : F W FlowStatus
  unfolding with_card connect closing
  connected_flow = connect card rounds >> closing card rounds with_card

  -- How a round of `runFlow` ends: a restart goes on, and every other error is a result.
  unfoldable pub round_ended : Ended W FlowStatus → Ended W (Round FlowStatus)
  round_ended (value r s) = value (finished r) s
  round_ended (fault Fault.restart s) = value again s
  round_ended (fault e s) = value (finished (error_status e s.card_info)) s
  round_ended (waiting s) = waiting s
  round_ended panic = panic
  round_ended exhausted = exhausted

  unfoldable pub run_round : F W (Round FlowStatus)
  unfolding connected_flow round_ended
  run_round s = round_ended (connected_flow (record s { card_info = unknown_card }))

  unfoldable pub end_run : FlowStatus → F W FlowStatus
  end_run r s = value r (record s { flow = end_flow r s.flow })

  -- `runFlow`
  unfoldable pub run_flow : F W FlowStatus
  unfolding run_round end_run
  run_flow = repeat rounds run_round >>= end_run
