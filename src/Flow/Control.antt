-- ===== src/Flow/Control.antt =====
-- `KeycardFlow` with `Start`, `Resume`, `Cancel`, and the ends of `runFlow` and of a pause.
use status_keycard_go.Prelude.{
  ℕ, Bool, true, false, not, Option, none, some, List, [], ◌∷◌, if◌then◌else◌, Text,
}
use status_keycard_go.Prelude.Dict.{Dict, insert}

pub data RunState : Type 0 where
  idle running paused resuming cancelling : RunState

pub RunState-discrete : Discrete RunState
RunState-discrete = hlevel

-- Where the goroutine of `runFlow` is.
pub data Position : Type 0 where
  ended : Position  -- there is none
  working : Position  -- in the flow
  connecting : Position  -- in `connect`, before the card and the timer
  checked : Position  -- in a pause, past the test of the state
  waiting : Position  -- in a pause, at the receive from `wakeUp`; `connect` also waits for the card
  woken : Position  -- in a pause, past the receive
  leaving : Position  -- behind the loop of `runFlow`

pub Position-discrete : Discrete Position
Position-discrete = hlevel

-- What `signal.Send` is given: a type, and a map of values.
pub data Signal (P : Type 0) : Type 0 where
  action : Text → Dict P → Signal P
  flow_result : Dict P → Signal P

-- `P` is a value of JSON; a nil map of parameters is `none`.
pub record Flow (P : Type 0) : Type 0 where
  pub flow_type : ℕ
  pub state : RunState
  pub params : Option (Dict P)
  pub position : Position
  pub signals : List (Signal P)

pub data FlowError : Type 0 where
  already_running only_paused cannot_cancel_idle : FlowError

-- How a call of the control ends.
pub data Called (P : Type 0) : Type 0 where
  returned : Option FlowError → Flow P → Called P
  crashed blocked : Called P

abbrev pub in_state : RunState → RunState → Bool
in_state s t = elim (RunState-discrete s t) [ yes _ ↦ true | no _ ↦ false ]

module _ {P : Type 0} where
  -- `NewFlow`, behind `pairing.NewStore`
  unfoldable pub new_flow : Flow P
  new_flow = record { flow_type = 0; state = idle; params = none; position = ended; signals = [] }

  unfoldable pub start : ℕ → Option (Dict P) → Flow P → Called P
  start flow_type params f =
      if not (in_state f.state idle)
      then returned (some already_running) f
      else returned none
          (record f { flow_type = flow_type; params = params; state = running; position = working })

  -- `f.wakeUp <- struct{}{}`, which the goroutine receives only at its pause.
  unfoldable pub send_at : Position → Flow P → Called P
  send_at waiting f = returned none (record f { position = woken })
  send_at _ f = blocked

  unfoldable pub wake_up : Flow P → Called P
  unfolding send_at
  wake_up f = send_at f.position f

  unfoldable pub insert_all : Dict P → Dict P → Dict P
  insert_all [] m = m
  insert_all ((k, v) ∷ new) m = insert_all new (insert k v m)

  -- The loop over the new parameters: an assignment to a nil map panics.
  unfoldable pub merge : Dict P → Option (Dict P) → Option (Option (Dict P))
  unfolding insert_all
  merge [] old = some old
  merge (e ∷ new) none = none
  merge (e ∷ new) (some m) = some (some (insert_all (e ∷ new) m))

  unfoldable pub resume_with : Option (Option (Dict P)) → Flow P → Called P
  unfolding wake_up
  resume_with none f = crashed
  resume_with (some params) f = wake_up (record f { params = params; state = resuming })

  unfoldable pub resume : Dict P → Flow P → Called P
  unfolding resume_with merge
  resume params f =
      if not (in_state f.state paused)
      then returned (some only_paused) f
      else resume_with (merge params f.params) f

  unfoldable pub cancel : Flow P → Called P
  unfolding wake_up
  cancel f =
      if in_state f.state idle
      then returned (some cannot_cancel_idle) f
      else if in_state f.state paused
      then wake_up (record f { state = cancelling })
      else returned none (record f { state = cancelling })

  -- The start of `connect`, and its end when the card is there.
  unfoldable pub begin_connect : Flow P → Flow P
  begin_connect f = record f { position = connecting }

  unfoldable pub card_arrived : Text → Flow P → Flow P
  card_arrived name f =
      if in_state f.state paused
      then record f { signals = action name [] ∷ f.signals; state = running; position = working }
      else record f { position = working }

  -- The test at the start of `pauseAndWaitWithStatus`; a flow that gives up leaves `runFlow`.
  unfoldable pub test_cancelled : Flow P → Flow P
  test_cancelled f =
      if in_state f.state cancelling
      then record f { position = leaving }
      else record f { position = checked }

  -- `pause`
  unfoldable pub pause : Text → Dict P → Flow P → Flow P
  pause name status f = record f {
    signals = action name status ∷ f.signals;
    state = paused;
    position = waiting;
  }

  -- The rest of `pauseAndWaitWithStatus`, behind the receive.
  unfoldable pub go_on : Flow P → Flow P
  go_on f =
      if in_state f.state resuming
      then record f { state = running; position = working }
      else record f { position = leaving }

  -- The end of `runFlow`.
  unfoldable pub end_flow : Dict P → Flow P → Flow P
  end_flow result f = record f {
    signals =
        if not (in_state f.state cancelling) then flow_result result ∷ f.signals else f.signals;
    params = none;
    state = idle;
    position = ended;
  }
