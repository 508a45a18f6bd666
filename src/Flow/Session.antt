-- ===== src/Flow/Session.antt =====
-- The goroutine of a flow: its state, how its functions end, and its pauses. A function returns,
-- or fails with an error, or panics, or waits for an answer that never comes, or (in a loop of the
-- model) runs out of rounds. The answers of the user come as a list.
pub mod Rules
use status_keycard_go.Prelude.{
  ℕ, zero, suc, Bool, true, false, not, Option, none, some, List, [], ◌∷◌, if◌then◌else◌, length,
  Text, text_eq,
}
use status_keycard_go.Prelude.Int.{ℤ, pos, negsuc}
use status_keycard_go.Prelude.Dict.{Dict, lookup, insert, erase}
use status_keycard_go.Internal.Errors.{Error}
use status_keycard_go.Internal.Types.{CardInfo}
use status_keycard_go.Pairing.{Store}
use status_keycard_go.Flow.Values.{Value, text, int, boolean, Action, action_text}
use status_keycard_go.Flow.Control.{
  Flow, Called, returned, crashed, blocked, resume, cancel, test_cancelled, pause, go_on, in_state,
  cancelling, resuming,
}
use status_keycard_go.Flow.Keys

-- `cardStatus`; a number that is not known is -1.
pub record CardState : Type 0 where
  pub instance_uid : Text
  pub key_uid : Text
  pub free_slots : ℤ
  pub pin_retries : ℤ
  pub puk_retries : ℤ
  pub version : ℕ

-- The errors of the flows: their own three types, and any other.
pub data Fault : Type 0 where
  restart giveup authenticity : Fault
  error : Error → Fault

-- What the user does at the next pause: `Resume`, or `Cancel` at the pause or just before it.
pub data Answer : Type 0 where
  resumed : Dict Value → Answer
  cancelled cancelled_early : Answer

-- What ends a wait of `connect` for the card. `plugged` comes with what `run` did.
pub data Arrival : Type 0 where
  plugged timer_fired : Arrival
  resumed_there : Dict Value → Arrival
  cancelled_there : Arrival

pub record Session (W : Type 0) : Type 0 where
  pub world : W
  pub flow : Flow Value
  pub card_info : CardState
  pub pairings : Store
  pub known_ca : List Text
  pub app_info : Option CardInfo  -- kc.ApplicationInfo()
  pub paired_at : Option ℕ  -- kc.PairingInfo().Index
  pub answers : List Answer
  pub arrivals : List Arrival

pub data Ended (W A : Type 0) : Type 0 where
  value : A → Session W → Ended W A
  fault : Fault → Session W → Ended W A
  waiting : Session W → Ended W A
  panic exhausted : Ended W A

abbrev pub F : Type 0 → Type 0 → Type 0
F W A = Session W → Ended W A

-- `v, ok := f.params[k]`
abbrev pub found : Text → Option (Dict Value) → Option Value
found k none = none
found k (some m) = lookup k m

abbrev pub without : Text → Option (Dict Value) → Option (Dict Value)
without k none = none
without k (some m) = some (erase k m)

module _ {W : Type 0} where
  unfoldable pub pure : {A : Type 0} → A → F W A
  pure a s = value a s

  unfoldable pub fail : {A : Type 0} → Fault → F W A
  fail e s = fault e s

  unfoldable pub crash : {A : Type 0} → F W A
  crash s = panic

  unfoldable pub gets : {A : Type 0} → (Session W → A) → F W A
  gets f s = value (f s) s

  abbrev pub continue : {A B : Type 0} → Ended W A → (A → F W B) → Ended W B
  continue (value a t) f = f a t
  continue (fault e t) f = fault e t
  continue (waiting t) f = waiting t
  continue panic f = panic
  continue exhausted f = exhausted

  infixl 5 ◌>>=◌ ◌>>◌
  unfoldable pub ◌>>=◌ : {A B : Type 0} → F W A → (A → F W B) → F W B
  (m >>= f) s = continue (m s) f

  abbrev pub ◌>>◌ : {B : Type 0} → F W (Unit {0}) → F W B → F W B
  m >> k = m >>= λ _. k

  -- A call of the card.
  unfoldable pub call : {A : Type 0} → (W → A × W) → F W A
  call f s = let (a, w) = f s.world in value a (record s { world = w })

  unfoldable pub set_card : (CardState → CardState) → F W (Unit {0})
  set_card f s = value tt (record s { card_info = f s.card_info })

  unfoldable pub set_pairings : (Store → Store) → F W (Unit {0})
  set_pairings f s = value tt (record s { pairings = f s.pairings })

  unfoldable pub note_info : Option CardInfo → F W (Unit {0})
  note_info i s = value tt (record s { app_info = i })

  unfoldable pub note_pairing : ℕ → F W (Unit {0})
  note_pairing i s = value tt (record s { paired_at = some i })

  unfoldable pub param : Text → F W (Option Value)
  param k s = value (found k s.flow.params) s

  -- `delete(f.params, k)`
  unfoldable pub delete_param : Text → F W (Unit {0})
  delete_param k s =
      value tt (record s { flow = record s.flow { params = without k s.flow.params } })

  abbrev pub stored : Text → Value → Option (Dict Value) → Session W → Ended W (Unit {0})
  stored k v none s = panic
  stored k v (some m) s =
      value tt (record s { flow = record s.flow { params = some (insert k v m) } })

  -- `f.params[k] = v`, which panics on a nil map.
  unfoldable pub set_param : Text → Value → F W (Unit {0})
  set_param k v s = stored k v s.flow.params s

  -- `v.(string)` and `v.(bool)`
  unfoldable pub as_text : Value → F W Text
  as_text (text t) = pure t
  as_text _ = crash

  unfoldable pub as_bool : Value → F W Bool
  as_bool (boolean b) = pure b
  as_bool _ = crash

  -- `v, ok := f.params[k]; ok && v.(bool)`
  abbrev pub is_set : Option Value → F W Bool
  is_set none = pure false
  is_set (some v) = as_bool v

  unfoldable pub flag : Text → F W Bool
  flag k = param k >>= is_set

-- `x != -1`
abbrev pub is_known : ℤ → Bool
is_known (negsuc zero) = false
is_known _ = true

abbrev pub is_zero : ℤ → Bool
is_zero (pos zero) = true
is_zero _ = false

abbrev pub card_entries : CardState → Dict Value → Dict Value
card_entries c m =
    if is_known c.free_slots
    then insert Keys.free_slots (int c.free_slots)
        (insert Keys.key_uid (text c.key_uid) (insert Keys.instance_uid (text c.instance_uid) m))
    else m

abbrev pub retry_entries : CardState → Dict Value → Dict Value
retry_entries c m =
    if is_known c.pin_retries
    then insert Keys.puk_retries (int c.puk_retries) (insert Keys.pin_retries (int c.pin_retries) m)
    else m

-- The status that `pause` sends.
abbrev pub pause_status : Text → Dict Value → CardState → Dict Value
pause_status message status c =
    retry_entries c (card_entries c (insert Keys.error (text message) status))

module _ {W : Type 0} where
  -- A call of the user, and what the goroutine does then.
  abbrev pub called : Called Value → Session W → F W (Unit {0}) → Ended W (Unit {0})
  called (returned _ g) s k = k (record s { flow = g })
  called crashed s k = panic
  called blocked s k = waiting s

  -- Behind the receive from `wakeUp`.
  unfoldable pub woken : F W (Unit {0})
  woken s =
      if in_state s.flow.state resuming
      then value tt (record s { flow = go_on s.flow })
      else fault giveup (record s { flow = go_on s.flow })

  unfoldable pub answered : List Answer → F W (Unit {0})
  unfolding woken
  answered [] s = waiting s
  answered (resumed d ∷ rest) s = called (resume d s.flow) (record s { answers = rest }) woken
  answered (cancelled ∷ rest) s = called (cancel s.flow) (record s { answers = rest }) woken
  answered (cancelled_early ∷ rest) s = called (cancel s.flow) (record s { answers = rest }) woken

  -- `pauseAndWaitWithStatus`, from its test on.
  unfoldable pub pause_tested : Action → Text → Dict Value → F W (Unit {0})
  unfolding answered
  pause_tested action message status s =
      if in_state s.flow.state cancelling
      then fault giveup (record s { flow = test_cancelled s.flow })
      else answered s.answers (record s {
        flow =
            pause (action_text action) (pause_status message status s.card_info)
              (test_cancelled s.flow);
      })

  unfoldable pub pause_with : List Answer → Action → Text → Dict Value → F W (Unit {0})
  unfolding pause_tested
  pause_with (cancelled_early ∷ rest) action message status s =
      called (cancel s.flow) (record s { answers = rest }) (pause_tested action message status)
  pause_with answers action message status s = pause_tested action message status s

  unfoldable pub pause_and_wait_with_status : Action → Text → Dict Value → F W (Unit {0})
  unfolding pause_with
  pause_and_wait_with_status action message status s = pause_with s.answers action message status s

  unfoldable pub pause_and_wait : Action → Text → F W (Unit {0})
  pause_and_wait action message = pause_and_wait_with_status action message []

  unfoldable pub pause_and_restart : {A : Type 0} → Action → Text → F W A
  pause_and_restart action message = pause_and_wait action message >> fail restart

-- A function that calls itself again in its last line, as a round that says so.
pub data Round (A : Type 0) : Type 0 where
  finished : A → Round A
  again : Round A

module _ {W A : Type 0} where
  abbrev pub next : (F W A) → Round A → F W A
  next rest (finished a) = pure a
  next rest again = rest

  unfoldable pub repeat : ℕ → F W (Round A) → F W A
  unfolding pure
  repeat zero m s = exhausted
  repeat (suc n) m s = continue (m s) (next (repeat n m))

  -- Every round that goes on has used an answer, so this many rounds are enough.
  unfoldable pub ask : F W (Round A) → F W A
  ask m s = repeat (suc (length s.answers)) m s
