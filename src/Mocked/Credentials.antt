-- ===== src/Mocked/Credentials.antt =====
-- pkg/flow/mocked: the entries of a status, and the tests of PIN and PUK. Six handlers hold the
-- same text for these tests, which stands here once: those of login, of the recovery of an account,
-- of the export of keys, of the changes of PIN and PUK, and of the metadata.
use status_keycard_go.Prelude.{
  ℕ, ◌-◌, Bool, not, ◌&&◌, ◌||◌, Option, none, some, [], ◌∷◌, if◌then◌else◌, ◌==◌, ltb, length,
  Text, text_eq,
}
use status_keycard_go.Prelude.Int.{pos}
use status_keycard_go.Prelude.Dict.{Dict, insert}
use status_keycard_go.Flow.Authentication.{max_pin_retries, max_puk_retries}
use status_keycard_go.Flow.Values.{Value, text, int, Action, swap_card, enter_pin, enter_puk}
use status_keycard_go.Flow.Values.{enter_new_pin}
use status_keycard_go.Flow.Keys
use status_keycard_go.Flow.Messages
use status_keycard_go.Mocked.Cards.{is_blank, Keycard, def_pin_len, def_puk_len}
use status_keycard_go.Mocked.Machine.{
  M, pure, ◌>>=◌, ◌>>◌, inserted, put_inserted, string_param, ask,
}

abbrev pub FlowStatus : Type 0
FlowStatus = Dict Value

abbrev pub number : ℕ → Value
number n = int (pos n)

-- `flowStatus[internal.ErrorKey] = message`
abbrev pub with_error : Text → FlowStatus → FlowStatus
with_error message status = insert Keys.error (text message) status

abbrev pub with_slots : ℕ → FlowStatus → FlowStatus
with_slots n status = insert Keys.free_slots (number n) status

-- The status with which the handlers start.
abbrev pub identity : Keycard → FlowStatus
identity c = (Keys.instance_uid, text c.instance_uid) ∷ (Keys.key_uid, text c.key_uid) ∷ []

-- The three entries before a pause at the end of a handler.
abbrev pub with_counters : Keycard → FlowStatus → FlowStatus
with_counters c status =
    insert Keys.puk_retries (number c.puk_retries)
      (insert Keys.pin_retries (number c.pin_retries) (with_slots c.free_pairing_slots status))

-- `InstanceUID == "" || KeyUID == ""`
abbrev pub lacks_keys : Keycard → Bool
lacks_keys c = is_blank c.instance_uid || is_blank c.key_uid

-- `InstanceUID == "" && KeyUID == ""`
abbrev pub is_fresh : Keycard → Bool
is_fresh c = is_blank c.instance_uid && is_blank c.key_uid

pub record Entered : Type 0 where
  pub pin : Text
  pub new_pin : Text
  pub puk : Text

abbrev pub is_pin : Text → Bool
is_pin t = length t == def_pin_len

abbrev pub is_puk : Text → Bool
is_puk t = length t == def_puk_len

-- What the tests leave: the card, the signal to be sent, and the error, if it is set.
pub record Tried : Type 0 where
  pub card : Keycard
  pub final_type : Action
  pub error : Option Text

abbrev pub tried : Keycard → Action → Option Text → Tried
tried c a e = record { card = c; final_type = a; error = e }

-- Behind a PUK of the right length and a new PIN that was entered twice.
unfoldable pub try_puk : Entered → Keycard → Tried
try_puk e c =
    if not (text_eq e.puk c.puk)
    then if c.puk_retries - 1 == 0
      then tried (record c { puk_retries = c.puk_retries - 1 }) swap_card (some Keys.puk_retries)
      else tried (record c { puk_retries = c.puk_retries - 1 }) enter_puk (some Keys.puk)
    else tried c enter_pin none

-- With no attempts left for the PIN.
unfoldable pub try_unblock : Entered → Keycard → Tried
unfolding try_puk
try_unblock e c =
    if is_puk e.puk
    then if is_pin e.pin && text_eq e.pin e.new_pin
      then try_puk e c
      else tried c enter_new_pin (some Messages.error_unblocking)
    else tried c enter_puk (some [])

-- With attempts left for the PIN.
unfoldable pub try_pin : Entered → Keycard → Tried
try_pin e c =
    if is_blank e.new_pin && is_pin e.pin && not (text_eq e.pin c.pin)
    then if c.pin_retries - 1 == 0
      then tried (record c { pin_retries = c.pin_retries - 1 }) enter_puk (some [])
      else tried (record c { pin_retries = c.pin_retries - 1 }) enter_pin (some Keys.pin)
    else tried c enter_pin none

unfoldable pub try_credentials : Entered → Keycard → Tried
unfolding try_unblock try_pin
try_credentials e c =
    if c.puk_retries == 0
    then tried c swap_card (some Keys.puk_retries)
    else if c.pin_retries == 0
    then try_unblock e c
    else try_pin e c

unfoldable pub knows_pin : Entered → Keycard → Bool
knows_pin e c = ltb 0 c.pin_retries && is_pin e.pin && text_eq e.pin c.pin

unfoldable pub knows_puk : Entered → Keycard → Bool
knows_puk e c =
    c.pin_retries == 0
    && ltb 0 c.puk_retries
    && is_puk e.puk
    && text_eq e.puk c.puk
    && is_pin e.pin
    && text_eq e.pin e.new_pin

-- The test behind which a handler does its work, on the card that the tests have left.
unfoldable pub unlocks : Entered → Keycard → Bool
unfolding knows_pin knows_puk
unlocks e c = knows_pin e c || knows_puk e c

-- `PinRetries = MaxPINRetries; PukRetries = MaxPUKRetries; Pin = enteredPIN`
unfoldable pub renewed : Entered → Keycard → Keycard
renewed e c = record c { pin_retries = max_pin_retries; puk_retries = max_puk_retries; pin = e.pin }

abbrev pub with_tried_error : Option Text → FlowStatus → FlowStatus
with_tried_error none status = status
with_tried_error (some e) status = with_error e status

module _ {W : Type 0} where
  unfoldable pub read_entered : M W Entered
  read_entered = do
    pin ← string_param Keys.pin
    new_pin ← string_param Keys.new_pin
    puk ← string_param Keys.puk
    pure (record { pin = pin; new_pin = new_pin; puk = puk })

  -- The start of each handler, on a card that is not one of Status.
  unfoldable pub swap_foreign : M W (Unit {0})
  swap_foreign = ask swap_card (
      (Keys.error, text Messages.error_not_a_keycard)
      ∷ (Keys.instance_uid, text [])
      ∷ (Keys.key_uid, text [])
      ∷ (Keys.free_slots, number 0)
      ∷ [])

  -- On a card without keys.
  unfoldable pub swap_empty : FlowStatus → M W (Unit {0})
  swap_empty status = ask swap_card (with_slots 0 (with_error Messages.error_no_keys status))

  -- The end of a handler that asks again.
  unfoldable pub ask_again : Action → FlowStatus → M W (Unit {0})
  ask_again final_type status = do c ← inserted; ask final_type (with_counters c status)

  -- The tests, and then the work of the handler if they have unlocked the card. `flags` reads the
  -- parameters that the handler has besides.
  unfoldable pub authenticated :
      {A : Type 0} → M W A → (A → Entered → Tried → M W (Unit {0})) → FlowStatus → M W (Unit {0})
  authenticated flags deliver status = do
    e ← read_entered
    a ← flags
    c ← inserted
    let t = try_credentials e c
    put_inserted t.card
    if unlocks e t.card
        then deliver a e t
        else ask_again t.final_type (with_tried_error t.error status)
