-- ===== src/Mocked/Changes.antt =====
-- pkg/flow/mocked: the handlers of the changes of PIN and PUK.
use status_keycard_go.Prelude.{Bool, ◌&&◌, ◌||◌, [], if◌then◌else◌, Text, text_eq, ◌==◌}
use status_keycard_go.Flow.Values.{swap_card, enter_new_pin, enter_new_puk}
use status_keycard_go.Flow.Authentication.{max_pin_retries, max_puk_retries}
use status_keycard_go.Flow.Keys
use status_keycard_go.Flow.Messages
use status_keycard_go.Mocked.Cards.{is_blank, Keycard}
use status_keycard_go.Mocked.Machine.{
  M, pure, ◌>>=◌, ◌>>◌, inserted, put_inserted, string_param, bool_param, ask, send_result, finish,
}
use status_keycard_go.Mocked.Credentials.{
  FlowStatus, with_error, with_slots, identity, is_fresh, is_pin, is_puk, Entered, Tried,
  try_credentials, knows_pin, knows_puk, renewed, with_tried_error, read_entered, swap_foreign,
  ask_again, authenticated,
}

-- `overwrite && enteredPIN is a PIN && enteredPIN == enteredNewPIN`, or the PUK
unfoldable pub may_set_pin : Bool → Entered → Keycard → Bool
unfolding knows_puk
may_set_pin overwrite e c = (overwrite && is_pin e.pin && text_eq e.pin e.new_pin) || knows_puk e c

module _ {W : Type 0} where
  -- The tests that the changes of PIN and PUK begin with; `k` is the rest.
  unfoldable pub on_paired_card : (Keycard → M W (Unit {0})) → M W (Unit {0})
  unfolding swap_foreign
  on_paired_card k = do
    c ← inserted
    if c.not_status_keycard
        then swap_foreign
        else if is_fresh c
        then ask enter_new_pin
            (with_slots c.free_pairing_slots (with_error Messages.error_require_init (identity c)))
        else if c.free_pairing_slots == 0
        then ask swap_card
            (with_slots c.free_pairing_slots (with_error Keys.free_slots (identity c)))
        else k c

  -- The end of `handleChangePinFlow` when the PIN was entered and no new one yet.
  unfoldable pub ask_new_pin : FlowStatus → Entered → Tried → M W (Unit {0})
  ask_new_pin status e t =
      if knows_pin e t.card
      then (put_inserted (renewed e t.card)
          >> ask_again enter_new_pin (with_error Messages.error_changing status))
      else ask_again t.final_type status

  -- Its end when a new PIN was entered; the state stays as it is when the PIN is changed.
  unfoldable pub set_new_pin : FlowStatus → Bool → Entered → Tried → M W (Unit {0})
  set_new_pin status overwrite e t =
      if may_set_pin overwrite e t.card
      then (put_inserted (renewed e t.card) >> send_result status)
      else ask_again t.final_type status

  unfoldable pub change_pin_of : Keycard → M W (Unit {0})
  change_pin_of c = do
    e ← read_entered
    overwrite ← bool_param Keys.overwrite
    c ← inserted
    let t = try_credentials e c
    put_inserted t.card
    if is_blank e.new_pin
        then ask_new_pin (with_tried_error t.error (identity c)) e t
        else set_new_pin (with_tried_error t.error (identity c)) overwrite e t

  -- `handleChangePinFlow`
  unfoldable pub handle_change_pin : M W (Unit {0})
  unfolding on_paired_card change_pin_of
  handle_change_pin = on_paired_card change_pin_of

  -- `PinRetries = ...; PukRetries = ...; Puk = enteredPUK`
  unfoldable pub set_new_puk : FlowStatus → Entered → Keycard → M W (Unit {0})
  set_new_puk status e c = do
    put_inserted
        (record c { pin_retries = max_pin_retries; puk_retries = max_puk_retries; puk = e.puk })
    finish (with_error [] status)

  -- The end of `handleChangePukFlow` when the card is unlocked.
  unfoldable pub deliver_puk : FlowStatus → Text × Bool → Entered → Tried → M W (Unit {0})
  unfolding set_new_puk ask_again
  deliver_puk status (new_puk, overwrite) e t =
      if is_blank new_puk
      then (put_inserted (renewed e t.card)
          >> ask_again enter_new_puk
              (with_error Messages.error_changing (with_tried_error t.error status)))
      else if overwrite && is_puk e.puk && text_eq e.puk new_puk
      then set_new_puk (with_tried_error t.error status) e t.card
      else ask_again t.final_type (with_tried_error t.error status)

  unfoldable pub puk_flags : M W (Text × Bool)
  puk_flags = do
    new_puk ← string_param Keys.new_puk
    overwrite ← bool_param Keys.overwrite
    pure (new_puk, overwrite)

  unfoldable pub change_puk_of : Keycard → M W (Unit {0})
  unfolding puk_flags deliver_puk
  change_puk_of c = authenticated puk_flags (deliver_puk (identity c)) (identity c)

  -- `handleChangePukFlow`
  unfoldable pub handle_change_puk : M W (Unit {0})
  unfolding on_paired_card change_puk_of
  handle_change_puk = on_paired_card change_puk_of
