-- ===== src/Flow/Opening.antt =====
-- pkg/flow/commands.go: the selection of the card, its initialization, its pairing, and the secure
-- channel.
use status_keycard_go.Prelude.{
  ℕ, Bool, true, false, not, ◌&&◌, ◌||◌, Option, none, some, List, [], ◌∷◌, if◌then◌else◌, Text,
  text_eq,
}
use status_keycard_go.Prelude.Int.{pos}
use status_keycard_go.Hex.{btox}
use status_keycard_go.Internal.Errors.{Error, Result, ok, err, is_scard_error}
use status_keycard_go.Internal.Types.{CardInfo, CardStatus, PairingInfo}
use status_keycard_go.Internal.Convert.{bytes_to_int, contains_string}
use status_keycard_go.Pairing.{Info, Store, FileSystem, store, get, delete, to_pair_info}
use status_keycard_go.Card.{Card}
use status_keycard_go.Context.Connect.{default_pairing}
use status_keycard_go.Keycard.{
  select_applet, identify, pair, open_secure_channel, get_status_application, init,
}
use status_keycard_go.Keycard.Reset.{factory_reset}
use status_keycard_go.Flow.Values.{Value, text, is_text, Action}
use status_keycard_go.Flow.Session.{
  CardState, Fault, Session, Ended, value, panic, F, pure, fail, crash, gets, ◌>>=◌, ◌>>◌, call,
  set_card, set_pairings, note_info, note_pairing, param, delete_param, set_param, as_text, flag,
  is_zero, pause_and_wait, pause_and_restart, Round, finished, again, repeat, ask, found,
}
use status_keycard_go.Flow.Keys
use status_keycard_go.Flow.Messages

unfoldable pub note_selected : CardInfo → CardState → CardState
note_selected i c = record c {
  instance_uid = btox i.instance_uid;
  key_uid = btox i.key_uid;
  free_slots = pos (bytes_to_int i.available_slots);
  version = bytes_to_int i.version;
}

abbrev pub or_default : Option Value → Value
or_default none = text default_pairing
or_default (some v) = v

module _ {W : Type 0} where
  -- `if IsSCardError(err) { return restartErr() }; return err`
  unfoldable pub check_error : Option Error → F W (Unit {0})
  check_error none = pure tt
  check_error (some e) =
      if is_scard_error (some e) then fail Fault.restart else fail (Fault.error e)

  unfoldable pub check_result : {A : Type 0} → Result A → F W A
  check_result (ok a) = pure a
  check_result (err e) =
      if is_scard_error (some e) then fail Fault.restart else fail (Fault.error e)

  -- A call that may panic on a nil pointer.
  unfoldable pub try_call : {A : Type 0} → (W → Option (A × W)) → F W A
  try_call f s = elim (f s.world) [ none ↦ panic | some (a, w) ↦ value a (record s { world = w }) ]

  unfoldable pub requires_keys : Bool → F W (Unit {0})
  requires_keys b = if b then pause_and_restart Action.swap_card Messages.error_no_keys else pure tt

  -- `requireKeys`
  unfoldable pub require_keys : F W (Unit {0})
  unfolding requires_keys
  require_keys = gets (λ s. text_eq s.card_info.key_uid []) >>= requires_keys

  unfoldable pub unless_overwrite : Bool → F W (Unit {0})
  unless_overwrite b =
      if b then pure tt else pause_and_restart Action.swap_card Messages.error_has_keys

  -- `requireNoKeys`
  unfoldable pub require_no_keys : F W (Unit {0})
  unfolding unless_overwrite
  require_no_keys = do
    no_keys ← gets (λ s. text_eq s.card_info.key_uid [])
    if no_keys then pure tt else flag Keys.overwrite >>= unless_overwrite

  -- `if v, ok := f.params[k]; ok && actual != v { pause and restart }`
  unfoldable pub require_uid : Text → Text → Option Value → F W (Unit {0})
  require_uid k actual none = pure tt
  require_uid k actual (some v) =
      if not (is_text actual (some v)) then pause_and_restart Action.swap_card k else pure tt

  unfoldable pub required_uids : F W (Unit {0})
  unfolding require_uid
  required_uids = do
    instance ← gets (λ s. s.card_info.instance_uid)
    param Keys.instance_uid >>= require_uid Keys.instance_uid instance
    uid ← gets (λ s. s.card_info.key_uid)
    param Keys.key_uid >>= require_uid Keys.key_uid uid

  unfoldable pub keycard_selected : Option CardInfo × Option Error → F W (Unit {0})
  unfolding note_selected required_uids
  keycard_selected (_, some e) = fail Fault.restart
  keycard_selected (none, none) = crash
  keycard_selected (some i, none) = do
    note_info (some i)
    set_card (note_selected i)
    if not i.installed
        then pause_and_restart Action.swap_card Messages.error_not_a_keycard
        else required_uids

module _ {W : Type 0} (card : Card W) where
  unfoldable pub reset_done : Option Error → F W (Unit {0})
  reset_done none = delete_param Keys.factory_reset >> fail Fault.restart
  reset_done (some e) = check_error (some e)

  -- `factoryReset`
  unfoldable pub factory_reset_flow : F W (Unit {0})
  unfolding reset_done
  factory_reset_flow = try_call (factory_reset card true) >>= reset_done

  unfoldable pub select_keycard : F W (Unit {0})
  unfolding keycard_selected
  select_keycard = call (select_applet card) >>= keycard_selected

  unfoldable pub init_with : Value → Value → Value → F W (Round (Unit {0}))
  init_with new_pin new_puk new_pairing = do
    pin ← as_text new_pin
    puk ← as_text new_puk
    pairing ← as_text new_pairing
    e ← call (init card pin puk pairing)
    check_error e
    set_param Keys.pin new_pin
    set_param Keys.pairing_pass new_pairing
    delete_param Keys.new_pin
    delete_param Keys.new_puk
    delete_param Keys.new_pairing
    fail Fault.restart

  unfoldable pub with_new_puk : Value → Option Value → F W (Round (Unit {0}))
  unfolding init_with
  with_new_puk new_pin none =
      pause_and_wait Action.enter_new_puk Messages.error_require_init >> pure again
  with_new_puk new_pin (some new_puk) =
      param Keys.new_pairing >>= λ p. init_with new_pin new_puk (or_default p)

  unfoldable pub with_new_pin : Option Value → F W (Round (Unit {0}))
  unfolding with_new_puk
  with_new_pin none = pause_and_wait Action.enter_new_pin Messages.error_require_init >> pure again
  with_new_pin (some new_pin) = param Keys.new_puk >>= with_new_puk new_pin

  -- `initCard`
  unfoldable pub init_card : F W (Unit {0})
  unfolding with_new_pin
  init_card = ask (param Keys.new_pin >>= with_new_pin)

  unfoldable pub identified : Result Text → F W (Unit {0})
  identified (err e) = fail Fault.authenticity
  identified (ok ca) = do
    known ← gets (λ s. contains_string ca s.known_ca)
    if known then pure tt else fail Fault.authenticity

  abbrev pub is_empty : {A : Type 0} → List A → Bool
  is_empty [] = true
  is_empty (_ ∷ _) = false

  abbrev pub skips_identity : Session W → Bool
  skips_identity s =
      is_empty s.known_ca
      || is_text s.card_info.instance_uid (found Keys.skip_auth_uid s.flow.params)

  unfoldable pub verify_authenticity : F W (Unit {0})
  unfolding identified
  verify_authenticity = do
    skip ← gets skips_identity
    if skip then pure tt else call (identify card) >>= identified

module _ {W : Type 0} (card : Card W) (fs : FileSystem W) where
  abbrev pub saved : Option ((Option Error × W) × Store) → Session W → Ended W (Option Error)
  saved none s = panic
  saved (some ((e, w), p)) s = value e (record s { world = w; pairings = p })

  unfoldable pub store_pairing : Info → F W (Option Error)
  store_pairing i s = saved (store fs s.card_info.instance_uid i s.pairings s.world) s

  unfoldable pub stored_or_failed : Option Error → F W (Round (Unit {0}))
  stored_or_failed none = pure (finished tt)
  stored_or_failed (some e) = fail (Fault.error e)

  unfoldable pub paired : Result PairingInfo → F W (Round (Unit {0}))
  unfolding stored_or_failed store_pairing
  paired (ok i) = do note_pairing i.index; e ← store_pairing (to_pair_info i); stored_or_failed e
  paired (err e) = if is_scard_error (some e) then fail Fault.restart else (do
    delete_param Keys.pairing_pass
    pause_and_wait Action.enter_pairing Messages.error_pairing
    pure again)

  unfoldable pub pair_round : F W (Round (Unit {0}))
  unfolding paired
  pair_round = do
    no_slot ← gets (λ s. is_zero s.card_info.free_slots)
    if no_slot then pause_and_restart Action.swap_card Keys.free_slots else (do
      p ← param Keys.pairing_pass
      pass ← as_text (or_default p)
      r ← call (pair card pass)
      paired r)

  -- `pair`
  unfoldable pub pair_card : F W (Unit {0})
  unfolding pair_round
  pair_card = ask pair_round

  unfoldable pub note_retries : Option CardStatus → F W (Unit {0})
  note_retries none = crash
  note_retries (some t) =
      set_card
        (λ c. record c { pin_retries = pos t.pin_retry_count; puk_retries = pos t.puk_retry_count })

  unfoldable pub status_read : Result (Option CardStatus) → F W (Unit {0})
  unfolding note_retries
  status_read (err e) = fail Fault.restart
  status_read (ok t) = note_retries t

  -- `openSC` behind the attempt with a known pairing.
  unfoldable pub pair_again : Bool → F W (Round (Unit {0}))
  pair_again giveup = do
    verify_authenticity card
    if giveup then fail Fault.giveup else (pair_card >> pure again)

  unfoldable pub channel_opened : Bool → Option Error → F W (Round (Unit {0}))
  unfolding status_read pair_again
  channel_opened giveup none = do
    r ← call (get_status_application card)
    status_read r
    pure (finished tt)
  channel_opened giveup (some e) = if is_scard_error (some e) then fail Fault.restart else (do
    uid ← gets (λ s. s.card_info.instance_uid)
    set_pairings (delete uid)
    pair_again giveup)

  unfoldable pub with_pairing : Bool → Option Info → F W (Round (Unit {0}))
  unfolding channel_opened pair_again
  with_pairing giveup none = pair_again giveup
  with_pairing giveup (some p) = do
    note_pairing p.index
    e ← call (open_secure_channel card p.index p.key)
    channel_opened giveup e

  unfoldable pub with_app_info : Bool → Option CardInfo → F W (Round (Unit {0}))
  unfolding with_pairing
  with_app_info giveup none = crash
  with_app_info giveup (some i) =
      if not i.initialized && not giveup
      then (init_card card >> pure (finished tt))
      else gets (λ s. get s.card_info.instance_uid s.pairings) >>= with_pairing giveup

  unfoldable pub open_round : Bool → F W (Round (Unit {0}))
  unfolding with_app_info
  open_round giveup = gets (λ s. s.app_info) >>= with_app_info giveup

  -- `openSC`; each round but the last has paired the card again.
  unfoldable pub open_sc : ℕ → Bool → F W (Unit {0})
  unfolding open_round
  open_sc rounds giveup = repeat rounds (open_round giveup)
