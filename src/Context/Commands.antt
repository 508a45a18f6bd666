-- ===== src/Context/Commands.antt =====
-- The methods that a client calls once a card is connected.
use status_keycard_go.Prelude.{
  ℕ, Bool, true, false, not, Option, none, some, List, [], if◌then◌else◌, Text, Bytes,
}
use status_keycard_go.Prelude.Int.{ℤ, quot}
use status_keycard_go.Internal.Errors.{
  Error, Result, ok, err, own, not_connected, not_blocked, is_wrong_pin,
}
use status_keycard_go.Internal.Types.{ApplicationInfoV2, ApplicationStatus}
use status_keycard_go.Internal.Status.{Status, blocked_pin}
use status_keycard_go.Card.{Card}
use status_keycard_go.Context.Machine.{
  Context, M, pure, ◌>>=◌, ◌>>◌, update_status, crash, command, with_mutex, force_scan,
  publish_status,
}
use status_keycard_go.Context.Base.{
  guarded, state_is, keycard_connected, keycard_initialized, keycard_ready, keycard_authorized,
  reset_card_connection, check_scard_error, on_authorize_interactions,
}

unfoldable pub get_status : {W : Type 0} → Context W → Status
get_status c = c.status

module _ {W : Type 0} (card : Card W) where
  unfoldable pub after_init : Option Error → M W (Option Error)
  after_init (some e) = check_scard_error card (some e)
  after_init none = do reset_card_connection card; force_scan; pure none

  unfoldable pub initialize : Text → Text → Text → M W (Option Error)
  unfolding after_init
  initialize pin puk pairing_password c =
      if not (keycard_connected c)
      then pure (some (own not_connected)) c
      else with_mutex (command (card.init pin puk pairing_password) >>= after_init) c

  -- A wrong PIN is no error.
  unfoldable pub after_verify : Option Error → M W (Option Error × Bool)
  after_verify none c = pure (none, true) c
  after_verify (some e) c =
      if is_wrong_pin e
      then pure (none, false) c
      else (check_scard_error card (some e) >>= λ r. pure (r, false)) c

  unfoldable pub verify_ready : Text → M W (Option Error × Bool)
  unfolding after_verify
  verify_ready pin = do
    r ← with_mutex (command (card.verify_pin pin) >>= after_verify)
    on_authorize_interactions card r.1
    pure r

  unfoldable pub verify_pin : Text → M W (Option Error × Bool)
  unfolding verify_ready
  verify_pin pin = guarded keycard_ready (λ e. (some e, false)) (verify_ready pin)

  -- The body that `ChangePIN` and `ChangePUK` share.
  unfoldable pub change_with : (W → Option Error × W) → M W (Option Error)
  change_with change = do
    r ← with_mutex (command change >>= check_scard_error card)
    on_authorize_interactions card false
    pure r

  unfoldable pub change_pin : Text → M W (Option Error)
  unfolding change_with
  change_pin pin = guarded keycard_authorized some (change_with (card.change_pin pin))

  unfoldable pub change_puk : Text → M W (Option Error)
  unfolding change_with
  change_puk puk = guarded keycard_authorized some (change_with (card.change_puk puk))

  abbrev pub is_nil : Option Error → Bool
  is_nil none = true
  is_nil (some _) = false

  unfoldable pub unblock_blocked : Text → Text → M W (Option Error)
  unblock_blocked puk new_pin = do
    r ← with_mutex (command (card.unblock_pin puk new_pin) >>= check_scard_error card)
    on_authorize_interactions card (is_nil r)
    pure r

  unfoldable pub if_blocked : Text → Text → M W (Option Error)
  unfolding unblock_blocked
  if_blocked puk new_pin c =
      if not (state_is c.status.state blocked_pin)
      then pure (some (own not_blocked)) c
      else unblock_blocked puk new_pin c

  unfoldable pub unblock_pin : Text → Text → M W (Option Error)
  unfolding if_blocked
  unblock_pin puk new_pin = guarded keycard_initialized some (if_blocked puk new_pin)

  unfoldable pub after_generate : List ℕ × Option Error → M W (List ℕ × Option Error)
  after_generate (indexes, e) = check_scard_error card e >>= λ r. pure (indexes, r)

  unfoldable pub generate_mnemonic : ℤ → M W (List ℕ × Option Error)
  unfolding after_generate
  generate_mnemonic mnemonic_length =
      guarded keycard_ready (λ e. ([], some e))
        (with_mutex (command (card.generate_mnemonic (quot mnemonic_length 3)) >>= after_generate))

  -- The key UID, and the error of `loadSeed`, which the deferred function tests.
  unfoldable pub after_load : Result Bytes → M W (Bytes × Option Error)
  after_load (ok uid) = pure (uid, none)
  after_load (err e) = check_scard_error card (some e) >>= λ r. pure ([], r)

  unfoldable pub with_key_uid : Bytes → ApplicationInfoV2 → ApplicationStatus → Status → Status
  with_key_uid uid i a s = record s {
    app_info = some (record i { key_uid = uid });
    app_status = some (record a { key_initialized = true });
  }

  -- It writes through the pointers `AppInfo` and `AppStatus`.
  unfoldable pub note_key : Bytes → M W (Unit {0})
  unfolding with_key_uid
  note_key uid c = elim c.status.app_info [
    | none ↦ crash c
    | some i ↦ elim c.status.app_status [
      | none ↦ crash c
      | some a ↦ (update_status (with_key_uid uid i a) >> publish_status) c
    ]
  ]

  unfoldable pub after_seed : Bytes × Option Error → M W (Bytes × Option Error)
  unfolding note_key
  after_seed (uid, none) = note_key uid >> pure (uid, none)
  after_seed (uid, some e) = pure (uid, some e)

  unfoldable pub load_ready : Text → Text → M W (Bytes × Option Error)
  unfolding after_load after_seed
  load_ready mnemonic password =
      with_mutex (command (card.load_seed (card.binary_seed mnemonic password)) >>= after_load)
      >>= after_seed

  unfoldable pub load_mnemonic : Text → Text → M W (Bytes × Option Error)
  unfolding load_ready
  load_mnemonic mnemonic password =
      guarded keycard_authorized (λ e. ([], some e)) (load_ready mnemonic password)
