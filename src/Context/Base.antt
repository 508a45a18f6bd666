-- ===== src/Context/Base.antt =====
-- The guards of the methods, the connection, and what the methods share.
use status_keycard_go.Prelude.{
  true, false, Bool, false, not, ◌&&◌, Option, none, some, [], ◌==◌, if◌then◌else◌,
}
use status_keycard_go.Internal.Errors.{
  Error, own, not_connected, not_initialized, not_ready, not_authorized, no_keys, Simulated,
  simulated, card_connect, is_simulated, is_scard_error, is_file_not_found, same_simulated,
}
use status_keycard_go.Internal.Types.{CardInfo, CardStatus, ApplicationInfoV2}
use status_keycard_go.Internal.Convert.{to_app_info_v2, to_app_status}
use status_keycard_go.Internal.Status.{
  State, State-discrete, connection_error, empty_keycard, ready, authorized, blocked_pin,
  blocked_puk,
}
use status_keycard_go.Card.{Card}
use status_keycard_go.Context.Machine.{
  Context, M, done, pure, ◌>>=◌, ◌>>◌, update_status, set_state, crash, command, with_mutex,
  force_scan, publish_status,
}

-- `kc.status.State == s`
abbrev pub state_is : State → State → Bool
state_is s t = elim (State-discrete s t) [ yes _ ↦ true | no _ ↦ false ]

module _ {W : Type 0} where
  unfoldable pub keycard_connected : Context W → Bool
  keycard_connected c = c.connected

  unfoldable pub keycard_initialized : Context W → Option Error
  unfolding keycard_connected
  keycard_initialized c =
      if not (keycard_connected c)
      then some (own not_connected)
      else if state_is c.status.state empty_keycard
      then some (own not_initialized)
      else none

  unfoldable pub keycard_ready : Context W → Option Error
  unfolding keycard_initialized
  keycard_ready c = elim (keycard_initialized c) [
    | some e ↦ some e
    | none ↦
        if not (state_is c.status.state ready) && not (state_is c.status.state authorized)
        then some (own not_ready)
        else none
  ]

  unfoldable pub keycard_authorized : Context W → Option Error
  unfolding keycard_initialized
  keycard_authorized c = elim (keycard_initialized c) [
    | some e ↦ some e
    | none ↦ if not (state_is c.status.state authorized) then some (own not_authorized) else none
  ]

  -- It reads through the pointer `AppStatus`.
  unfoldable pub keycard_has_keys : M W (Option Error)
  keycard_has_keys c = elim c.status.app_status [
    | none ↦ crash c
    | some s ↦ pure (if s.key_initialized then none else some (own no_keys)) c
  ]

-- What `KeycardContext.SelectApplet` makes of the answer of `cmdSet.Select()`: a card without
-- the applet gives an empty `ApplicationInfo`.
abbrev pub no_applet : CardInfo
no_applet = record {
  installed = false;
  initialized = false;
  instance_uid = [];
  version = [];
  available_slots = [];
  key_uid = [];
  can_factory_reset = false;
}

abbrev pub selected : Option CardInfo × Option Error → Option CardInfo × Option Error
selected (info, none) = (info, none)
selected (info, some e) = if is_file_not_found e then (some no_applet, none) else (none, some e)

abbrev pub converted : Option CardInfo × Option Error → Option ApplicationInfoV2 × Option Error
converted (info, none) = (to_app_info_v2 info, none)
converted (info, some e) = (none, some e)

-- The state that an answer of `GetStatusApplication` without an error leads to.
unfoldable pub state_of : Option CardStatus → State
state_of none = ready
state_of (some s) =
    if s.puk_retry_count == 0
    then blocked_puk
    else if s.pin_retry_count == 0
    then blocked_pin
    else ready

unfoldable pub promote : Bool → State → State
promote is_authorized s = if state_is s ready && is_authorized then authorized else s

-- A guard that returns early with its error.
abbrev pub guarded : {W A : Type 0} → (Context W → Option Error) → (Error → A) → M W A → M W A
guarded test fail m c = elim (test c) [ some e ↦ pure (fail e) c | none ↦ m c ]

module _ {W : Type 0} (card : Card W) where
  -- `card.Disconnect`, if there is a card; its error is only logged.
  unfoldable pub disconnected : Context W → W
  disconnected c = if c.has_card then (card.disconnect c.world).1 else c.world

  unfoldable pub reset_card_connection : M W (Unit {0})
  reset_card_connection c =
      done tt (record c { world = disconnected c; has_card = false; connected = false })

  -- `kc.simulateError(err, target)`
  unfoldable pub simulate_error : Option Error → Simulated → M W (Option Error)
  simulate_error current target c =
      if not (is_simulated c.simulated_error target)
      then pure current c
      else if same_simulated target card_connect
      then (reset_card_connection >> pure (some (simulated target))) c
      else pure (some (simulated target)) c

  unfoldable pub check_scard_error : Option Error → M W (Option Error)
  check_scard_error e c =
      if is_scard_error e then (do reset_card_connection; force_scan; pure e) c else pure e c

  unfoldable pub select_applet_v1 : M W (Option CardInfo × Option Error)
  select_applet_v1 = do r ← command card.select; pure (selected r)

  unfoldable pub select_applet : M W (Option ApplicationInfoV2 × Option Error)
  unfolding select_applet_v1
  select_applet = with_mutex (do r ← select_applet_v1; pure (converted r))

  unfoldable pub take_status : Option CardStatus × Option Error → M W (Option Error)
  unfolding state_of
  take_status (s, some e) = do
    update_status (λ t. record t { app_status = to_app_status s })
    set_state connection_error
    pure (some e)
  take_status (s, none) = do
    update_status (λ t. record t { app_status = to_app_status s })
    set_state (state_of s)
    pure none

  unfoldable pub update_application_status : M W (Option Error)
  unfolding take_status
  update_application_status =
      guarded keycard_initialized some
        (with_mutex (command card.get_status_application >>= take_status))

  -- An error of the update is only logged.
  unfoldable pub on_authorize_interactions : Bool → M W (Unit {0})
  unfolding promote
  on_authorize_interactions is_authorized = do
    _ ← update_application_status
    update_status (λ s. record s { state = promote is_authorized s.state })
    publish_status
