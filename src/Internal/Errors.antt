-- ===== src/Internal/Errors.antt =====
-- Go's `error` values, with the tests of internal/utils.go on them and the simulated errors of
-- internal/keycard_context_v2_state.go. A nil error is `none`.
use status_keycard_go.Prelude.{
  ℕ, ◌++◌, Bool, true, false, ◌≡◌, refl, Option, none, some, [], ◌∷◌, arith, Text, codes, text_eq,
  text_eq_iff, ◌==◌,
}
use status_keycard_go.Prelude.Dict.{Dict, lookup}

-- What the program can tell of an error that a library returned.
pub data Kind : Type 0 where
  scard : ℕ → Kind  -- scard.Error
  wrong_pin wrong_puk : ℕ → Kind  -- with the attempts that are left
  bad_response : ℕ → Kind  -- apdu.ErrBadResponse, with its status word
  no_pairing_slots eof other : Kind

pub data Simulated : Type 0 where
  no_pcsc list_readers get_status_change card_connect select_applet open_secure_channel : Simulated

pub Simulated-discrete : Discrete Simulated
Simulated-discrete = hlevel

-- The errors that the program itself makes, by the variable or the literal of the source.
pub data Own : Type 0 where
  not_connected not_initialized not_ready not_authorized not_blocked no_keys : Own
  unknown_simulation pcsc not_started already_started key_generated : Own
  message : Text → Own  -- `errors.New` of another text
  path_outside : Text → Own  -- of a path that is not below the wallet root

-- What was being done, in the text of `errors.Wrap`.
pub data Doing : Type 0 where
  create_store connecting_card selecting_applet pairing_card storing_pairing : Doing
  opening_channel getting_status getting_metadata parsing_metadata parsing_path : Doing
  creating_metadata unmarshalling_key converting_key : Doing

pub data Error : Type 0 where
  foreign : Kind → Text → Error  -- from a library
  simulated : Simulated → Error
  own : Own → Error
  wrap : Doing → Error → Error

-- A value or an error, for the calls that return a nil value with each error.
pub data Result (A : Type 0) : Type 0 where
  ok : A → Result A
  err : Error → Result A

-- The text of each simulated error.
abbrev pub simulated_text : Simulated → Text
simulated_text no_pcsc = codes "simulated-no-pcsc"
simulated_text list_readers = codes "simulated-list-readers-error"
simulated_text get_status_change = codes "simulated-get-status-change-error"
simulated_text card_connect = codes "simulated-card-connect-error"
simulated_text select_applet = codes "simulated-select-applet-error"
simulated_text open_secure_channel = codes "simulated-open-secure-channel-error"

unfoldable pub own_text : Own → Text
own_text not_connected = codes "keycard not connected"
own_text not_initialized = codes "keycard not initialized"
own_text not_ready = codes "keycard not ready"
own_text not_authorized = codes "keycard not authorized"
own_text not_blocked = codes "keycard not blocked"
own_text no_keys = codes "keycard has not keys"
own_text unknown_simulation = codes "unknown error to simulate"
own_text pcsc = codes "no-pcsc"
own_text key_generated = codes "key already generated"
own_text not_started = codes "keycard service not started"
own_text already_started = codes "keycard service already started"
own_text (message t) = t
own_text (path_outside p) =
    codes "path '" ++ (p ++ codes "' does not start with wallet path 'm/44'/60'/0'/0'")

doing_text : Doing → Text
doing_text create_store = codes "failed to create pairing store"
doing_text connecting_card = codes "failed to connect to card"
doing_text selecting_applet = codes "failed to select applet"
doing_text pairing_card = codes "failed to pair keycard"
doing_text storing_pairing = codes "failed to store pairing"
doing_text opening_channel = codes "failed to open secure channel"
doing_text getting_status = codes "failed to get application status"
doing_text getting_metadata = codes "failed to get metadata"
doing_text parsing_metadata = codes "failed to parse metadata"
doing_text parsing_path = codes "failed to parse path"
doing_text creating_metadata = codes "failed to create metadata"
doing_text unmarshalling_key = codes "failed to unmarshal public key"
doing_text converting_key = codes "failed to convert key to address"

-- `err.Error()`
unfoldable pub error_text : Error → Text
unfolding own_text doing_text
error_text (foreign _ t) = t
error_text (simulated s) = simulated_text s
error_text (own o) = own_text o
error_text (wrap d e) = doing_text d ++ (codes ": " ++ error_text e)

-- The map that `GetSimulatedError` builds.
abbrev entry : Simulated → Text × Simulated
entry s = (simulated_text s, s)

simulated_errors : Dict Simulated
simulated_errors =
    entry no_pcsc
    ∷ entry list_readers
    ∷ entry get_status_change
    ∷ entry card_connect
    ∷ entry select_applet
    ∷ entry open_secure_channel
    ∷ []

unfoldable pub get_simulated_error : Text → Option Simulated
unfolding simulated_errors lookup
get_simulated_error text = lookup text simulated_errors

-- GetSimulatedError finds every simulated error by its text.
pub get_simulated_error-simulated_text :
    (s : Simulated) → get_simulated_error (simulated_text s) ≡ some s
unfolding get_simulated_error text_eq
get_simulated_error-simulated_text no_pcsc = refl
get_simulated_error-simulated_text list_readers = refl
get_simulated_error-simulated_text get_status_change = refl
get_simulated_error-simulated_text card_connect = refl
get_simulated_error-simulated_text select_applet = refl
get_simulated_error-simulated_text open_secure_channel = refl

-- What GetSimulatedError finds under a text is a simulated error with that text.
pub get_simulated_error_sound :
    (t : Text) (s : Simulated) → get_simulated_error t ≡ some s → t ≡ simulated_text s
unfolding get_simulated_error
get_simulated_error_sound t s h = ground (
  arith,
  text_eq_iff (simulated_text no_pcsc) t,
  text_eq_iff (simulated_text list_readers) t,
  text_eq_iff (simulated_text get_status_change) t,
  text_eq_iff (simulated_text card_connect) t,
  text_eq_iff (simulated_text select_applet) t,
  text_eq_iff (simulated_text open_secure_channel) t,
)

abbrev pub same_simulated : Simulated → Simulated → Bool
same_simulated s t = elim (Simulated-discrete s t) [ yes _ ↦ true | no _ ↦ false ]

-- `errors.Is` compares by identity and looks under wrappers.
is_simulated_error : Error → Simulated → Bool
is_simulated_error (simulated t) s = same_simulated t s
is_simulated_error (wrap _ e) s = is_simulated_error e s
is_simulated_error _ s = false

-- `errors.Is(err, target)` for a simulated target
unfoldable pub is_simulated : Option Error → Simulated → Bool
unfolding is_simulated_error
is_simulated none s = false
is_simulated (some e) s = is_simulated_error e s

-- `err.(scard.Error)`: a type assertion does not look under a wrapper.
unfoldable pub is_scard_error : Option Error → Bool
is_scard_error (some (foreign (scard _) _)) = true
is_scard_error _ = false

-- `errors.Is(err, keycard.ErrNoAvailablePairingSlots)`
unfoldable pub is_no_slots : Error → Bool
is_no_slots (foreign no_pairing_slots _) = true
is_no_slots (wrap _ e) = is_no_slots e
is_no_slots _ = false

-- `err.(*apdu.ErrBadResponse)` with the status word 0x6a82, `globalplatform.SwFileNotFound`
unfoldable pub is_file_not_found : Error → Bool
is_file_not_found (foreign (bad_response sw) _) = sw == 0x6a82
is_file_not_found _ = false

-- `err == scard.ErrNoReadersAvailable`, `scard.ErrCancelled`, `scard.ErrTimeout` and the like
unfoldable pub is_scard_code : Error → ℕ → Bool
is_scard_code (foreign (scard c) _) code = c == code
is_scard_code _ code = false

-- `err.(*keycard.WrongPINError)`
unfoldable pub is_wrong_pin : Error → Bool
is_wrong_pin (foreign (wrong_pin _) _) = true
is_wrong_pin _ = false

unfoldable pub get_retries : Error → Option ℕ
get_retries (foreign (wrong_pin n) _) = some n
get_retries (foreign (wrong_puk n) _) = some n
get_retries _ = none
