-- ===== src/Service/Handlers.antt =====
-- The handlers of `KeycardService`.
use status_keycard_go.Prelude.{
  ℕ, Bool, not, Option, none, some, List, [], ◌∷◌, if◌then◌else◌, Text, Bytes, text_eq,
}
use status_keycard_go.Hex.{btox}
use status_keycard_go.Internal.Errors.{
  Error, Result, ok, err, own, wrap, simulated, not_started, already_started, unknown_simulation,
  create_store, Simulated, get_simulated_error,
}
use status_keycard_go.Internal.Types.{Metadata, LoginKeys, RecoverKeys}
use status_keycard_go.Pairing.{Store, FileSystem, new_store}
use status_keycard_go.Card.{Card}
use status_keycard_go.Context.Machine.{Outcome, done, panic, stuck, M, pure, ◌>>=◌, gets}
use status_keycard_go.Context.Commands.{
  get_status, initialize, verify_pin, change_pin, change_puk, unblock_pin, generate_mnemonic,
  load_mnemonic,
}
use status_keycard_go.Context.Data.{get_metadata, store_metadata}
use status_keycard_go.Context.Reset.{or_else, factory_reset}
use status_keycard_go.Context.Export.{export_login_keys, export_recover_keys, set_simulated_error}
use status_keycard_go.Context.Life.{new_context, start, stop}
use status_keycard_go.Context.Connect.{default_pairing}
use status_keycard_go.Service.Validation.{Validator}
use status_keycard_go.Service.Requests.{
  absent, present, Service, Request, Reply, empty, status, authorized, indexes, key_uid, metadata,
  login, recover, Served, served, crashed, blocked,
}

-- `simulated` or nil, as an `error`
unfoldable pub to_error : Option Simulated → Option Error
to_error none = none
to_error (some s) = some (simulated s)

-- The reply and the error of each method.
abbrev pub only_error : Option Error → Reply × Option Error
only_error e = (empty, e)

unfoldable pub on_authorized : Option Error × Bool → Reply × Option Error
on_authorized (e, b) = (authorized b, e)

unfoldable pub on_indexes : List ℕ × Option Error → Reply × Option Error
on_indexes (xs, none) = (indexes xs, none)
on_indexes (xs, some e) = (empty, some e)

unfoldable pub on_key_uid : Bytes × Option Error → Reply × Option Error
on_key_uid (uid, e) = (key_uid (btox uid), e)

unfoldable pub on_metadata : Option Metadata × Option Error → Reply × Option Error
on_metadata (m, e) = (metadata m, e)

unfoldable pub on_login : Result LoginKeys → Reply × Option Error
on_login (ok k) = (login k, none)
on_login (err e) = (empty, some e)

unfoldable pub on_recover : Result RecoverKeys → Reply × Option Error
on_recover (ok k) = (recover k, none)
on_recover (err e) = (empty, some e)

-- The end of a method of the context, as the end of the handler that called it.
unfoldable pub finish :
    {W A : Type 0} → (A → Reply × Option Error) → Option Error → Outcome W A → Served W
finish f sim (done a c) = served (f a).0 (f a).1 (record { holder = present c; simulate = sim })
finish f sim panic = crashed
finish f sim stuck = blocked

-- `if s.keycardContext == nil { return errKeycardServiceNotStarted }`
unfoldable pub with_context :
    {W A : Type 0} → (A → Reply × Option Error) → M W A → Service W → Served W
unfolding finish
with_context f m s = elim s.holder [
  | absent w ↦ served empty (some (own not_started)) s
  | present c ↦ finish f s.simulate (m c)
]

-- The same for a request that is validated behind that test.
unfoldable pub validated : {W : Type 0} → Option Error → M W (Option Error) → M W (Option Error)
validated none m = m
validated (some e) m = pure (some e)

unfoldable pub validated_key :
    {W : Type 0} → Option Error → M W (Reply × Option Error) → M W (Reply × Option Error)
validated_key none m = m
validated_key (some e) m = pure (empty, some e)

abbrev pub or_default : Text → Text
or_default [] = default_pairing
or_default (x ∷ xs) = x ∷ xs

module _ {W : Type 0} where
  unfoldable pub stopped : Option Error → Outcome W (Unit {0}) → Served W
  stopped sim (done _ c) = served empty none (record { holder = absent c.world; simulate = sim })
  stopped sim panic = crashed
  stopped sim stuck = blocked

  -- The service's own field is set before the context is told.
  unfoldable pub simulate_known : Option Error → Service W → Served W
  unfolding finish
  simulate_known sim s = elim s.holder [
    | absent w ↦ served empty none (record s { simulate = sim })
    | present c ↦ finish only_error sim (set_simulated_error sim c)
  ]

  unfoldable pub simulate_validated : Text → Option Error → Service W → Served W
  unfolding simulate_known to_error
  simulate_validated text (some e) s = served empty (some e) s
  simulate_validated text none s = elim (get_simulated_error text) [
    | some x ↦ simulate_known (to_error (some x)) s
    | none ↦
        if not (text_eq text [])
        then served empty (some (own unknown_simulation)) s
        else simulate_known (to_error none) s
  ]

abbrev pub same_pair : Reply × Option Error → Reply × Option Error
same_pair r = r

module _ {W : Type 0} (card : Card W) where
  unfoldable pub begin : Option Error → M W (Option Error)
  begin sim = do e ← set_simulated_error sim; or_else card e (start card)

  unfoldable pub store_opened : Option Error → (Option Store × Option Error) × W → Served W
  unfolding begin finish
  store_opened sim ((_, some e), w) =
      served empty (some (wrap create_store e)) (record { holder = absent w; simulate = sim })
  store_opened sim ((none, none), w) = crashed
  store_opened sim ((some p, none), w) = finish only_error sim (begin sim (new_context p w))

  unfoldable pub serve_stop : Service W → Served W
  unfolding stopped
  serve_stop s = elim s.holder [
    | absent w ↦ served empty none s
    | present c ↦ stopped s.simulate (stop card c)
  ]

  unfoldable pub load_key : Text → Text → M W (Reply × Option Error)
  unfolding on_key_uid
  load_key mnemonic passphrase = load_mnemonic card mnemonic passphrase >>= λ r. pure (on_key_uid r)

module _ {W : Type 0} (card : Card W) (fs : FileSystem W) (v : Validator) where
  unfoldable pub serve_start : Text → Service W → Served W
  unfolding store_opened
  serve_start path s = elim s.holder [
    | present c ↦ served empty (some (own already_started)) s
    | absent w ↦ store_opened card s.simulate (new_store fs path w)
  ]

  -- One request.
  unfoldable pub serve : Request → Service W → Served W
  unfolding serve_start serve_stop simulate_validated with_context validated validated_key load_key
      on_authorized on_indexes on_metadata on_login on_recover
  serve (Request.start_service path) s = serve_start path s
  serve Request.stop_service s = serve_stop card s
  serve Request.read_status s = with_context (λ t. (status t, none)) (gets get_status) s
  serve (Request.initialize pin puk pairing) s =
      with_context only_error
        (validated (v.initialize pin puk pairing) (initialize card pin puk (or_default pairing))) s
  serve (Request.authorize pin) s = with_context on_authorized (verify_pin card pin) s
  serve (Request.change_pin pin) s =
      with_context only_error (validated (v.change_pin pin) (change_pin card pin)) s
  serve (Request.change_puk puk) s =
      with_context only_error (validated (v.change_puk puk) (change_puk card puk)) s
  serve (Request.unblock puk pin) s =
      with_context only_error (validated (v.unblock puk pin) (unblock_pin card puk pin)) s
  serve (Request.generate_mnemonic n) s = with_context on_indexes (generate_mnemonic card n) s
  serve (Request.load_mnemonic mnemonic passphrase) s =
      with_context same_pair
        (validated_key (v.load_mnemonic mnemonic passphrase) (load_key card mnemonic passphrase)) s
  serve Request.factory_reset s = with_context only_error (factory_reset card) s
  serve Request.read_metadata s = with_context on_metadata (get_metadata card) s
  serve (Request.store_metadata name paths) s =
      with_context only_error
        (validated (v.store_metadata name paths) (store_metadata card name paths)) s
  serve Request.login_keys s = with_context on_login (export_login_keys card) s
  serve Request.recover_keys s = with_context on_recover (export_recover_keys card) s
  serve (Request.simulate_error text) s = simulate_validated text (v.simulate_error text) s
