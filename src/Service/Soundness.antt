-- ===== src/Service/Soundness.antt =====
-- Each request is answered, whatever the card answers, and leaves the service sound.
use status_keycard_go.Prelude.{
  Bool, true, false, Option, none, some, not, if◌then◌else◌, Text, text_eq, [],
}
use status_keycard_go.Internal.Errors.{
  Error, Simulated, get_simulated_error, own, unknown_simulation,
}
use status_keycard_go.Pairing.{FileSystem, new_store}
use status_keycard_go.Pairing.Opening.{new_store_answers}
use status_keycard_go.Card.{Card}
use status_keycard_go.Context.Machine.{gets}
use status_keycard_go.Context.Export.{set_simulated_error, export_login_keys, export_recover_keys}
use status_keycard_go.Context.Commands.{
  get_status, initialize, verify_pin, change_pin, change_puk, unblock_pin, generate_mnemonic,
}
use status_keycard_go.Context.Data.{get_metadata, store_metadata}
use status_keycard_go.Context.Reset.{factory_reset}
use status_keycard_go.Context.Invariant.{Answers}
use status_keycard_go.Context.Invariant.Commands.{
  initialize-Keeps, verify_pin-Keeps, change_pin-Keeps, change_puk-Keeps, unblock_pin-Keeps,
  generate_mnemonic-Keeps,
}
use status_keycard_go.Context.Invariant.Data.{Decodes, get_metadata-Keeps, store_metadata-Keeps}
use status_keycard_go.Context.Invariant.Reset.{Selects, factory_reset-Keeps}
use status_keycard_go.Context.Invariant.Keys.{export_login_keys-Keeps, export_recover_keys-Keeps}
use status_keycard_go.Service.Validation.{Validator}
use status_keycard_go.Service.Requests.{
  Holder, absent, present, Service, Request, empty, status, Served, served,
}
use status_keycard_go.Service.Handlers.{
  serve_start, simulate_known, simulate_validated, to_error, load_key, serve, only_error,
  on_authorized, on_indexes, on_metadata, on_login, on_recover, same_pair, or_default, validated,
  validated_key,
}
use status_keycard_go.Service.Safety.{
  SoundHolder, IsSound, Soundly, finish-Soundly, with_context-Soundly, validated-Keeps,
  validated_key-Keeps, set_simulated_error-Keeps, get_status-Keeps, store_opened-Soundly,
  stop-Soundly, load_key-Keeps,
}

module _ {W : Type 0} where
  simulate_known-Soundly :
      (sim : Option Error) (h : Holder W) (old : Option Error)
      → SoundHolder h
      → Soundly (simulate_known sim (record { holder = h; simulate = old }))
  unfolding simulate_known
  simulate_known-Soundly sim (absent w) old v = v
  simulate_known-Soundly sim (present c) old v =
      finish-Soundly only_error sim (set_simulated_error sim c) (set_simulated_error-Keeps sim c v)

  known_by :
      (e : Option Simulated) (b : Bool) (s : Service W) (k : Option Simulated → Served W)
      → IsSound s
      → ((o : Option Simulated) → Soundly (k o))
      → Soundly (elim e as (λ _. Served W) [
        | some x ↦ k (some x)
        | none ↦ if b then served empty (some (own unknown_simulation)) s else k none
      ])
  known_by (some x) b s k v h = h (some x)
  known_by none true s k v h = v
  known_by none false s k v h = h none

  simulate_validated-Soundly :
      (text : Text) (e : Option Error) (s : Service W)
      → IsSound s
      → Soundly (simulate_validated text e s)
  unfolding simulate_validated
  simulate_validated-Soundly text (some e) s v = v
  simulate_validated-Soundly text none s v =
      known_by (get_simulated_error text) (not (text_eq text [])) s
        (λ o. simulate_known (to_error o) s) v
        (λ o. simulate_known-Soundly (to_error o) s.holder s.simulate v)

module _ {W : Type 0} (card : Card W) (fs : FileSystem W) (v : Validator) where
  start-Soundly :
      (path : Text) (h : Holder W) (sim : Option Error)
      → SoundHolder h
      → Soundly (serve_start card fs v path (record { holder = h; simulate = sim }))
  unfolding serve_start
  start-Soundly path (present c) sim k = k
  start-Soundly path (absent w) sim k =
      store_opened-Soundly card sim (new_store fs path w) (new_store_answers fs path w)

  -- From a service whose context, if there is one, satisfies the invariant, every request is
  -- answered with a reply or an error and leaves such a service: the request neither panics nor
  -- blocks for ever on the mutex or on the scan channel. The card has to answer a status and a
  -- selection with a value where it answers with no error, and a derivation path below the wallet
  -- root has to decode to at least one component.
  pub serve-Soundly :
      Answers card
      → Selects card
      → Decodes card
      → (r : Request) (s : Service W) → IsSound s
      → Soundly (serve card fs v r s)
  unfolding serve
  serve-Soundly a b d (Request.start_service path) s k = start-Soundly path s.holder s.simulate k
  serve-Soundly a b d Request.stop_service s k = stop-Soundly card s.holder s.simulate k
  serve-Soundly a b d Request.read_status s k =
      with_context-Soundly (λ t. (status t, none)) (gets get_status) s get_status-Keeps k
  serve-Soundly a b d (Request.initialize pin puk pairing) s k =
      with_context-Soundly only_error
        (validated (v.initialize pin puk pairing) (initialize card pin puk (or_default pairing))) s
        (validated-Keeps (v.initialize pin puk pairing) _
          (initialize-Keeps card pin puk (or_default pairing)))
        k
  serve-Soundly a b d (Request.authorize pin) s k =
      with_context-Soundly on_authorized (verify_pin card pin) s (verify_pin-Keeps card pin a) k
  serve-Soundly a b d (Request.change_pin pin) s k =
      with_context-Soundly only_error (validated (v.change_pin pin) (change_pin card pin)) s
        (validated-Keeps (v.change_pin pin) _ (change_pin-Keeps card pin a)) k
  serve-Soundly a b d (Request.change_puk puk) s k =
      with_context-Soundly only_error (validated (v.change_puk puk) (change_puk card puk)) s
        (validated-Keeps (v.change_puk puk) _ (change_puk-Keeps card puk a)) k
  serve-Soundly a b d (Request.unblock puk pin) s k =
      with_context-Soundly only_error (validated (v.unblock puk pin) (unblock_pin card puk pin)) s
        (validated-Keeps (v.unblock puk pin) _ (unblock_pin-Keeps card puk pin a)) k
  serve-Soundly a b d (Request.generate_mnemonic n) s k =
      with_context-Soundly on_indexes (generate_mnemonic card n) s (generate_mnemonic-Keeps card n)
        k
  serve-Soundly a b d (Request.load_mnemonic mnemonic passphrase) s k =
      with_context-Soundly same_pair
        (validated_key (v.load_mnemonic mnemonic passphrase) (load_key card mnemonic passphrase)) s
        (validated_key-Keeps (v.load_mnemonic mnemonic passphrase) _
          (load_key-Keeps card mnemonic passphrase))
        k
  serve-Soundly a b d Request.factory_reset s k =
      with_context-Soundly only_error (factory_reset card) s (factory_reset-Keeps card b) k
  serve-Soundly a b d Request.read_metadata s k =
      with_context-Soundly on_metadata (get_metadata card) s (get_metadata-Keeps card) k
  serve-Soundly a b d (Request.store_metadata name paths) s k =
      with_context-Soundly only_error
        (validated (v.store_metadata name paths) (store_metadata card name paths)) s
        (validated-Keeps (v.store_metadata name paths) _ (store_metadata-Keeps card name paths d)) k
  serve-Soundly a b d Request.login_keys s k =
      with_context-Soundly on_login (export_login_keys card) s (export_login_keys-Keeps card) k
  serve-Soundly a b d Request.recover_keys s k =
      with_context-Soundly on_recover (export_recover_keys card) s (export_recover_keys-Keeps card)
        k
  serve-Soundly a b d (Request.simulate_error text) s k =
      simulate_validated-Soundly text (v.simulate_error text) s k
