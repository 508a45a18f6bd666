-- ===== src/Flow/Preservation/Commands.antt =====
-- The commands behind the authentication keep an invariant of sessions.
use status_keycard_go.Prelude.{ℕ, Bool, Option, none, some, List, [], ◌∷◌, Text, Bytes}
use status_keycard_go.Internal.Errors.{Error, Result, ok, err}
use status_keycard_go.Internal.Types.{CardMetadata}
use status_keycard_go.Card.{Card}
use status_keycard_go.Flow.Values.{Value, text, array, Action}
use status_keycard_go.Flow.Session.{F, pure, crash}
use status_keycard_go.Flow.Session.Rules.{Invariant, Keeps, Keeps-pure, Keeps-bind, Keeps-crash}
use status_keycard_go.Context.Data.{last}
use status_keycard_go.Flow.Changes.{
  change_with, change_pin_flow, change_puk_flow, change_pairing_flow, unpair_current_flow,
  unpair_flow, remove_key_flow,
}
use status_keycard_go.Flow.Exports.{
  export_key_extended, export_key_flow, export_keys, only_public_of, ask_path, export_at, with_path,
  export_bip44_key, with_mnemonic, load_keys, sign_hash, text_of, sign_at, sign,
}
use status_keycard_go.Flow.Metadata.{
  metadata_read, get_metadata_flow, or_error, last_component, wallet_component, wallet_components,
  as_array, with_wallets, with_name, store_metadata_flow,
}
use status_keycard_go.Flow.Preservation.{opening_rules}

module _ {W : Type 0} {v : Invariant W} (card : Card W) where
  Keeps-change_with :
      (f : Text → W → Option Error × W) (a : Action) (o : Option Value)
      → Keeps v (change_with card f a o)
  unfolding change_with
  Keeps-change_with f a none = search opening_rules
  Keeps-change_with f a (some x) = search opening_rules depth 12

  pub Keeps-change_pin : Keeps v (change_pin_flow card)
  unfolding change_pin_flow
  Keeps-change_pin = search (opening_rules, Keeps-change_with)

  pub Keeps-change_puk : Keeps v (change_puk_flow card)
  unfolding change_puk_flow
  Keeps-change_puk = search (opening_rules, Keeps-change_with)

  pub Keeps-change_pairing : Keeps v (change_pairing_flow card)
  unfolding change_pairing_flow
  Keeps-change_pairing = search (opening_rules, Keeps-change_with)

  pub Keeps-unpair_current : Keeps v (unpair_current_flow card)
  unfolding unpair_current_flow
  Keeps-unpair_current = search opening_rules depth 8

  pub Keeps-unpair : (i : ℕ) → Keeps v (unpair_flow card i)
  unfolding unpair_flow
  Keeps-unpair i = search opening_rules

  pub Keeps-remove_key : Keeps v (remove_key_flow card)
  unfolding remove_key_flow
  Keeps-remove_key = search opening_rules

  pub Keeps-export_key_extended : (p : Text) (n : ℕ) → Keeps v (export_key_extended card p n)
  unfolding export_key_extended
  Keeps-export_key_extended p n = search opening_rules

  pub Keeps-export_key : (p : Text) (b : Bool) → Keeps v (export_key_flow card p b)
  unfolding export_key_flow
  Keeps-export_key p b = search Keeps-export_key_extended

  Keeps-export_keys : (ps : List (Option Text)) (b : Bool) → Keeps v (export_keys card ps b)
  unfolding export_keys
  Keeps-export_keys [] b = search opening_rules
  Keeps-export_keys (none ∷ ps) b = search opening_rules
  Keeps-export_keys (some p ∷ ps) b =
      Keeps-bind (export_key_flow card p b) _ (Keeps-export_key p b)
        (λ k. Keeps-bind (export_keys card ps b) _ (Keeps-export_keys ps b) (λ ks. Keeps-pure _))

  Keeps-only_public_of : (o : Option Value) → Keeps v (only_public_of card o)
  Keeps-only_public_of none = search opening_rules
  Keeps-only_public_of (some x) = search opening_rules

  Keeps-ask_path : (t : Text) → Keeps v (ask_path card t)
  unfolding ask_path
  Keeps-ask_path t = search opening_rules

  Keeps-export_at : (x : Value) (b : Bool) → Keeps v (export_at card x b)
  unfolding export_at
  Keeps-export_at (text t) b = search (opening_rules, Keeps-export_key)
  Keeps-export_at (array ps) b = search (opening_rules, Keeps-export_keys)
  Keeps-export_at _ b = search (opening_rules, Keeps-ask_path)

  Keeps-with_path : (o : Option Value) → Keeps v (with_path card o)
  unfolding with_path
  Keeps-with_path none = search Keeps-ask_path
  Keeps-with_path (some x) = search (opening_rules, Keeps-only_public_of, Keeps-export_at)

  pub Keeps-export_bip44 : Keeps v (export_bip44_key card)
  unfolding export_bip44_key
  Keeps-export_bip44 = search (opening_rules, Keeps-with_path)

  Keeps-with_mnemonic : (o : Option Value) → Keeps v (with_mnemonic card o)
  unfolding with_mnemonic
  Keeps-with_mnemonic none = search opening_rules depth 12
  Keeps-with_mnemonic (some x) = search opening_rules depth 12

  pub Keeps-load_keys : Keeps v (load_keys card)
  unfolding load_keys
  Keeps-load_keys = search (opening_rules, Keeps-with_mnemonic)

  Keeps-sign_hash : (x : Value) (h : Option Bytes) → Keeps v (sign_hash card x h)
  unfolding sign_hash
  Keeps-sign_hash x none = search opening_rules
  Keeps-sign_hash x (some h) = search opening_rules depth 12

  Keeps-text_of : (o : Option Value) → Keeps v (text_of card o)
  Keeps-text_of none = search opening_rules
  Keeps-text_of (some x) = search opening_rules

  Keeps-sign_at : (o : Option Value) → Keeps v (sign_at card o)
  unfolding sign_at
  Keeps-sign_at none = search opening_rules
  Keeps-sign_at (some x) = search (opening_rules, Keeps-text_of, Keeps-sign_hash)

  pub Keeps-sign : Keeps v (sign card)
  unfolding sign
  Keeps-sign = search (opening_rules, Keeps-sign_at)

  Keeps-metadata_read : (r : Result CardMetadata) → Keeps v (metadata_read card r)
  unfolding metadata_read
  Keeps-metadata_read (ok m) = search opening_rules
  Keeps-metadata_read (err e) = search opening_rules

  pub Keeps-get_metadata : Keeps v (get_metadata_flow card)
  unfolding get_metadata_flow
  Keeps-get_metadata = search (opening_rules, Keeps-metadata_read)

  Keeps-or_error : {A : Type 0} (r : Result A) → Keeps v (or_error card r)
  unfolding or_error
  Keeps-or_error (ok a) = search opening_rules
  Keeps-or_error (err e) = search opening_rules

  Keeps-last_component : (xs : List ℕ) → Keeps v (last_component card xs)
  unfolding last_component
  Keeps-last_component xs = or_crash (last xs)
    where
      or_crash :
          (o : Option ℕ) → Keeps v (elim o as (λ _. F W ℕ) [ none ↦ crash | some c ↦ pure c ])
      or_crash none = Keeps-crash
      or_crash (some c) = Keeps-pure c

  Keeps-wallet_component : (p : Text) → Keeps v (wallet_component card p)
  unfolding wallet_component
  Keeps-wallet_component p = search (opening_rules, Keeps-or_error, Keeps-last_component)

  Keeps-wallet_components : (ps : List (Option Text)) → Keeps v (wallet_components card ps)
  unfolding wallet_components
  Keeps-wallet_components [] = search opening_rules
  Keeps-wallet_components (none ∷ ps) = search opening_rules
  Keeps-wallet_components (some p ∷ ps) =
      Keeps-bind (wallet_component card p) _ (Keeps-wallet_component p) (λ c.
        Keeps-bind (wallet_components card ps) _ (Keeps-wallet_components ps) (λ cs. Keeps-pure _))

  Keeps-as_array : (x : Value) → Keeps v (as_array card x)
  unfolding as_array
  Keeps-as_array (array ps) = search opening_rules
  Keeps-as_array _ = search opening_rules

  Keeps-with_wallets : (n : Value) (o : Option Value) → Keeps v (with_wallets card n o)
  unfolding with_wallets
  Keeps-with_wallets n none = search opening_rules
  Keeps-with_wallets n (some x) =
      search (opening_rules, Keeps-as_array, Keeps-wallet_components, Keeps-or_error) depth 12

  Keeps-with_name : (o : Option Value) → Keeps v (with_name card o)
  unfolding with_name
  Keeps-with_name none = search opening_rules
  Keeps-with_name (some x) = search (opening_rules, Keeps-with_wallets)

  pub Keeps-store_metadata : Keeps v (store_metadata_flow card)
  unfolding store_metadata_flow
  Keeps-store_metadata = search (opening_rules, Keeps-with_name)
