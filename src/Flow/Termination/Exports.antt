-- ===== src/Flow/Termination/Exports.antt =====
-- The exports, the mnemonic, the signature and the metadata: the functions that ask end.
use status_keycard_go.Prelude.{ℕ, Bool, Option, none, some, List, [], ◌∷◌, Text, Bytes}
use status_keycard_go.Internal.Errors.{Result, ok, err}
use status_keycard_go.Context.Data.{last}
use status_keycard_go.Card.{Card}
use status_keycard_go.Flow.Values.{Value, text, array}
use status_keycard_go.Flow.Session.{F, pure, crash}
use status_keycard_go.Flow.Exports.{
  export_key_extended, export_key_flow, export_keys, only_public_of, ask_path, export_at, with_path,
  export_bip44_key, with_mnemonic, load_keys, sign_hash, text_of, sign_at, sign,
}
use status_keycard_go.Flow.Metadata.{
  or_error, last_component, wallet_component, wallet_components, as_array, with_wallets, with_name,
  store_metadata_flow,
}
use status_keycard_go.Flow.Termination.Answers.{Bounded, Asks}
use status_keycard_go.Flow.Termination.Rules.{Bounded-bind, Bounded-pure, Bounded-crash}
use status_keycard_go.Flow.Termination.Loops.{asks_rules}

module _ {W : Type 0} (card : Card W) where
  Bounded-export_key_extended : (p : Text) (n : ℕ) → Bounded (export_key_extended card p n)
  unfolding export_key_extended
  Bounded-export_key_extended p n = search asks_rules

  Bounded-export_key : (p : Text) (b : Bool) → Bounded (export_key_flow card p b)
  unfolding export_key_flow
  Bounded-export_key p b = search Bounded-export_key_extended

  Bounded-export_keys : (ps : List (Option Text)) (b : Bool) → Bounded (export_keys card ps b)
  unfolding export_keys
  Bounded-export_keys [] b = search asks_rules
  Bounded-export_keys (none ∷ ps) b = search asks_rules
  Bounded-export_keys (some p ∷ ps) b =
      Bounded-bind (export_key_flow card p b) _ (Bounded-export_key p b) (λ k.
        Bounded-bind (export_keys card ps b) _ (Bounded-export_keys ps b) (λ ks. Bounded-pure _))

  Bounded-only_public_of : (o : Option Value) → Bounded (only_public_of card o)
  Bounded-only_public_of none = search asks_rules
  Bounded-only_public_of (some x) = search asks_rules

  Asks-ask_path : (t : Text) → Asks (ask_path card t)
  unfolding ask_path
  Asks-ask_path t = search asks_rules

  Asks-export_at : (x : Value) (b : Bool) → Asks (export_at card x b)
  unfolding export_at
  Asks-export_at (text t) b = search (asks_rules, Bounded-export_key)
  Asks-export_at (array ps) b = search (asks_rules, Bounded-export_keys)
  Asks-export_at _ b = search asks_rules

  Asks-with_path : (o : Option Value) → Asks (with_path card o)
  unfolding with_path
  Asks-with_path none = search Asks-ask_path
  Asks-with_path (some x) = search (asks_rules, Bounded-only_public_of, Asks-export_at)

  pub Bounded-export_bip44 : Bounded (export_bip44_key card)
  unfolding export_bip44_key
  Bounded-export_bip44 = search (asks_rules, Asks-with_path)

  Asks-with_mnemonic : (o : Option Value) → Asks (with_mnemonic card o)
  unfolding with_mnemonic
  Asks-with_mnemonic none = search asks_rules depth 12
  Asks-with_mnemonic (some x) = search asks_rules depth 12

  pub Bounded-load_keys : Bounded (load_keys card)
  unfolding load_keys
  Bounded-load_keys = search (asks_rules, Asks-with_mnemonic)

  Asks-sign_hash : (x : Value) (h : Option Bytes) → Asks (sign_hash card x h)
  unfolding sign_hash
  Asks-sign_hash x none = search asks_rules
  Asks-sign_hash x (some h) = search asks_rules depth 12

  Bounded-text_of : (o : Option Value) → Bounded (text_of card o)
  Bounded-text_of none = search asks_rules
  Bounded-text_of (some x) = search asks_rules

  Asks-sign_at : (o : Option Value) → Asks (sign_at card o)
  unfolding sign_at
  Asks-sign_at none = search asks_rules
  Asks-sign_at (some x) = search (asks_rules, Bounded-text_of, Asks-sign_hash)

  pub Bounded-sign : Bounded (sign card)
  unfolding sign
  Bounded-sign = search (asks_rules, Asks-sign_at)

  Bounded-or_error : {A : Type 0} (r : Result A) → Bounded (or_error card r)
  unfolding or_error
  Bounded-or_error (ok a) = search asks_rules
  Bounded-or_error (err e) = search asks_rules

  Bounded-last_component : (xs : List ℕ) → Bounded (last_component card xs)
  unfolding last_component
  Bounded-last_component xs = or_crash (last xs)
    where
      or_crash :
          (o : Option ℕ) → Bounded (elim o as (λ _. F W ℕ) [ none ↦ crash | some c ↦ pure c ])
      or_crash none = Bounded-crash
      or_crash (some c) = Bounded-pure c

  Bounded-wallet_component : (p : Text) → Bounded (wallet_component card p)
  unfolding wallet_component
  Bounded-wallet_component p = search (asks_rules, Bounded-or_error, Bounded-last_component)

  Bounded-wallet_components : (ps : List (Option Text)) → Bounded (wallet_components card ps)
  unfolding wallet_components
  Bounded-wallet_components [] = search asks_rules
  Bounded-wallet_components (none ∷ ps) = search asks_rules
  Bounded-wallet_components (some p ∷ ps) =
      Bounded-bind (wallet_component card p) _ (Bounded-wallet_component p) (λ c.
        Bounded-bind (wallet_components card ps) _ (Bounded-wallet_components ps)
          (λ cs. Bounded-pure _))

  Bounded-as_array : (x : Value) → Bounded (as_array card x)
  unfolding as_array
  Bounded-as_array (array ps) = search asks_rules
  Bounded-as_array _ = search asks_rules

  Asks-with_wallets : (n : Value) (o : Option Value) → Asks (with_wallets card n o)
  unfolding with_wallets
  Asks-with_wallets n none = search asks_rules
  Asks-with_wallets n (some x) =
      search (asks_rules, Bounded-as_array, Bounded-wallet_components, Bounded-or_error) depth 12

  Asks-with_name : (o : Option Value) → Asks (with_name card o)
  unfolding with_name
  Asks-with_name none = search asks_rules
  Asks-with_name (some x) = search (asks_rules, Asks-with_wallets)

  pub Bounded-store_metadata : Bounded (store_metadata_flow card)
  unfolding store_metadata_flow
  Bounded-store_metadata = search (asks_rules, Asks-with_name)
