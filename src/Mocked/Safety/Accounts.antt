-- ===== src/Mocked/Safety/Accounts.antt =====
-- The handlers that load an account and store metadata are safe.
use status_keycard_go.Prelude.{ℕ, zero, suc, ◌+◌, Option, none, some, List, [], ◌∷◌, Text}
use status_keycard_go.Prelude.Int.{ℤ}
use status_keycard_go.Internal.Errors.{Error}
use status_keycard_go.Internal.Types.{Wallet}
use status_keycard_go.Flow.Values.{Value, array}
use status_keycard_go.Mocked.Cards.{ReaderState, Keycard}
use status_keycard_go.Mocked.Machine.{Host}
use status_keycard_go.Mocked.Credentials.{FlowStatus}
use status_keycard_go.Mocked.Accounts.{
  Account, read_account, draw, offer_mnemonic, prepare_card, account_loaded, load_card,
  require_init, load_with, load_account_of, handle_load_account,
}
use status_keycard_go.Mocked.Metadata.{
  wallet_or_new, store_wallet, store_wallets, store_paths, store_metadata_of, handle_store_metadata,
}
use status_keycard_go.Mocked.Safety.{Held, Safe, Safe-pure, Safe-bind, safe_rules}
use status_keycard_go.Mocked.Safety.Handlers.{Safe-ask_again}

module _ {W : Type 0} {r : ReaderState} where
  Safe-read_account : Safe {W = W} (Held r) read_account
  unfolding read_account
  Safe-read_account = search safe_rules depth 16

  Safe-wallet_or_new :
      (n : ℕ) (p : Text) (w : Option Wallet) → Safe {W = W} (Held r) (wallet_or_new n p w)
  unfolding wallet_or_new
  Safe-wallet_or_new n p none = search safe_rules
  Safe-wallet_or_new n p (some w) = search safe_rules

  Safe-store_wallet : (n : ℕ) (p : Option Text) → Safe {W = W} (Held r) (store_wallet n p)
  unfolding store_wallet
  Safe-store_wallet n none = search safe_rules
  Safe-store_wallet n (some p) = search (safe_rules, Safe-wallet_or_new) depth 8

  Safe-store_wallets :
      (n : ℕ) (ps : List (Option Text)) → Safe {W = W} (Held r) (store_wallets n ps)
  unfolding store_wallets
  Safe-store_wallets n [] = search safe_rules
  Safe-store_wallets n (p ∷ ps) =
      Safe-bind (store_wallet n p) _ (Safe-store_wallet n p) (λ _. Safe-store_wallets (n + 1) ps)

  Safe-store_paths : (v : Option Value) → Safe {W = W} (Held r) (store_paths v)
  unfolding store_paths
  Safe-store_paths none = search safe_rules
  Safe-store_paths (some (array ps)) = Safe-store_wallets 1 ps
  Safe-store_paths (some _) = search safe_rules

  Safe-store_metadata_of : (c : Keycard) → Safe {W = W} (Held r) (store_metadata_of c)
  unfolding store_metadata_of
  Safe-store_metadata_of c = search (safe_rules, Safe-store_paths, Safe-ask_again) depth 12

  pub Safe-store_metadata : Safe {W = W} (Held r) handle_store_metadata
  unfolding handle_store_metadata
  Safe-store_metadata = search (safe_rules, Safe-store_metadata_of)

module _ {W : Type 0} (host : Host W) {r : ReaderState} where
  Safe-draw : (n : ℕ) → Safe {W = W} (Held r) (draw host n)
  unfolding draw
  Safe-draw zero = search safe_rules
  Safe-draw (suc n) =
      Safe-bind _ _ (search safe_rules)
        (λ i. Safe-bind (draw host n) _ (Safe-draw n) (λ is. Safe-pure (i ∷ is)))

  Safe-offer_mnemonic :
      (len : ℤ) (m : FlowStatus) (c : Keycard) (e : Option Error)
      → Safe {W = W} (Held r) (offer_mnemonic host len m c e)
  unfolding offer_mnemonic
  Safe-offer_mnemonic len m c none = search (safe_rules, Safe-draw)
  Safe-offer_mnemonic len m c (some e) = search safe_rules

  Safe-prepare_card : (a : Account) (m : FlowStatus) → Safe {W = W} (Held r) (prepare_card host a m)
  unfolding prepare_card
  Safe-prepare_card a m = search (safe_rules, Safe-offer_mnemonic) depth 12

  Safe-account_loaded :
      (m : FlowStatus) (c : Keycard) (e : Option Error)
      → Safe {W = W} (Held r) (account_loaded host m c e)
  unfolding account_loaded
  Safe-account_loaded m c none = search safe_rules
  Safe-account_loaded m c (some e) = search safe_rules

  Safe-load_card : (a : Account) (m : FlowStatus) → Safe {W = W} (Held r) (load_card host a m)
  unfolding load_card
  Safe-load_card a m = search (safe_rules, Safe-account_loaded) depth 12

  Safe-load_with : (a : Account) (m : FlowStatus) → Safe {W = W} (Held r) (load_with host a m)
  unfolding load_with require_init
  Safe-load_with a m = search (safe_rules, Safe-prepare_card, Safe-load_card) depth 8

  Safe-load_account_of : (c : Keycard) → Safe {W = W} (Held r) (load_account_of host c)
  unfolding load_account_of
  Safe-load_account_of c = search (safe_rules, Safe-read_account, Safe-load_with) depth 12

  pub Safe-load_account : Safe {W = W} (Held r) (handle_load_account host)
  unfolding handle_load_account
  Safe-load_account = search (safe_rules, Safe-load_account_of)
