-- ===== src/Mocked/Metadata.antt =====
-- pkg/flow/mocked: the handler that stores the metadata of the card.
use status_keycard_go.Prelude.{
  ℕ, ◌+◌, not, ◌&&◌, ◌||◌, Option, none, some, List, [], ◌∷◌, ◌++◌, if◌then◌else◌, Text, text_eq,
  has_prefix,
}
use status_keycard_go.Internal.Types.{Wallet}
use status_keycard_go.Context.Data.{wallet_root_path}
use status_keycard_go.Flow.Values.{Value, array, enter_pin, enter_name}
use status_keycard_go.Flow.Keys
use status_keycard_go.Mocked.Cards.{is_blank, Keycard, itoa, padded, address_of}
use status_keycard_go.Mocked.Machine.{
  bad_type, bad_path, M, pure, crash, ◌>>=◌, ◌>>◌, inserted, put_inserted, helper, put_helper,
  param, string_param, finish,
}
use status_keycard_go.Mocked.Credentials.{identity, is_pin, swap_foreign, ask_again}

-- The first wallet with a path.
unfoldable pub wallet_at : Text → List Wallet → Option Wallet
wallet_at path [] = none
wallet_at path (w ∷ ws) = if text_eq w.path path then some w else wallet_at path ws

unfoldable pub new_wallet : ℕ → Text → Wallet
new_wallet n path = record {
  path = path;
  address = address_of n;
  public_key = some (padded 130 (itoa n));
}

abbrev pub add_wallet : Wallet → Keycard → Keycard
add_wallet w c = record c {
  metadata = record c.metadata { wallets = c.metadata.wallets ++ w ∷ [] };
}

-- `Metadata.Name = name; Metadata.Wallets = []internal.Wallet{}`
abbrev pub named : Text → Keycard → Keycard
named name c = record c { metadata = record { name = name; wallets = [] } }

module _ {W : Type 0} where
  -- The wallet that the helper has at a path, or a new one that it gets.
  unfoldable pub wallet_or_new : ℕ → Text → Option Wallet → M W Wallet
  wallet_or_new n path (some w) = pure w
  wallet_or_new n path none = do
    h ← helper
    put_helper (add_wallet (new_wallet n path) h)
    pure (new_wallet n path)

  -- One path, at the place n of the paths, from 1.
  unfoldable pub store_wallet : ℕ → Option Text → M W (Unit {0})
  unfolding wallet_or_new
  store_wallet n none = crash bad_type
  store_wallet n (some path) =
      if not (has_prefix path wallet_root_path)
      then crash bad_path
      else (helper >>= λ h. wallet_or_new n path (wallet_at path h.metadata.wallets) >>= λ w.
          inserted >>= λ c. put_inserted (add_wallet w c))

  unfoldable pub store_wallets : ℕ → List (Option Text) → M W (Unit {0})
  unfolding store_wallet
  store_wallets n [] = pure tt
  store_wallets n (path ∷ paths) =
      let rest = store_wallets (n + 1) paths in store_wallet n path >> rest

  unfoldable pub store_paths : Option Value → M W (Unit {0})
  unfolding store_wallets
  store_paths none = pure tt
  store_paths (some (array paths)) = store_wallets 1 paths
  store_paths (some v) = crash bad_type

  -- The rest of `handleStoreMetadataFlow` behind the test of the card.
  unfoldable pub store_metadata_of : Keycard → M W (Unit {0})
  unfolding store_paths ask_again
  store_metadata_of c = do
    pin ← string_param Keys.pin
    name ← string_param Keys.card_name
    if is_pin pin && text_eq pin c.pin && not (is_blank name)
        then (put_inserted (named name c)
            >> (param Keys.wallet_paths >>= store_paths)
            >> finish (identity c))
        else if not (is_pin pin) || not (text_eq pin c.pin)
        then ask_again enter_pin (identity c)
        else ask_again enter_name (identity c)

  -- `handleStoreMetadataFlow`
  unfoldable pub handle_store_metadata : M W (Unit {0})
  unfolding swap_foreign store_metadata_of
  handle_store_metadata = do
    c ← inserted
    if c.not_status_keycard then swap_foreign else store_metadata_of c
