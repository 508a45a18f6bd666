-- ===== src/Flow/Metadata.antt =====
-- pkg/flow/commands.go: the metadata of the card.
use status_keycard_go.Prelude.{
  ℕ, not, Option, none, some, List, [], ◌∷◌, ◌++◌, if◌then◌else◌, Text, has_prefix, codes, ◌==◌,
}
use status_keycard_go.Internal.Errors.{
  Error, foreign, bad_response, eof, own, message, Result, ok, err, is_scard_error,
}
use status_keycard_go.Internal.Types.{CardMetadata, Metadata}
use status_keycard_go.Internal.Convert.{to_metadata}
use status_keycard_go.Card.{Card}
use status_keycard_go.Context.Data.{wallet_root_path, last}
use status_keycard_go.Keycard.{get_metadata, store_metadata}
use status_keycard_go.Flow.Values.{Value, array, Action}
use status_keycard_go.Flow.Session.{
  Fault, F, pure, fail, crash, ◌>>=◌, ◌>>◌, call, param, as_text, pause_and_wait, Round, finished,
  again, ask,
}
use status_keycard_go.Flow.Opening.{check_error}
use status_keycard_go.Flow.Keys
use status_keycard_go.Flow.Messages

-- What `getMetadata` makes of an error that is not of PC/SC.
unfoldable pub metadata_error : Error → Error
metadata_error (foreign (bad_response sw) t) =
    if sw == 0x6d00 then own (message Messages.error_no_keys) else foreign (bad_response sw) t
metadata_error (foreign eof t) = own (message Messages.error_no_data)
metadata_error e = e

module _ {W : Type 0} (card : Card W) where
  unfoldable pub metadata_read : Result CardMetadata → F W Metadata
  unfolding metadata_error
  metadata_read (ok m) = pure (to_metadata card.encode_path m)
  metadata_read (err e) =
      if is_scard_error (some e) then fail Fault.restart else fail (Fault.error (metadata_error e))

  -- `getMetadata`
  unfoldable pub get_metadata_flow : F W Metadata
  unfolding metadata_read
  get_metadata_flow = call (get_metadata card) >>= metadata_read

  -- `err` is returned as it is.
  unfoldable pub or_error : {A : Type 0} → Result A → F W A
  or_error (ok a) = pure a
  or_error (err e) = fail (Fault.error e)

  -- `components[len(components)-1]`
  unfoldable pub last_component : List ℕ → F W ℕ
  last_component components = elim (last components) [ none ↦ crash | some c ↦ pure c ]

  unfoldable pub wallet_component : Text → F W ℕ
  unfolding or_error last_component
  wallet_component path =
      if not (has_prefix path wallet_root_path)
      then fail (Fault.error (own (message (codes "path must start with " ++ wallet_root_path))))
      else (or_error (card.decode_path path) >>= last_component)

  unfoldable pub wallet_components : List (Option Text) → F W (List ℕ)
  unfolding wallet_component
  wallet_components [] = pure []
  wallet_components (none ∷ paths) = crash
  wallet_components (some path ∷ paths) =
      let rest = wallet_components paths in
      wallet_component path >>= λ c. rest >>= λ cs. pure (c ∷ cs)

  -- `w.([]interface{})`
  unfoldable pub as_array : Value → F W (List (Option Text))
  as_array (array paths) = pure paths
  as_array _ = crash

  unfoldable pub with_wallets : Value → Option Value → F W (Round (Unit {0}))
  unfolding as_array wallet_components or_error
  with_wallets name none =
      pause_and_wait Action.enter_wallets Messages.error_store_meta >> pure again
  with_wallets name (some w) = do
    paths ← as_array w
    components ← wallet_components paths
    card_name ← as_text name
    m ← or_error (card.new_metadata card_name components)
    e ← call (store_metadata card m)
    check_error e
    pure (finished tt)

  unfoldable pub with_name : Option Value → F W (Round (Unit {0}))
  unfolding with_wallets
  with_name none = pause_and_wait Action.enter_name Messages.error_store_meta >> pure again
  with_name (some name) = param Keys.wallet_paths >>= with_wallets name

  -- `storeMetadata`
  unfoldable pub store_metadata_flow : F W (Unit {0})
  unfolding with_name
  store_metadata_flow = ask (param Keys.card_name >>= with_name)
