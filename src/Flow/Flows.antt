-- ===== src/Flow/Flows.antt =====
-- pkg/flow/flow.go: the flows behind the selection of the card, by their types.
use status_keycard_go.Prelude.{
  ℕ, Bool, true, false, not, Option, none, some, List, [], ◌∷◌, ◌++◌, if◌then◌else◌, text_eq, ltb,
  ◌==◌,
}
use status_keycard_go.Internal.Errors.{own, message}
use status_keycard_go.Internal.Types.{Wallet, Metadata}
use status_keycard_go.Internal.Convert.{to_app_info}
use status_keycard_go.Pairing.{FileSystem}
use status_keycard_go.Card.{Card}
use status_keycard_go.Context.Data.{wallet_root_path}
use status_keycard_go.Context.Export.{
  master_path, wallet_path, eip1581_path, whisper_path, encryption_path, public_only,
  extended_public,
}
use status_keycard_go.Flow.Values.{text, int, boolean, app_info, key, card_metadata, tx_signature}
use status_keycard_go.Flow.Session.{
  Fault, value, fault, waiting, panic, exhausted, F, pure, fail, crash, gets, ◌>>=◌, ◌>>◌, set_card,
  flag,
}
use status_keycard_go.Flow.Opening.{require_keys, require_no_keys}
use status_keycard_go.Flow.Authentication.{open_and_authenticate}
use status_keycard_go.Flow.Changes.{
  change_pin_flow, change_puk_flow, change_pairing_flow, unpair_current_flow, unpair_flow,
  remove_key_flow,
}
use status_keycard_go.Flow.Exports.{
  export_key_flow, export_key_extended, export_bip44_key, load_keys, sign,
}
use status_keycard_go.Flow.Metadata.{get_metadata_flow, store_metadata_flow}
use status_keycard_go.Flow.Keys
use status_keycard_go.Flow.Messages
use status_keycard_go.Flow.Kinds.{
  FlowStatus, FlowType, identity, with_slots, add_slot, get_app_info, recover_account, load_account,
  login, export_public, sign_tx, change_pin, change_puk, change_pairing, unpair_this, unpair_others,
  delete_account_and_unpair, store_metadata, get_metadata,
}

module _ {W : Type 0} where
  -- `masterKey.Address` is read before the error is, and the key beside an error is nil.
  unfoldable pub or_panic : {A : Type 0} → F W A → F W A
  or_panic m s = elim (m s) [
    | value a t ↦ value a t
    | fault e t ↦ panic
    | waiting t ↦ waiting t
    | panic ↦ panic
    | exhausted ↦ exhausted
  ]

  -- `if err == nil { } else if _, ok := err.(*giveupError); ok { } else { return nil, err }`
  unfoldable pub or_given_up : {A B : Type 0} → F W A → (A → F W B) → F W B → F W B
  or_given_up m f g s = elim (m s) [
    | value a t ↦ f a t
    | fault e t ↦ elim e [ Fault.giveup ↦ g t | e' ↦ fault e' t ]
    | waiting t ↦ waiting t
    | panic ↦ panic
    | exhausted ↦ exhausted
  ]

  unfoldable pub reply : FlowStatus → F W FlowStatus
  reply entries = gets (λ s. entries ++ identity s.card_info)

module _ {W : Type 0} (card : Card W) (fs : FileSystem W) (rounds : ℕ) where
  unfoldable pub app_info_flow : F W FlowStatus
  app_info_flow = do
    i ← gets (λ s. to_app_info s.app_info)
    let start : FlowStatus = (Keys.error, text Messages.error_ok) ∷ (Keys.app_info, app_info i) ∷ []
    or_given_up (open_and_authenticate card fs rounds true)
        (λ _. gets (λ s.
          (Keys.paired, boolean true)
          ∷ (Keys.pin_retries, int s.card_info.pin_retries)
          ∷ (Keys.puk_retries, int s.card_info.puk_retries)
          ∷ start))
        (pure ((Keys.paired, boolean false) ∷ start))

  -- The keys that only a recovery exports.
  unfoldable pub recovered : FlowStatus → F W FlowStatus
  recovered result = do
    eip1581 ← export_key_flow card eip1581_path true
    version ← gets (λ s. s.card_info.version)
    root ←
        export_key_extended card wallet_root_path
          (if ltb version 0x0310 then public_only else extended_public)
    wallet ← export_key_flow card wallet_path true
    master ← export_key_flow card master_path true
    pure (
        (Keys.eip1581_key, key eip1581)
        ∷ (Keys.walle_root_key, key root)
        ∷ (Keys.wallet_key, key wallet)
        ∷ (Keys.master_key, key master)
        ∷ result)

  unfoldable pub export_keys_flow : Bool → F W FlowStatus
  unfolding recovered
  export_keys_flow recover = do
    require_keys
    open_and_authenticate card fs rounds false
    start ← reply []
    enc ← export_key_flow card encryption_path false
    whisper ← export_key_flow card whisper_path false
    let result : FlowStatus = (Keys.enc_key, key enc) ∷ (Keys.whisper_key, key whisper) ∷ start
    if recover then recovered result else pure result

  -- `exportMaster, ok := f.params[ExportMaster]; ok && exportMaster.(bool)`, and the export.
  unfoldable pub master_address : FlowStatus → F W FlowStatus
  master_address result = do
    wanted ← flag Keys.export_master
    if wanted
        then (do
          k ← or_panic (export_key_flow card master_path true)
          pure ((Keys.master_addr, text k.address) ∷ result))
        else pure result

  unfoldable pub export_public_flow : F W FlowStatus
  unfolding master_address
  export_public_flow = do
    require_keys
    open_and_authenticate card fs rounds false
    start ← reply []
    result ← master_address start
    k ← export_bip44_key card
    pure ((Keys.exported_key, k) ∷ result)

  unfoldable pub load_keys_flow : F W FlowStatus
  load_keys_flow = do
    require_no_keys
    open_and_authenticate card fs rounds false
    load_keys card
    reply []

  unfoldable pub sign_flow : F W FlowStatus
  sign_flow = do
    require_keys
    open_and_authenticate card fs rounds false
    signature ← sign card
    reply ((Keys.tx_signature, tx_signature signature) ∷ [])

  -- The flows that change a secret or the metadata.
  unfoldable pub authenticated : F W (Unit {0}) → F W FlowStatus
  authenticated m = do open_and_authenticate card fs rounds false; m; reply []

  unfoldable pub unpair_this_flow : F W FlowStatus
  unpair_this_flow = do
    open_and_authenticate card fs rounds true
    unpair_current_flow card
    set_card add_slot
    gets (λ s. with_slots s.card_info)

  -- The loop of `unpairOthersFlow`; a nil `PairingInfo` is a panic.
  unfoldable pub unpair_unless : ℕ → Option ℕ → F W (Unit {0})
  unpair_unless i none = crash
  unpair_unless i (some index) = if i == index then pure tt else unpair_flow card i

  unfoldable pub unpair_all : List ℕ → F W (Unit {0})
  unfolding unpair_unless
  unpair_all [] = pure tt
  unpair_all (i ∷ is) =
      let rest = unpair_all is in gets (λ s. s.paired_at) >>= λ index. unpair_unless i index >> rest

  -- `MaxFreeSlots` is 5.
  unfoldable pub unpair_others_flow : F W FlowStatus
  unfolding unpair_all
  unpair_others_flow = do
    open_and_authenticate card fs rounds true
    unpair_all (0 ∷ 1 ∷ 2 ∷ 3 ∷ 4 ∷ [])
    gets (λ s. with_slots s.card_info)

  unfoldable pub delete_unpair_flow : F W FlowStatus
  delete_unpair_flow = do
    open_and_authenticate card fs rounds true
    remove_key_flow card
    set_card (λ c. record c { key_uid = [] })
    unpair_current_flow card
    set_card add_slot
    gets (λ s. with_slots s.card_info)

  -- The loop over `m.Wallets`.
  unfoldable pub resolve : List Wallet → F W (List Wallet)
  resolve [] = pure []
  resolve (w ∷ ws) =
      let rest = resolve ws in
      export_key_flow card w.path true >>= λ k.
      rest >>= λ done. pure (record w { address = k.address; public_key = k.public_key } ∷ done)

  unfoldable pub resolved : Metadata → F W FlowStatus
  unfolding master_address resolve
  resolved m = do
    start ← reply []
    open_and_authenticate card fs rounds false
    result ← master_address start
    wallets ← resolve m.wallets
    pure ((Keys.card_meta, card_metadata (record m { wallets = wallets })) ∷ result)

  unfoldable pub metadata_flow : F W FlowStatus
  unfolding resolved
  metadata_flow = do
    m ← get_metadata_flow card
    wanted ← flag Keys.resolve_addr
    no_keys ← gets (λ s. text_eq s.card_info.key_uid [])
    if not wanted
        then reply ((Keys.card_meta, card_metadata m) ∷ [])
        else if no_keys
        then reply
            ((Keys.error, text Messages.error_no_keys) ∷ (Keys.card_meta, card_metadata m) ∷ [])
        else resolved m

  -- The switch of `connectedFlow`.
  unfoldable pub flow_of : Option FlowType → F W FlowStatus
  unfolding app_info_flow export_keys_flow export_public_flow load_keys_flow sign_flow authenticated
      unpair_this_flow unpair_others_flow delete_unpair_flow metadata_flow
  flow_of none = fail (Fault.error (own (message Messages.error_unknown_flow)))
  flow_of (some get_app_info) = app_info_flow
  flow_of (some recover_account) = export_keys_flow true
  flow_of (some login) = export_keys_flow false
  flow_of (some export_public) = export_public_flow
  flow_of (some load_account) = load_keys_flow
  flow_of (some sign_tx) = sign_flow
  flow_of (some change_pin) = authenticated (change_pin_flow card)
  flow_of (some change_puk) = authenticated (change_puk_flow card)
  flow_of (some change_pairing) = authenticated (change_pairing_flow card)
  flow_of (some unpair_this) = unpair_this_flow
  flow_of (some unpair_others) = unpair_others_flow
  flow_of (some delete_account_and_unpair) = delete_unpair_flow
  flow_of (some store_metadata) = authenticated (store_metadata_flow card)
  flow_of (some get_metadata) = metadata_flow
