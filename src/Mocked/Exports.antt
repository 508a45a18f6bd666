-- ===== src/Mocked/Exports.antt =====
-- pkg/flow/mocked: the handlers of the export of keys and of the metadata of the card.
use status_keycard_go.Prelude.{
  ℕ, ◌+◌, Bool, true, not, Option, none, some, List, [], ◌∷◌, map, if◌then◌else◌, ◌==◌, Text, Bytes,
}
use status_keycard_go.Prelude.Dict.{insert}
use status_keycard_go.Internal.Types.{KeyPair, Metadata, Wallet}
use status_keycard_go.Flow.Values.{Value, text, array, key, keys, card_metadata, swap_card}
use status_keycard_go.Flow.Keys
use status_keycard_go.Flow.Messages
use status_keycard_go.Mocked.Cards.{is_blank, Keycard, itoa, padded, address_of}
use status_keycard_go.Mocked.Machine.{
  Host, bad_type, M, pure, crash, ◌>>=◌, ◌>>◌, inserted, put_inserted, helper, put_helper, param,
  bool_param, ask, finish, exported, put_exported, make_map, rand_intn,
}
use status_keycard_go.Mocked.Credentials.{
  FlowStatus, with_error, with_slots, identity, lacks_keys, Entered, Tried, renewed,
  with_tried_error, swap_foreign, swap_empty, authenticated,
}

-- `len(b) == 0`, for a slice that may be nil.
abbrev pub no_bytes : Option Bytes → Bool
no_bytes none = true
no_bytes (some b) = is_blank b

abbrev pub filled_private : ℕ → Bool → Bytes → Bytes
filled_private n export_private k =
    if not export_private then [] else if is_blank k then padded 64 (itoa n) else k

-- What an export makes of the key pair at a path, at the place n of the paths, from 1. (The text for
-- one path alone has the digits written out: they are those of the place 1.)
unfoldable pub filled : ℕ → Bool → KeyPair → KeyPair
filled n export_private k = record k {
  address = if is_blank k.address then address_of n else k.address;
  public_key = if no_bytes k.public_key then some (padded 130 (itoa n)) else k.public_key;
  private_key = filled_private n export_private k.private_key;
}

module _ {W : Type 0} where
  -- The pair is changed in the map as well.
  unfoldable pub export_at : ℕ → Bool → Text → M W KeyPair
  export_at n export_private path = do
    h ← helper
    k ← exported h path
    put_exported h path (filled n export_private k)
    pure (filled n export_private k)

  -- `path.(string)`
  unfoldable pub export_place : ℕ → Bool → Option Text → M W KeyPair
  unfolding export_at
  export_place n export_private none = crash bad_type
  export_place n export_private (some path) = export_at n export_private path

  unfoldable pub export_all : ℕ → Bool → List (Option Text) → M W (List KeyPair)
  unfolding export_place
  export_all n export_private [] = pure []
  export_all n export_private (path ∷ paths) =
      let rest = export_all (n + 1) export_private paths in
      export_place n export_private path >>= λ k. rest >>= λ ks. pure (k ∷ ks)

  abbrev pub with_new_map : Keycard → M W (Unit {0})
  with_new_map h = make_map >>= λ m. put_helper (record h { exported_key = some m })

  -- `if mkf.insertedKeycardHelper.ExportedKey == nil`
  unfoldable pub ensure_map : M W (Unit {0})
  ensure_map = do h ← helper; elim h.exported_key [ none ↦ with_new_map h | some _ ↦ pure tt ]

  unfoldable pub export_value : Bool → FlowStatus → Value → M W FlowStatus
  unfolding export_at export_all
  export_value export_private status (text path) = do
    k ← export_at 1 export_private path
    pure (insert Keys.exported_key (key k) status)
  export_value export_private status (array paths) = do
    ks ← export_all 1 export_private paths
    pure (insert Keys.exported_key (keys ks) status)
  export_value export_private status v = pure status

  unfoldable pub export_paths : Bool → FlowStatus → Option Value → M W FlowStatus
  unfolding ensure_map export_value
  export_paths export_private status none = pure status
  export_paths export_private status (some v) = ensure_map >> export_value export_private status v

module _ {W : Type 0} (host : Host W) where
  -- `mkf.insertedKeycardHelper.MasterKeyAddress`, made up where it is empty.
  unfoldable pub master_address : M W Text
  master_address = do
    h ← helper
    if is_blank h.master_key_address
        then (rand_intn host 100 >>= λ i.
            put_helper (record h { master_key_address = address_of (i + 100) })
            >> pure (address_of (i + 100)))
        else pure h.master_key_address

  unfoldable pub with_master : Bool → FlowStatus → M W FlowStatus
  unfolding master_address
  with_master export_master status =
      if export_master
      then (master_address >>= λ a. pure (insert Keys.master_addr (text a) status))
      else pure status

  unfoldable pub export_flags : M W (Bool × Bool)
  export_flags = do
    export_master ← bool_param Keys.export_master
    export_private ← bool_param Keys.export_priv
    pure (export_master, export_private)

  -- What `handleExportPublicFlow` does behind the tests.
  unfoldable pub deliver_export : FlowStatus → Bool × Bool → Entered → Tried → M W (Unit {0})
  unfolding with_master export_paths
  deliver_export status (export_master, export_private) e t = do
    put_inserted (renewed e t.card)
    s ← with_master export_master (with_tried_error t.error status)
    path ← param Keys.bip44_path
    s' ← export_paths export_private s path
    finish s'

  -- `handleExportPublicFlow`
  unfoldable pub handle_export_public : M W (Unit {0})
  unfolding swap_foreign swap_empty export_flags deliver_export
  handle_export_public = do
    c ← inserted
    if c.not_status_keycard
        then swap_foreign
        else if lacks_keys c
        then swap_empty (identity c)
        else authenticated export_flags (deliver_export (identity c)) (identity c)

  -- What `handleGetMetadataFlow` does behind the tests.
  unfoldable pub deliver_metadata : FlowStatus → Bool → Entered → Tried → M W (Unit {0})
  unfolding with_master
  deliver_metadata status export_master e t = do
    s ← with_master export_master (with_tried_error t.error status)
    c ← inserted
    put_inserted (renewed e c)
    c' ← inserted
    finish (insert Keys.card_meta (card_metadata c'.metadata) (with_error [] s))

  abbrev pub public_wallet : Wallet → Wallet
  public_wallet w = record { path = w.path; address = []; public_key = none }

  abbrev pub public_metadata : Metadata → Metadata
  public_metadata m = record { name = m.name; wallets = map public_wallet m.wallets }

  -- With the addresses, behind the tests of PIN and PUK; otherwise the names and paths alone.
  unfoldable pub metadata_of : Keycard → Bool → M W (Unit {0})
  unfolding deliver_metadata
  metadata_of c resolve =
      if resolve
      then (if c.free_pairing_slots == 0
          then ask swap_card
              (with_slots c.free_pairing_slots (with_error Keys.free_slots (identity c)))
          else authenticated (bool_param Keys.export_master) (deliver_metadata (identity c))
              (identity c))
      else finish (insert Keys.card_meta (card_metadata (public_metadata c.metadata)) (identity c))

  -- `handleGetMetadataFlow`
  unfoldable pub handle_get_metadata : M W (Unit {0})
  unfolding swap_foreign metadata_of
  handle_get_metadata = do
    c ← inserted
    if c.not_status_keycard
        then swap_foreign
        else if lacks_keys c
        then finish ((Keys.error, text Messages.error_no_keys) ∷ [])
        else (bool_param Keys.resolve_addr >>= metadata_of c)
