-- ===== src/Context/Data.antt =====
-- The metadata on the card: `GetMetadata`, `StoreMetadata` and `parsePaths`.
use status_keycard_go.Prelude.{
  ℕ, not, Option, none, some, List, [], ◌∷◌, if◌then◌else◌, Text, Bytes, has_prefix, codes,
}
use status_keycard_go.Internal.Errors.{
  Error, Result, ok, err, own, wrap, path_outside, parsing_metadata, parsing_path,
  creating_metadata,
}
use status_keycard_go.Internal.Types.{CardMetadata, Metadata}
use status_keycard_go.Internal.Convert.{to_metadata}
use status_keycard_go.Internal.Status.{connection_error}
use status_keycard_go.Card.{Card}
use status_keycard_go.Context.Machine.{
  M, pure, ◌>>=◌, ◌>>◌, update_status, set_state, crash, command, with_mutex, publish_status,
}
use status_keycard_go.Context.Base.{keycard_initialized, keycard_authorized, check_scard_error}
use status_keycard_go.Context.Base.{guarded}

-- internal/const.go
abbrev pub wallet_root_path : Text
wallet_root_path = codes "m/44'/60'/0'/0"

-- `components[len(components)-1]`
unfoldable pub last : List ℕ → Option ℕ
last [] = none
last (x ∷ []) = some x
last (x ∷ y ∷ xs) = last (y ∷ xs)

module _ {W : Type 0} (card : Card W) where
  unfoldable pub read_metadata : Bytes → Option Metadata × Option Error
  read_metadata [] = (none, none)
  read_metadata (b ∷ bs) = elim (card.parse_metadata (b ∷ bs)) [
    | ok m ↦ (some (to_metadata card.encode_path m), none)
    | err e ↦ (none, some (wrap parsing_metadata e))
  ]

  unfoldable pub after_get_data : Result Bytes → M W (Option Metadata × Option Error)
  unfolding read_metadata
  after_get_data (ok bytes) = pure (read_metadata bytes)
  after_get_data (err e) = check_scard_error card (some e) >>= λ r. pure (none, r)

  unfoldable pub get_metadata : M W (Option Metadata × Option Error)
  unfolding after_get_data
  get_metadata =
      guarded keycard_initialized (λ e. (none, some e))
        (with_mutex (command card.get_data >>= after_get_data))

  unfoldable pub note_metadata : Option Metadata × Option Error → M W (Option Error)
  note_metadata (m, some e) = set_state connection_error >> pure (some e)
  note_metadata (m, none) = update_status (λ s. record s { metadata = m }) >> pure none

  unfoldable pub update_metadata : M W (Option Error)
  unfolding note_metadata
  update_metadata = get_metadata >>= note_metadata

  unfoldable pub component : Option ℕ → M W (Result ℕ)
  component none = crash
  component (some x) = pure (ok x)

  unfoldable pub last_component : Result (List ℕ) → M W (Result ℕ)
  unfolding component last
  last_component (err e) = pure (err (wrap parsing_path e))
  last_component (ok components) = component (last components)

  -- `parsePaths`; an empty list of components is an index out of range.
  unfoldable pub parse_path : Text → M W (Result ℕ)
  unfolding last_component
  parse_path path c =
      if not (has_prefix path wallet_root_path)
      then pure (err (own (path_outside path))) c
      else last_component (card.decode_path path) c

  unfoldable pub cons_result : ℕ → Result (List ℕ) → Result (List ℕ)
  cons_result x (ok xs) = ok (x ∷ xs)
  cons_result x (err e) = err e

  -- The rest of the loop behind one path.
  unfoldable pub with_rest : M W (Result (List ℕ)) → Result ℕ → M W (Result (List ℕ))
  unfolding cons_result
  with_rest rest (err e) = pure (err e)
  with_rest rest (ok x) = rest >>= λ xs. pure (cons_result x xs)

  unfoldable pub parse_paths : List Text → M W (Result (List ℕ))
  unfolding with_rest
  parse_paths [] = pure (ok [])
  parse_paths (path ∷ paths) = parse_path path >>= with_rest (parse_paths paths)

  unfoldable pub publish_unless : Option Error → M W (Option Error)
  publish_unless (some e) = pure (some e)
  publish_unless none = publish_status >> pure none

  -- The deferred function of `StoreMetadata`, which runs when the mutex is free again.
  unfoldable pub after_store : Option Error → M W (Option Error)
  unfolding publish_unless
  after_store (some e) = pure (some e)
  after_store none = update_metadata >>= publish_unless

  unfoldable pub store_created : Result CardMetadata → M W (Option Error)
  unfolding after_store
  store_created (err e) = pure (some (wrap creating_metadata e))
  store_created (ok m) =
      with_mutex (command (card.store_data (card.serialize m)) >>= check_scard_error card)
      >>= after_store

  unfoldable pub store_parsed : Text → Result (List ℕ) → M W (Option Error)
  unfolding store_created
  store_parsed name (err e) = pure (some e)
  store_parsed name (ok paths) = store_created (card.new_metadata name paths)

  unfoldable pub store_metadata : Text → List Text → M W (Option Error)
  unfolding store_parsed
  store_metadata name paths =
      guarded keycard_authorized some (parse_paths paths >>= store_parsed name)
