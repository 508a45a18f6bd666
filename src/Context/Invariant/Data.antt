-- ===== src/Context/Invariant/Data.antt =====
-- The methods on the metadata and the keys return, from every state of the invariant, and keep it.
use mathlib.Core.Path.{subst}
use status_keycard_go.Prelude.{
  sym, ℕ, ◌≡◌, ◌≢◌, refl, true, false, Option, none, some, List, [], ◌∷◌, Bool-cases, inl, inr,
  arith, Bytes, Text, is_some, has_prefix,
}
use status_keycard_go.Internal.Errors.{Error, Result, ok, err}
use status_keycard_go.Internal.Types.{Metadata, CardMetadata}
use status_keycard_go.Card.{Card}
use status_keycard_go.Context.Machine.{Context, M, ◌>>=◌, command, with_mutex, publish_status}
use status_keycard_go.Context.Base.{keycard_initialized, keycard_authorized, check_scard_error}
use status_keycard_go.Context.Data.{
  wallet_root_path, last, after_get_data, get_metadata, note_metadata, update_metadata, component,
  last_component, parse_path, with_rest, parse_paths, publish_unless, after_store, store_created,
  store_parsed, store_metadata,
}
use status_keycard_go.Context.Logic.{
  Ends, Inv, Keeps, Returns, guarded-Returns, bind-Returns, exchange-Returns, bind-Ends,
}
use status_keycard_go.Context.Invariant.{
  keycard_initialized_lem, keycard_authorized_lem, check_scard_error-Returns,
}

-- A path below the wallet root that decodes has a last component.
abbrev pub Decodes : {W : Type 0} → Card W → Type 0
Decodes card =
    (path : Text) (components : List ℕ)
    → has_prefix path wallet_root_path ≡ true
    → card.decode_path path ≡ ok components
    → components ≢ []

last-is_some : (xs : List ℕ) → xs ≢ [] → is_some (last xs) ≡ true
unfolding last
last-is_some [] n = absurd (n refl)
last-is_some (x ∷ []) n = refl
last-is_some (x ∷ y ∷ xs) n = last-is_some (y ∷ xs) (λ e. cc e)

module _ {W : Type 0} (card : Card W) where
  after_get_data-Returns :
      (r : Result Bytes) (c : Context W)
      → Inv true c
      → c.connected ≡ true
      → Returns true (after_get_data card r c)
  unfolding after_get_data
  after_get_data-Returns (ok b) c v h = v
  after_get_data-Returns (err e) c v h =
      ground (arith, check_scard_error-Returns card (some e) c v h)

  pub get_metadata-Keeps : Keeps false (get_metadata card)
  unfolding get_metadata
  get_metadata-Keeps c v =
      guarded-Returns keycard_initialized (λ e. (none, some e))
        (with_mutex (command card.get_data >>= after_get_data card)) c v
        λ pass.
          exchange-Returns card.get_data (after_get_data card) c v (keycard_initialized_lem c pass)
            (λ d w h. after_get_data-Returns _ d w h)

  note_metadata-Returns :
      (r : Option Metadata × Option Error) (c : Context W)
      → Inv false c
      → Returns false (note_metadata card r c)
  unfolding note_metadata
  note_metadata-Returns (m, none) c v = ground arith
  note_metadata-Returns (m, some e) c v = ground arith

  -- updateMetadata returns from every state of the invariant, whatever the card answers, and leaves
  -- a state of the invariant.
  pub update_metadata-Keeps : Keeps false (update_metadata card)
  unfolding update_metadata
  update_metadata-Keeps c v =
      bind-Returns (get_metadata card) (note_metadata card) c (get_metadata-Keeps c v)
        note_metadata-Returns

  component-Ends :
      (o : Option ℕ) (c : Context W) → is_some o ≡ true → Ends (λ _ d. d ≡ c) (component card o c)
  unfolding component
  component-Ends none c h = cc h
  component-Ends (some x) c h = refl

  last_component-Ends :
      (r : Result (List ℕ)) (c : Context W)
      → ((xs : List ℕ) → r ≡ ok xs → xs ≢ [])
      → Ends (λ _ d. d ≡ c) (last_component card r c)
  unfolding last_component
  last_component-Ends (err e) c h = refl
  last_component-Ends (ok xs) c h = component-Ends (last xs) c (last-is_some xs (h xs refl))

  -- Reading the paths changes nothing.
  parse_path-Ends :
      (path : Text) (c : Context W) → Decodes card → Ends (λ _ d. d ≡ c) (parse_path card path c)
  unfolding parse_path
  parse_path-Ends path c decodes = elim (Bool-cases (has_prefix path wallet_root_path)) [
    | inr p ↦ rw p refl
    | inl p ↦ rw p (last_component-Ends (card.decode_path path) c (λ xs. decodes path xs p))
  ]

  with_rest-Ends :
      (m : M W (Result (List ℕ))) (r : Result ℕ) (c : Context W)
      → Ends (λ _ d. d ≡ c) (m c)
      → Ends (λ _ d. d ≡ c) (with_rest card m r c)
  unfolding with_rest
  with_rest-Ends m (err e) c h = refl
  with_rest-Ends m (ok x) c h = bind-Ends (λ _ d. d ≡ c) (λ _ d. d ≡ c) m _ c h (λ xs d e. e)

  pub parse_paths-Ends :
      (paths : List Text) (c : Context W)
      → Decodes card
      → Ends (λ _ d. d ≡ c) (parse_paths card paths c)
  unfolding parse_paths
  parse_paths-Ends [] c decodes = refl
  parse_paths-Ends (path ∷ paths) c decodes =
      bind-Ends (λ _ d. d ≡ c) (λ _ d. d ≡ c) (parse_path card path) _ c
        (parse_path-Ends path c decodes)
        (λ r d e.
          subst (λ x. Ends (λ _ y. y ≡ c) (with_rest card (parse_paths card paths) r x)) (sym e)
            (with_rest-Ends (parse_paths card paths) r c (parse_paths-Ends paths c decodes)))

  publish_unless-Returns :
      (e : Option Error) (c : Context W) → Inv false c → Returns false (publish_unless card e c)
  unfolding publish_unless publish_status
  publish_unless-Returns none c v = ground arith
  publish_unless-Returns (some e) c v = v

  after_store-Returns :
      (e : Option Error) (c : Context W) → Inv false c → Returns false (after_store card e c)
  unfolding after_store
  after_store-Returns none c v =
      bind-Returns (update_metadata card) (publish_unless card) c (update_metadata-Keeps c v)
        publish_unless-Returns
  after_store-Returns (some e) c v = v

  store_created-Returns :
      (r : Result CardMetadata) (c : Context W)
      → Inv false c
      → c.connected ≡ true
      → Returns false (store_created card r c)
  unfolding store_created
  store_created-Returns (err e) c v h = v
  store_created-Returns (ok m) c v h =
      bind-Returns
        (with_mutex (command (card.store_data (card.serialize m)) >>= check_scard_error card))
        (after_store card) c
        (exchange-Returns (card.store_data (card.serialize m)) (check_scard_error card) c v h
          (λ d w e. check_scard_error-Returns card _ d w e))
        after_store-Returns

  store_parsed-Returns :
      (name : Text) (r : Result (List ℕ)) (c : Context W)
      → Inv false c
      → c.connected ≡ true
      → Returns false (store_parsed card name r c)
  unfolding store_parsed
  store_parsed-Returns name (err e) c v h = v
  store_parsed-Returns name (ok xs) c v h = store_created-Returns _ c v h

  -- StoreMetadata returns from every state of the invariant, on each path that is wrong and on each
  -- error of the card, and leaves a state of the invariant, if a path below the wallet root decodes
  -- to at least one component.
  pub store_metadata-Keeps :
      (name : Text) (paths : List Text)
      → Decodes card
      → Keeps false (store_metadata card name paths)
  unfolding store_metadata
  store_metadata-Keeps name paths decodes c v =
      guarded-Returns keycard_authorized some (parse_paths card paths >>= store_parsed card name) c
        v
        λ pass.
          bind-Ends (λ _ d. d ≡ c) (λ _ d. Inv false d) (parse_paths card paths)
            (store_parsed card name) c (parse_paths-Ends paths c decodes)
            (λ r d e.
              subst (λ x. Returns false (store_parsed card name r x)) (sym e)
                (store_parsed-Returns name r c v (keycard_authorized_lem c pass).0))
