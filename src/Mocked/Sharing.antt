-- ===== src/Mocked/Sharing.antt =====
-- The map of keys of `mockedKeycardHelper` is one object, which all copies of that variable share.
use status_keycard_go.Prelude.Int.{ℤ}
use status_keycard_go.Internal.Errors.{Error, Result, ok, err}
use status_keycard_go.Mocked.Storing.{saved_as, store_registered, allocated}
use status_keycard_go.Mocked.Control.{
  prepared, registered, reset_run, with_new_cards, register_keycard,
}
use status_keycard_go.Prelude.{
  ℕ, ◌+◌, ◌≡◌, ◌≢◌, ◌<◌, none, List, arith, refl, ap, ◌∙◌, Bool, true, false, Option, some, [],
  Text,
}
use status_keycard_go.Prelude.Dict.{lookup, insert, lookup-insert_self}
use status_keycard_go.Internal.Types.{KeyPair}
use status_keycard_go.Mocked.Cards.{
  padded, itoa, helper_map, Keycard, mocked_keycard_helper, ReaderState, KeycardState, custom,
  not_status_keycard, empty_keycard, max_pairing_slots_reached, max_pin_retries_reached,
  max_puk_retries_reached, keycard_with_mnemonic_only, keycard_with_mnemonic_and_metadata,
}
use status_keycard_go.Mocked.Machine.{
  Heap, Host, MockedFlow, done, pure, helper, exported, put_exported, with_key, key_at,
}
use status_keycard_go.Mocked.Exports.{filled, export_at}
use status_keycard_go.Mocked.Steps.{>>=_lem, load_lem, update_self, update_other}

module _ {W : Type 0} (s : MockedFlow W) (q m : ℕ) (j : s.inserted_keycard_helper ≡ some q)
    (k : (s.heap.cards q).exported_key ≡ some m) where
  found_lem :
      (path : Text)
      → exported (s.heap.cards q) path s ≡ done (key_at (lookup path (s.heap.maps m))) s
  unfolding exported
  found_lem path = rw k

  put_lem :
      (path : Text) (x : KeyPair)
      → put_exported (s.heap.cards q) path x s ≡ done tt (with_key m path x s)
  unfolding put_exported
  put_lem path x = rw k

  export_lem :
      (n : ℕ) (b : Bool) (path : Text)
      → export_at n b path s
        ≡ done
            (filled n b (key_at (lookup path (s.heap.maps m))))
            (with_key m path (filled n b (key_at (lookup path (s.heap.maps m)))) s)
  unfolding export_at pure
  export_lem n b path =
      >>=_lem helper _ (load_lem (λ s. s.inserted_keycard_helper) s j)
      ∙ >>=_lem (exported (s.heap.cards q) path) _ (found_lem path)
      ∙ >>=_lem
          (put_exported (s.heap.cards q) path (filled n b (key_at (lookup path (s.heap.maps m))))) _
          (put_lem path (filled n b (key_at (lookup path (s.heap.maps m)))))

  -- The key pair that stands at the path afterwards.
  stored_lem :
      (n : ℕ) (b : Bool) (path : Text)
      → lookup path
          ((with_key m path (filled n b (key_at (lookup path (s.heap.maps m)))) s).heap.maps m)
        ≡ some (filled n b (key_at (lookup path (s.heap.maps m))))
  stored_lem n b path =
      rw
        (update_self s.heap.maps m
          (insert path (filled n b (key_at (lookup path (s.heap.maps m)))) (s.heap.maps m)))
        (lookup-insert_self path _ (s.heap.maps m))

made_up :
    (n : ℕ) (x : KeyPair) → x.private_key ≡ [] → (filled n true x).private_key ≡ padded 64 (itoa n)
unfolding filled
made_up n x h = rw h

no_private : (n : ℕ) (x : KeyPair) → (filled n false x).private_key ≡ []
unfolding filled
no_private n x = refl

-- An export of the private key at a path by the helper at another address, from a state.
pub record MadeUp {W : Type 0} (q' n' : ℕ) (path : Text) (t : MockedFlow W) : Type 0 where
  pub key : KeyPair
  pub rest : MockedFlow W
  pub exports :
      export_at n' true path (record t { inserted_keycard_helper = some q' }) ≡ done key rest
  pub invented : key.private_key ≡ padded 64 (itoa n')

-- Let two helpers have one map of keys. If the one at q exports a path without its private key, then the
-- next export of the path with its private key, by the one at q', gives a made-up key.
export_at-MadeUp :
    {W : Type 0} (s : MockedFlow W) (q q' m n n' : ℕ) (path : Text)
    → s.inserted_keycard_helper ≡ some q
    → (s.heap.cards q).exported_key ≡ some m
    → (s.heap.cards q').exported_key ≡ some m
    → (k : KeyPair) × (t : MockedFlow W) × (export_at n false path s ≡ done k t)
      × MadeUp q' n' path t
export_at-MadeUp s q q' m n n' path j h h' =
    let x : KeyPair = key_at (lookup path (s.heap.maps m)) in
    let t : MockedFlow _ = with_key m path (filled n false x) s in
    let u : MockedFlow _ = record t { inserted_keycard_helper = some q' } in
    let y : KeyPair = key_at (lookup path (u.heap.maps m)) in
    (
      filled n false x,
      t,
      export_lem s q m j h n false path,
      record {
        key = filled n' true y;
        rest = with_key m path (filled n' true y) u;
        exports = export_lem u q' m refl h' n' true path;
        invented = made_up n' y (
            ap (λ (o : Option KeyPair). (key_at o).private_key) (stored_lem s q m j h n false path)
            ∙ no_private n x);
      },
    )

-- The helper that a registration makes has the map of the variable.
shared_map :
    (c : Keycard) (h : Heap)
    → ((allocated mocked_keycard_helper (allocated c h)).cards (h.next_card + 1)).exported_key
      ≡ some helper_map
unfolding mocked_keycard_helper
shared_map c h =
    ap (λ (d : Keycard). d.exported_key)
      (update_self (allocated c h).cards (h.next_card + 1) mocked_keycard_helper)

older :
    (c : Keycard) (h : Heap) (x : ℕ)
    → x < h.next_card
    → (allocated mocked_keycard_helper (allocated c h)).cards x ≡ h.cards x
older c h x l =
    update_other (allocated c h).cards (h.next_card + 1) mocked_keycard_helper x (omega (arith, l))
    ∙ update_other h.cards h.next_card c x (omega (arith, l))

module _ {W : Type 0} (host : Host W) where
  registered_lem :
      (i : ℤ) (r : ReaderState) (c : KeycardState) (x y : Option ℕ) (s : MockedFlow W)
      → c ≢ custom
      → register_keycard host i r c x y s
        ≡ registered host (store_registered host (with_new_cards i r (prepared c) (reset_run s)))
  unfolding register_keycard
  registered_lem i r custom x y s n = absurd (n refl)
  registered_lem i r not_status_keycard x y s n = refl
  registered_lem i r empty_keycard x y s n = refl
  registered_lem i r max_pairing_slots_reached x y s n = refl
  registered_lem i r max_pin_retries_reached x y s n = refl
  registered_lem i r max_puk_retries_reached x y s n = refl
  registered_lem i r keycard_with_mnemonic_only x y s n = refl
  registered_lem i r keycard_with_mnemonic_and_metadata x y s n = refl

  -- The memory and the helper are as they were.
  Same : MockedFlow W → MockedFlow W → Type 0
  Same s t = (t.heap ≡ s.heap) × (t.inserted_keycard_helper ≡ s.inserted_keycard_helper)

  saved-Same : (b : Result (List ℕ)) (s : MockedFlow W) → Same s (saved_as host b s).1
  unfolding Same
  saved-Same (err e) s = (refl, refl)
  saved-Same (ok b) s = (refl, refl)

  registered-Same :
      (p : Option Error × MockedFlow W) (s : MockedFlow W)
      → Same s p.1
      → Same s (registered host p).1
  registered-Same (none, t) s h = h
  registered-Same (some e, t) s h = h

  register-Same :
      (i : ℤ) (r : ReaderState) (c : KeycardState) (x y : Option ℕ) (s : MockedFlow W)
      → c ≢ custom
      → Same (with_new_cards i r (prepared c) (reset_run s)) (register_keycard host i r c x y s).1
  unfolding store_registered
  register-Same i r c x y s n =
      let u : MockedFlow W = with_new_cards i r (prepared c) (reset_run s) in
      rw (registered_lem i r c x y s n)
        (registered-Same (store_registered host u) u (saved-Same _ u))

  -- Register two cards, each with a state other than the custom one, in any state of the mock. Their
  -- helpers are two objects. If then the helper of the first card exports a path without its private
  -- key, the next export of the path with its private key, by the helper of the second, gives a key
  -- that is made up from the place of the path, whichever private key was there.
  pub register_keycard-MadeUp :
      (i j : ℤ) (r r' : ReaderState) (c c' : KeycardState) (s : MockedFlow W)
      → c ≢ custom
      → c' ≢ custom
      → (a : ℕ) × (b : ℕ) × (a ≢ b)
        × ((register_keycard host i r c none none s).1.inserted_keycard_helper ≡ some a)
        × ((register_keycard host j r' c' none none
              (register_keycard host i r c none none s).1).1.inserted_keycard_helper
            ≡ some b)
        × ((n n' : ℕ) (path : Text)
            → (k : KeyPair) × (t : MockedFlow W) × (export_at n false path
                  (record (register_keycard host j r' c' none none
                    (register_keycard host i r c none none s).1).1 {
                      inserted_keycard_helper = some a;
                    })
                ≡ done k t)
              × MadeUp b n' path t)
  unfolding Same mocked_keycard_helper
  register_keycard-MadeUp i j r r' c c' s n n' =
      let t : MockedFlow W = (register_keycard host i r c none none s).1 in
      let u : MockedFlow W = (register_keycard host j r' c' none none t).1 in
      let (h, k) = register-Same i r c none none s n in
      let (h', k') = register-Same j r' c' none none t n' in
      let a : ℕ = s.heap.next_card + 1 in
      let b : ℕ = t.heap.next_card + 1 in
      let more : t.heap.next_card ≡ s.heap.next_card + 2 =
        ap (λ (m : Heap). m.next_card) h ∙ omega arith in
      let x : (t.heap.cards a).exported_key ≡ some helper_map =
        ap (λ (m : Heap). (m.cards a).exported_key) h ∙ shared_map (prepared c) s.heap in
      let x' : (u.heap.cards a).exported_key ≡ some helper_map =
        ap (λ (m : Heap). (m.cards a).exported_key) h'
        ∙ ap (λ (d : Keycard). d.exported_key) (older (prepared c') t.heap a (omega (arith, more)))
        ∙ x in
      let y : (u.heap.cards b).exported_key ≡ some helper_map =
        ap (λ (m : Heap). (m.cards b).exported_key) h' ∙ shared_map (prepared c') t.heap in
      (
        a,
        b,
        λ e. omega (arith, e, more),
        k,
        k',
        λ p p' path.
            export_at-MadeUp (record u { inserted_keycard_helper = some a }) a b helper_map p p'
              path refl x' y,
      )
