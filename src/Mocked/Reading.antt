-- ===== src/Mocked/Reading.antt =====
-- The cards of the mock, written to their file and read from it again.
use status_keycard_go.Prelude.{
  ℕ, ◌<◌, ◌≤◌, ◌≡◌, refl, ap, sym, ◌∙◌, true, false, ==_iff, Bool-cases, inl, inr, if◌then◌else◌,
  Option, none, some, List, [], ◌∷◌, arith, Text,
}
use status_keycard_go.Prelude.Int.{ℤ, pos, negsuc}
use status_keycard_go.Prelude.Dict.{Dict}
use status_keycard_go.Internal.Types.{KeyPair}
use status_keycard_go.Mocked.Cards.{Keycard, Stored}
use status_keycard_go.Internal.Errors.{Error, Result, ok, err}
use status_keycard_go.Pairing.{contents}
use status_keycard_go.Mocked.Machine.{Heap, Cards, Host, MockedFlow}
use status_keycard_go.Mocked.Storing.{
  allocated, map_saved, card_saved, cards_saved, map_read, in_memory, card_read, cards_read, int_eq,
  card_of, put_card, put_cards, store_registered, saved_as, loaded_from, load_registered,
}
use status_keycard_go.Mocked.Steps.{update_self, update_other}

-- A memory with more objects: those that were there are as they were.
record Later (h g : Heap) : Type 0 where
  cards_more : h.next_card ≤ g.next_card
  maps_more : h.next_map ≤ g.next_map
  cards : (p : ℕ) → p < h.next_card → g.cards p ≡ h.cards p
  maps : (m : ℕ) → m < h.next_map → g.maps m ≡ h.maps m

Later-trans : (h g f : Heap) → Later h g → Later g f → Later h f
Later-trans h g f a b = record {
  cards_more = omega (arith, a.cards_more, b.cards_more);
  maps_more = omega (arith, a.maps_more, b.maps_more);
  cards = λ p l. b.cards p (omega (arith, a.cards_more)) ∙ a.cards p l;
  maps = λ m l. b.maps m (omega (arith, a.maps_more)) ∙ a.maps m l;
}

Later-refl : (h : Heap) → Later h h
Later-refl h = record {
  cards_more = omega arith;
  maps_more = omega arith;
  cards = λ p l. refl;
  maps = λ m l. refl;
}

allocated-Later : (c : Keycard) (h : Heap) → Later h (allocated c h)
allocated-Later c h = record {
  cards_more = omega arith;
  maps_more = omega arith;
  cards = λ p l. update_other h.cards h.next_card c p (omega (arith, l));
  maps = λ m l. refl;
}

map_read-Later : (o : Option (Dict KeyPair)) (h : Heap) → Later h (map_read o h).1
unfolding map_read
map_read-Later none h = Later-refl h
map_read-Later (some m) h = record {
  cards_more = omega arith;
  maps_more = omega arith;
  cards = λ p l. refl;
  maps = λ n l. update_other h.maps h.next_map m n (omega (arith, l));
}

card_read-Later : (c : Stored) (h : Heap) → Later h (card_read c h).1
unfolding card_read
card_read-Later c h =
    Later-trans h (map_read c.exported_key h).1 _ (map_read-Later c.exported_key h)
      (allocated-Later _ (map_read c.exported_key h).1)

cards_read-Later : (l : Cards Stored) (h : Heap) → Later h (cards_read l h).1
unfolding cards_read
cards_read-Later [] h = Later-refl h
cards_read-Later ((i, none) ∷ l) h = cards_read-Later l h
cards_read-Later ((i, some c) ∷ l) h =
    Later-trans h (card_read c h).1 _ (card_read-Later c h) (cards_read-Later l (card_read c h).1)

-- A map that was read is there, in each later memory.
map_read_lem :
    (o : Option (Dict KeyPair)) (h f : Heap)
    → Later (map_read o h).1 f
    → map_saved (map_read o h).0 f ≡ o
unfolding map_read
map_read_lem none h f v = refl
map_read_lem (some m) h f v =
    ap some (v.maps h.next_map (omega arith) ∙ update_self h.maps h.next_map m)

saved_in_memory :
    (c : Stored) (m : Option ℕ) (f : Heap)
    → map_saved m f ≡ c.exported_key
    → card_saved f (in_memory c m) ≡ c
unfolding card_saved in_memory
saved_in_memory c m f e = λ i. record c { exported_key = e i }

card_read_lem :
    (c : Stored) (h f : Heap)
    → Later (card_read c h).1 f
    → card_saved f (f.cards (card_read c h).0) ≡ c
unfolding card_read
card_read_lem c h f v =
    let (m, g) = map_read c.exported_key h in
    let k : Keycard = in_memory c m in
    let w : Later g f = Later-trans g (allocated k g) f (allocated-Later k g) v in
    ap (card_saved f) (v.cards g.next_card (omega arith) ∙ update_self g.cards g.next_card k)
    ∙ saved_in_memory c m f (map_read_lem c.exported_key h f w)

cards_read_lem :
    (l : Cards Stored) (h f : Heap)
    → Later (cards_read l h).1 f
    → cards_saved f (cards_read l h).0 ≡ l
unfolding cards_read cards_saved
cards_read_lem [] h f v = refl
cards_read_lem ((i, none) ∷ l) h f v =
    ap (λ (t : Cards Stored). (i, none) ∷ t) (cards_read_lem l h f v)
cards_read_lem ((i, some c) ∷ l) h f v =
    let g : Heap = (card_read c h).1 in
    let head : card_saved f (f.cards (card_read c h).0) ≡ c =
      card_read_lem c h f (Later-trans g (cards_read l g).1 f (cards_read-Later l g) v) in
    λ j. (i, some (head j)) ∷ cards_read_lem l g f v j

int_eq-eq : (a b : ℤ) → int_eq a b ≡ true → a ≡ b
unfolding int_eq
int_eq-eq (pos a) (pos b) h = ap pos ((==_iff a b).0 h)
int_eq-eq (negsuc a) (negsuc b) h = ap negsuc ((==_iff a b).0 h)
int_eq-eq (pos a) (negsuc b) h = cc h
int_eq-eq (negsuc a) (pos b) h = cc h

int_eq_refl : (a : ℤ) → int_eq a a ≡ true
unfolding int_eq
int_eq_refl (pos a) = (==_iff a a).1 refl
int_eq_refl (negsuc a) = (==_iff a a).1 refl

apart : (k i j : ℤ) → k ≡ i → int_eq k j ≡ false → int_eq j i ≡ false
apart k i j e h = elim (Bool-cases (int_eq j i)) [
  | inl q ↦
      let d : k ≡ j = e ∙ sym (int_eq-eq j i q) in
      let t : int_eq j j ≡ false = rw d at h in cc (t, int_eq_refl j)
  | inr q ↦ q
]

-- What a map holds at a number, once another value was put into it.
card_of-put_card :
    {A : Type 0} (i j : ℤ) (c : Option A) (m : Cards A)
    → card_of i (put_card j c m) ≡ (if int_eq j i then c else card_of i m)
unfolding card_of put_card
card_of-put_card i j c [] = refl
card_of-put_card i j c ((k, d) ∷ m) = elim (Bool-cases (int_eq k j)) [
  | inl h ↦
      let e : k ≡ j = int_eq-eq k j h in
      rw h (elim (Bool-cases (int_eq j i)) [ inl q ↦ rw q refl | inr q ↦ rw (e, q) refl ])
  | inr h ↦ rw h (elim (Bool-cases (int_eq k i)) [
    | inl q ↦ let e : k ≡ i = int_eq-eq k i q in rw (q, apart k i j e h) refl
    | inr q ↦ rw q (card_of-put_card i j c m)
  ])
]

card_of-put_cards : {A : Type 0} (i : ℤ) (l : Cards A) → card_of i (put_cards l []) ≡ card_of i l
unfolding card_of put_cards
card_of-put_cards i [] = refl
card_of-put_cards i ((j, c) ∷ l) =
    card_of-put_card i j c (put_cards l [])
    ∙ ap (λ (x : Option _). if int_eq j i then c else x) (card_of-put_cards i l)

abbrev saved_at : Heap → Option ℕ → Option Stored
saved_at f none = none
saved_at f (some p) = some (card_saved f (f.cards p))

cards_saved-cons :
    (f : Heap) (k : ℤ) (d : Option ℕ) (m : Cards ℕ)
    → cards_saved f ((k, d) ∷ m) ≡ (k, saved_at f d) ∷ cards_saved f m
unfolding cards_saved
cards_saved-cons f k none m = refl
cards_saved-cons f k (some p) m = refl

cards_saved-put_card :
    (f : Heap) (j : ℤ) (p : Option ℕ) (m : Cards ℕ)
    → cards_saved f (put_card j p m) ≡ put_card j (saved_at f p) (cards_saved f m)
unfolding put_card cards_saved
cards_saved-put_card f j p [] = cards_saved-cons f j p []
cards_saved-put_card f j p ((k, d) ∷ m) =
    let tail : cards_saved f ((k, d) ∷ put_card j p m)
        ≡ (k, saved_at f d) ∷ put_card j (saved_at f p) (cards_saved f m) =
      cards_saved-cons f k d (put_card j p m)
      ∙ ap (λ (t : Cards Stored). (k, saved_at f d) ∷ t) (cards_saved-put_card f j p m) in
    rw (cards_saved-cons f k d m) (elim (Bool-cases (int_eq k j)) [
      | inl h ↦ rw h (cards_saved-cons f j p m)
      | inr h ↦ rw h tail
    ])

cards_saved-put_cards :
    (f : Heap) (l : Cards ℕ) → cards_saved f (put_cards l []) ≡ put_cards (cards_saved f l) []
unfolding cards_saved put_cards
cards_saved-put_cards f [] = refl
cards_saved-put_cards f ((i, none) ∷ l) =
    cards_saved-put_card f i none (put_cards l [])
    ∙ ap (put_card i none) (cards_saved-put_cards f l)
cards_saved-put_cards f ((i, some p) ∷ l) =
    cards_saved-put_card f i (some p) (put_cards l [])
    ∙ ap (put_card i (some (card_saved f (f.cards p)))) (cards_saved-put_cards f l)

read_at :
    (l : Cards Stored) (h f : Heap) (i : ℤ)
    → Later (cards_read l h).1 f
    → card_of i (cards_saved f (put_cards (cards_read l h).0 [])) ≡ card_of i l
read_at l h f i v =
    ap (card_of i) (
      cards_saved-put_cards f (cards_read l h).0
      ∙ ap (λ m. put_cards m []) (cards_read_lem l h f v))
    ∙ card_of-put_cards i l

-- What a mock is, once it has read two maps of cards.
ReadsAs : {W : Type 0} → Cards Stored × Cards Stored → Option Error × MockedFlow W → Type 0
ReadsAs (cards, helpers) (e, s) =
    (e ≡ none)
    × ((i : ℤ) → card_of i (cards_saved s.heap s.registered_keycards) ≡ card_of i cards)
    × ((i : ℤ) → card_of i (cards_saved s.heap s.registered_keycard_helpers) ≡ card_of i helpers)

loaded_from_lem :
    {W : Type 0} (host : Host W) (u : MockedFlow W) (x : List ℕ) (b : Cards Stored × Cards Stored)
    → host.unmarshal_cards x ≡ (b, none)
    → u.registered_keycards ≡ []
    → u.registered_keycard_helpers ≡ []
    → ReadsAs b (loaded_from host (contents x) u)
unfolding loaded_from ReadsAs
loaded_from_lem host u x (cards, helpers) k n n' =
    let g : Heap = (cards_read cards u.heap).1 in
    let f : Heap = (cards_read helpers g).1 in
    rw (k, n, n')
      (
        refl,
        (λ i. read_at cards u.heap f i (cards_read-Later helpers g)),
        (λ i. read_at helpers g f i (Later-refl f)),
      )

saved_as_lem :
    {W : Type 0} (host : Host W) (s u : MockedFlow W) (b : Cards Stored × Cards Stored)
    (r : Result (List ℕ))
    → ((x : List ℕ) → r ≡ ok x → host.unmarshal_cards x ≡ (b, none))
    → ((path : Text) (b : List ℕ) (w : W)
        → (host.fs.write_file path b w).0 ≡ none
        → host.fs.read_file path (host.fs.write_file path b w).1 ≡ contents b)
    → (saved_as host r s).0 ≡ none
    → u.store_file_path ≡ s.store_file_path
    → u.world ≡ (saved_as host r s).1.world
    → u.registered_keycards ≡ []
    → u.registered_keycard_helpers ≡ []
    → ReadsAs b (load_registered host u)
unfolding load_registered
saved_as_lem host s u b (err e) codec file stored path world n n' = cc
saved_as_lem host s u b (ok x) codec file stored path world n n' =
    let e : host.fs.read_file u.store_file_path u.world ≡ contents x =
      ap (λ t. host.fs.read_file t u.world) path
      ∙ ap (host.fs.read_file s.store_file_path) world
      ∙ file s.store_file_path x s.world stored in
    rw e (loaded_from_lem host u x b (codec x refl) n n')

-- Let the encoding of the cards of s, if there is one, be decoded to them, and let a file that was
-- written without an error be read as it was written. If the mock s has stored its cards without an
-- error, then a mock u with the same file and no cards, as NewMockedFlow makes it, reads them without
-- an error: at each number, its card and its helper are those of s, maps of keys included, and where s
-- has none there is none. Nothing is asked of the other objects in its memory.
pub load_registered-store_registered :
    {W : Type 0} (host : Host W) (s u : MockedFlow W)
    → ((x : List ℕ)
        → host.marshal_cards (
          cards_saved s.heap s.registered_keycards,
          cards_saved s.heap s.registered_keycard_helpers,
        )
          ≡ ok x
        → host.unmarshal_cards x ≡ (
          (
            cards_saved s.heap s.registered_keycards,
            cards_saved s.heap s.registered_keycard_helpers,
          ),
          none,
        ))
    → ((path : Text) (b : List ℕ) (w : W)
        → (host.fs.write_file path b w).0 ≡ none
        → host.fs.read_file path (host.fs.write_file path b w).1 ≡ contents b)
    → (store_registered host s).0 ≡ none
    → u.store_file_path ≡ s.store_file_path
    → u.world ≡ (store_registered host s).1.world
    → u.registered_keycards ≡ []
    → u.registered_keycard_helpers ≡ []
    → ((load_registered host u).0 ≡ none)
      × ((i : ℤ)
          → card_of i (
              cards_saved
                (load_registered host u).1.heap
                (load_registered host u).1.registered_keycards)
            ≡ card_of i (cards_saved s.heap s.registered_keycards))
      × ((i : ℤ)
          → card_of i (
              cards_saved
                (load_registered host u).1.heap
                (load_registered host u).1.registered_keycard_helpers)
            ≡ card_of i (cards_saved s.heap s.registered_keycard_helpers))
unfolding store_registered ReadsAs
load_registered-store_registered host s u codec file stored path world n n' =
    let b : Cards Stored × Cards Stored =
      (cards_saved s.heap s.registered_keycards, cards_saved s.heap s.registered_keycard_helpers) in
    saved_as_lem host s u b (host.marshal_cards b) codec file stored path world n n'
