-- ===== src/Keycard/Waiting.antt =====
-- The reader that `waitForCard` finds is one of the readers.
use status_keycard_go.Prelude.{
  ℕ, zero, suc, ◌+◌, ◌<◌, ◌≡◌, ◌≢◌, refl, Option, none, some, List, [], ◌∷◌, map, arith, length,
  get_elem?, Text,
}
use status_keycard_go.Internal.Errors.{Error}
use status_keycard_go.Internal.Readers.{ReadersStates, update}
use status_keycard_go.Card.{Card}
use status_keycard_go.Keycard.Life.{
  Found, found, failed, endless, Connected, panicked, present_from, unaware, after_change,
  unless_present, wait_rounds, wait_for_card, at_reader, card_opened, status_read, card_found,
  connect, released, run,
}

-- What PC/SC does: it writes into the states that it was given.
abbrev pub KeepsCount : {W : Type 0} → Card W → Type 0
KeepsCount {W} card =
    (rs : ReadersStates) (w : W) → length (card.get_status_change rs w).0.0 ≡ length rs

abbrev pub InRange : ℕ → Found → Type 0
InRange n (found i) = i < n
InRange n _ = Unit

present-InRange :
    (i : ℕ) (rs : ReadersStates) (j : ℕ) → present_from i rs ≡ some j → j < i + length rs
unfolding present_from
present-InRange i [] j e = cc e
present-InRange i (r ∷ rs) j e = ground (arith, present-InRange (suc i) rs j)

length-update : (rs : ReadersStates) → length (update rs) ≡ length rs
unfolding update
length-update [] = refl
length-update (r ∷ rs) = rw (length-update rs) refl

pub length-map : {A B : Type 0} (f : A → B) (xs : List A) → length (map f xs) ≡ length xs
length-map f [] = refl
length-map f (x ∷ xs) = rw (length-map f xs) refl

module _ {W : Type 0} (card : Card W) (keeps : KeepsCount card) where
  after_change-InRange :
      (n : ℕ) (again : ReadersStates → W → Found × W) (r : (ReadersStates × Option Error) × W)
      → ((rs : ReadersStates) (w : W) → length rs ≡ n → InRange n (again rs w).0)
      → length r.0.0 ≡ n
      → InRange n (after_change card again r).0
  after_change-InRange n again ((rs, some e), w) h k = tt
  after_change-InRange n again ((rs, none), w) h k = h rs w k

  unless_present-InRange :
      (n : ℕ) (o : Option ℕ) (r : Found × W) (w : W)
      → ((i : ℕ) → o ≡ some i → i < n)
      → InRange n r.0
      → InRange n (unless_present card o r w).0
  unless_present-InRange n (some i) r w h k = h i refl
  unless_present-InRange n none r w h k = k

  wait_rounds-InRange :
      (n : ℕ) (rounds : ℕ) (rs : ReadersStates) (w : W)
      → length rs ≡ n
      → InRange n (wait_rounds card rounds rs w).0
  unfolding wait_rounds
  wait_rounds-InRange n zero rs w e = tt
  wait_rounds-InRange n (suc rounds) rs w e =
      unless_present-InRange n (present_from 0 rs) _ w
        (λ i h. omega (arith, present-InRange 0 rs i h, e))
        (after_change-InRange n (wait_rounds card rounds) (card.get_status_change (update rs) w)
          (λ rs' w' h. wait_rounds-InRange n rounds rs' w' h)
          (omega (arith, keeps (update rs) w, length-update rs, e)))

  opened_lem : (r : Option Error × W) → (card_opened card r).0 ≢ panicked
  opened_lem (some e, w) = λ q. cc q
  opened_lem (none, w) = read_lem (card.card_status w)
    where
      read_lem : (r : Option Error × W) → (status_read card r).0 ≢ panicked
      read_lem (some e, w) = λ q. cc q
      read_lem (none, w) = λ q. cc q

  at_reader_lem :
      (readers : List Text) (i : ℕ) (w : W)
      → i < length readers
      → (at_reader card (get_elem? readers i) w).0 ≢ panicked
  at_reader_lem [] i w h = absurd (omega (arith, h))
  at_reader_lem (r ∷ rs) zero w h = opened_lem (card.connect r w)
  at_reader_lem (r ∷ rs) (suc i) w h = at_reader_lem rs i w (omega (arith, h))

  card_found_lem :
      (readers : List Text) (r : Found × W)
      → InRange (length readers) r.0
      → (card_found card readers r).0 ≢ panicked
  card_found_lem readers (found i, w) h = at_reader_lem readers i w h
  card_found_lem readers (failed e, w) h = λ q. cc q
  card_found_lem readers (endless, w) h = λ q. cc q

  released_lem : (r : Connected × W) → r.0 ≢ panicked → (released card r).0 ≢ panicked
  released_lem (Connected.connected, w) h = h
  released_lem (Connected.refused e, w) h = λ q. cc q
  released_lem (panicked, w) h = h
  released_lem (Connected.waiting, w) h = h

  -- The goroutine of the first card context never indexes the list of readers out of its bounds, if
  -- GetStatusChange gives back as many states as it was given.
  pub run_in_range :
      (rounds : ℕ) (readers : List Text) (w : W) → (run card rounds readers w).0 ≢ panicked
  unfolding run connect wait_for_card
  run_in_range rounds readers w = released_lem (connect card rounds readers w) (
      card_found_lem readers (wait_for_card card rounds readers w) (
        wait_rounds-InRange (length readers) rounds (map unaware readers) w
          (length-map unaware readers)))
