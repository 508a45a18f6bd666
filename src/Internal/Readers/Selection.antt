-- ===== src/Internal/Readers/Selection.antt =====
-- Which reader is chosen, and what `Update` leaves.
use status_keycard_go.Prelude.{
  ℕ, zero, suc, ◌+◌, ◌<◌, ◌≡◌, ◌/◌, ◌%◌, refl, true, false, Option, none, some, [], ◌∷◌, arith,
  get_elem?, All, Bool-cases, inl, inr,
}
use status_keycard_go.Internal.Readers.{
  ReaderState, ReadersStates, is_skipped, index_from, reader_with_card_index, update, names,
}

-- The bit 0x20 of the state says that there is a card, and the bit 0x80 that somebody else has it.
pub record Usable (r : ReaderState) : Type 0 where
  pub present : r.event_state / 0x20 % 2 ≡ 1
  pub free : r.event_state / 0x80 % 2 ≡ 0

Usable-unless : (r : ReaderState) → is_skipped r ≡ true → ¬ Usable r
Usable-unless r h u = ground (arith, u.present, u.free)

Usable-free : (r : ReaderState) → is_skipped r ≡ false → Usable r
Usable-free r h = record { present = ground arith; free = ground arith }

-- What the loop found when it started at index `i`.
abbrev pub FoundFrom : ℕ → ReadersStates → Option ℕ → Type 0
FoundFrom i rs none = All (λ r. ¬ Usable r) rs
FoundFrom i rs (some j) =
    (k : ℕ) × (j ≡ i + k)
    × (r : ReaderState) × (get_elem? rs k ≡ some r)
    × Usable r
    × ((l : ℕ) (q : ReaderState) → l < k → get_elem? rs l ≡ some q → ¬ Usable q)

FoundFrom-cons :
    (i : ℕ) (r : ReaderState) (rs : ReadersStates) (o : Option ℕ)
    → ¬ Usable r
    → FoundFrom (suc i) rs o
    → FoundFrom i (r ∷ rs) o
FoundFrom-cons i r rs none skip f = (skip, f)
FoundFrom-cons i r rs (some j) skip (k, e, q, at, free, before) =
    (suc k, omega arith, q, at, free, earlier)
  where
    earlier : (l : ℕ) (p : ReaderState) → l < suc k → get_elem? (r ∷ rs) l ≡ some p → ¬ Usable p
    earlier zero p h a = let e : r ≡ p = ground arith in rw e at skip
    earlier (suc l) p h a = before l p (omega arith) a

index_from-FoundFrom : (i : ℕ) (rs : ReadersStates) → FoundFrom i rs (index_from i rs)
unfolding index_from
index_from-FoundFrom i [] = tt
index_from-FoundFrom i (r ∷ rs) = elim (Bool-cases (is_skipped r)) [
  | inl skip ↦ rw skip (
      FoundFrom-cons i r rs (index_from (suc i) rs) (Usable-unless r skip)
        (index_from-FoundFrom (suc i) rs))
  | inr free ↦
      rw free (0, omega arith, r, refl, Usable-free r free, λ l q h e. absurd (omega arith))
]

-- ReaderWithCardIndex gives the index of the first reader in whose state the bit for a present card is
-- set and the bit for exclusive use by somebody else is not, and none only if there is no such reader.
pub reader_with_card_index-FoundFrom :
    (rs : ReadersStates) → FoundFrom 0 rs (reader_with_card_index rs)
unfolding reader_with_card_index
reader_with_card_index-FoundFrom rs = index_from-FoundFrom 0 rs

update-choice_from : (i : ℕ) (rs : ReadersStates) → index_from i (update rs) ≡ index_from i rs
unfolding index_from update
update-choice_from i [] = refl
update-choice_from i (r ∷ rs) = rw (update-choice_from (suc i) rs)

names-update : (rs : ReadersStates) → names (update rs) ≡ names rs
unfolding names update
names-update [] = refl
names-update (r ∷ rs) = rw (names-update rs)

update-All : (rs : ReadersStates) → All (λ r. r.current_state ≡ r.event_state) (update rs)
unfolding update
update-All [] = tt
update-All (r ∷ rs) = (refl, update-All rs)

-- Update sets the current state of every reader to the state of its last event, and changes neither
-- the names of the readers nor the choice of ReaderWithCardIndex.
pub update_lem :
    (rs : ReadersStates)
    → (reader_with_card_index (update rs) ≡ reader_with_card_index rs)
      × (names (update rs) ≡ names rs)
      × All (λ r. r.current_state ≡ r.event_state) (update rs)
unfolding reader_with_card_index
update_lem rs = (update-choice_from 0 rs, names-update rs, update-All rs)
