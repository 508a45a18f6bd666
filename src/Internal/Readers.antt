-- ===== src/Internal/Readers.antt =====
-- internal/readers_states.go. A reader's state is a word of flags; the flags are those of PC/SC.
pub mod Selection
use status_keycard_go.Prelude.{
  ℕ, suc, ◌/◌, ◌%◌, ◌++◌, Bool, true, false, not, ◌&&◌, ◌||◌, Option, none, some, List, [], ◌∷◌,
  map, ◌==◌, if◌then◌else◌, Text, text_eq,
}

pub record ReaderState : Type 0 where
  pub reader : Text
  pub current_state : ℕ
  pub event_state : ℕ

abbrev pub ReadersStates : Type 0
ReadersStates = List ReaderState

-- `state & flag != 0` for a flag of one bit
abbrev pub has_flag : ℕ → ℕ → Bool
has_flag state flag = state / flag % 2 == 1

abbrev pub state_changed : ℕ
state_changed = 0x02

abbrev pub state_unknown : ℕ
state_unknown = 0x04

abbrev pub state_empty : ℕ
state_empty = 0x10

abbrev pub state_present : ℕ
state_present = 0x20

abbrev pub state_exclusive : ℕ
state_exclusive = 0x80

unfoldable pub contains : ReadersStates → Text → Bool
contains [] reader = false
contains (s ∷ rs) reader = text_eq s.reader reader || contains rs reader

abbrev pub acknowledged : ReaderState → ReaderState
acknowledged r = record r { current_state = r.event_state }

unfoldable pub update : ReadersStates → ReadersStates
update rs = map acknowledged rs

-- The test of the loop in `ReaderWithCardIndex`: no card, or a card that somebody else holds.
abbrev pub is_skipped : ReaderState → Bool
is_skipped r = not (has_flag r.event_state state_present) || has_flag r.event_state state_exclusive

-- The loop from index `i` on; `none` is `-1, false`.
index_from : ℕ → ReadersStates → Option ℕ
index_from i [] = none
index_from i (r ∷ rs) = let rest = index_from (suc i) rs in if is_skipped r then rest else some i

unfoldable pub reader_with_card_index : ReadersStates → Option ℕ
unfolding index_from
reader_with_card_index rs = index_from 0 rs

unfoldable pub append : ReadersStates → ReaderState → ReadersStates
append rs r = rs ++ (r ∷ [])

unfoldable pub reader_has_card : ReadersStates → Text → Bool
reader_has_card [] reader = false
reader_has_card (s ∷ rs) reader =
    (text_eq s.reader reader && has_flag s.event_state state_present) || reader_has_card rs reader

unfoldable pub empty : ReadersStates → Bool
empty [] = true
empty (_ ∷ _) = false

unfoldable pub has_changes : ReadersStates → Bool
has_changes [] = false
has_changes (s ∷ rs) = has_flag s.event_state state_changed || has_changes rs

unfoldable pub names : ReadersStates → List Text
names rs = map (λ r. r.reader) rs
