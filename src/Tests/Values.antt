-- ===== src/Tests/Values.antt =====
-- The theorems on values, at concrete values.
use status_keycard_go.Prelude.{
  ℕ, ◌≡◌, ◌⊎◌, ◌↔◌, ◌<◌, ◌≤◌, ◌^◌, ◌*◌, refl, some, [], ◌∷◌, arith, All, map, length, codes,
}
use status_keycard_go.Hex.{btox, xtob}
use status_keycard_go.Hex.RoundTrip.{xtob-btox, btox-xtob, lower, length-btox}
use status_keycard_go.Internal.Readers.{ReadersStates, reader_with_card_index}
use status_keycard_go.Internal.Readers.Selection.{FoundFrom, reader_with_card_index-FoundFrom}
use status_keycard_go.Internal.Convert.{bytes_to_int}
use status_keycard_go.Internal.Convert.Versions.{big_endian, bytes_to_int_lem, bytes_to_int-version}
use status_keycard_go.Tests.World.{uid}

xtob-btox_example : xtob (btox uid) ≡ some uid
xtob-btox_example = xtob-btox uid (omega arith, (omega arith, tt))

decoded : xtob (codes "CAfe") ≡ some uid
unfolding xtob
decoded = refl

btox-xtob_example : (btox uid ≡ map lower (codes "CAfe")) × All (λ b. b < 256) uid
btox-xtob_example = btox-xtob (codes "CAfe") decoded

length-btox_example : length (btox uid) ≡ 2 * length uid
length-btox_example = length-btox uid

-- An empty reader, a reader whose card somebody else holds, and a free one.
abbrev desk : ReadersStates
desk =
    record { reader = codes "a"; current_state = 0; event_state = 0x12 }
    ∷ record { reader = codes "b"; current_state = 0; event_state = 0xa2 }
    ∷ record { reader = codes "c"; current_state = 0; event_state = 0x22 }
    ∷ []

reader_with_card_index-FoundFrom_example : FoundFrom 0 desk (reader_with_card_index desk)
reader_with_card_index-FoundFrom_example = reader_with_card_index-FoundFrom desk

bytes_to_int_lem_example :
    ((length uid ≤ 4) × (bytes_to_int uid ≡ big_endian 0 uid) × (bytes_to_int uid < 2 ^ 32))
    ⊎ ((4 < length uid) × (bytes_to_int uid ≡ 0))
bytes_to_int_lem_example = bytes_to_int_lem uid (omega arith, (omega arith, tt))

abbrev three : ℕ
three = 3

bytes_to_int-version_example :
    (bytes_to_int (3 ∷ 1 ∷ []) ≤ bytes_to_int (3 ∷ 16 ∷ []))
    ↔ ((3 < 3) ⊎ ((three ≡ three) × (1 ≤ 16)))
bytes_to_int-version_example = bytes_to_int-version 3 1 3 16 (omega arith) (omega arith)
