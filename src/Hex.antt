-- ===== src/Hex.antt =====
-- pkg/utils/hex_string.go, with what it uses of Go's `encoding/hex`.
-- `hex.DecodeString` also hands back the bytes before a bad digit; no caller here reads them.
pub mod RoundTrip
use status_keycard_go.Prelude.{
  ℕ, ◌+◌, ◌-◌, ◌*◌, ◌/◌, ◌%◌, Bool, ◌&&◌, Option, none, some, List, [], ◌∷◌, ltb, leb,
  if◌then◌else◌, Text, Bytes,
}

-- The digits "0123456789abcdef".
hex_digit : ℕ → ℕ
hex_digit n = if ltb n 10 then n + b'0' else n + 87

-- Both cases of letters are read.
digit_value : ℕ → Option ℕ
digit_value c =
    if leb b'0' c && leb c b'9'
    then some (c - b'0')
    else if leb b'a' c && leb c b'f'
    then some (c - 87)
    else if leb b'A' c && leb c b'F'
    then some (c - 55)
    else none

unfoldable pub btox : Bytes → Text
unfolding hex_digit
btox [] = []
btox (b ∷ bs) = hex_digit (b / 16) ∷ hex_digit (b % 16) ∷ btox bs

-- What a byte and the rest of the text decode to.
abbrev join_byte : Option ℕ → Option ℕ → Option Bytes → Option Bytes
join_byte (some hi) (some lo) (some bs) = some ((hi * 16 + lo) ∷ bs)
join_byte _ _ _ = none

unfoldable pub xtob : Text → Option Bytes
unfolding digit_value
xtob [] = some []
xtob (_ ∷ []) = none
xtob (hi ∷ lo ∷ rest) = join_byte (digit_value hi) (digit_value lo) (xtob rest)

-- `String`
abbrev pub string : Bytes → Text
string s = btox s

-- `MarshalJSON`, with the encoding of a text.
unfoldable pub marshal_json : {R : Type 0} → (Text → R) → Bytes → R
marshal_json encode s = encode (btox s)

abbrev pub from_hex : Option Text → Option Bytes
from_hex none = none
from_hex (some t) = xtob t

-- `UnmarshalJSON`, with the decoding of a text; an error of either is `none`.
unfoldable pub unmarshal_json : (Bytes → Option Text) → Bytes → Option Bytes
unmarshal_json decode b = from_hex (decode b)
