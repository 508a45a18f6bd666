-- ===== src/Hex/RoundTrip.antt =====
-- Hex text and bytes determine one another, up to the case of the letters.
use status_keycard_go.Prelude.{
  ℕ, ◌+◌, ◌*◌, ◌/◌, ◌%◌, ◌<◌, ◌≡◌, refl, Option, none, some, [], ◌∷◌, ◌&&◌, arith, leb,
  if◌then◌else◌, Text, Bytes, length, All, map,
}
use status_keycard_go.Hex.{hex_digit, digit_value, join_byte, btox, xtob}

digit_value-hex_digit : (n : ℕ) → n < 16 → digit_value (hex_digit n) ≡ some n
unfolding digit_value hex_digit
digit_value-hex_digit n h = ground arith

-- Decoding the hex text of a sequence of bytes gives the bytes back.
pub xtob-btox : (bs : Bytes) → All (λ b. b < 256) bs → xtob (btox bs) ≡ some bs
unfolding xtob btox
xtob-btox [] h = refl
xtob-btox (b ∷ bs) (lt, h) =
    rw
      (
        digit_value-hex_digit (b / 16) (omega arith),
        digit_value-hex_digit (b % 16) (omega arith),
        xtob-btox bs h,
      )
      (let e : b / 16 * 16 + b % 16 ≡ b = omega arith in rw e)

-- A text of letters in lower case.
abbrev pub lower : ℕ → ℕ
lower c = if leb b'A' c && leb c b'F' then c + 32 else c

hex_digit-digit_value : (c n : ℕ) → digit_value c ≡ some n → (hex_digit n ≡ lower c) × (n < 16)
unfolding digit_value hex_digit
hex_digit-digit_value c n h = ground arith

join_byte-eq-some :
    (a b : Option ℕ) (r : Option Bytes) {bs : Bytes}
    → join_byte a b r ≡ some bs
    → (hi : ℕ) × (lo : ℕ) × (tl : Bytes) × (a ≡ some hi)
      × (b ≡ some lo)
      × (r ≡ some tl)
      × (bs ≡ (hi * 16 + lo) ∷ tl)
join_byte-eq-some (some hi) (some lo) (some tl) h = (hi, lo, tl, refl, refl, refl, ground arith)
join_byte-eq-some (some hi) (some lo) none h = cc
join_byte-eq-some (some hi) none _ h = cc
join_byte-eq-some none _ _ h = cc

-- If a text decodes to some bytes, they are all below 256, and encoding them gives the text back
-- with its letters in lower case.
pub btox-xtob :
    (t : Text) {bs : Bytes} → xtob t ≡ some bs → (btox bs ≡ map lower t) × All (λ b. b < 256) bs
unfolding xtob btox
btox-xtob [] h = ground arith
btox-xtob (_ ∷ []) h = cc
btox-xtob (hi ∷ lo ∷ rest) {bs} h =
    let (m, n, tl, eh, el, er, e) =
      join_byte-eq-some (digit_value hi) (digit_value lo) (xtob rest) h in
    let ih = btox-xtob rest er in
    let dh = hex_digit-digit_value hi m eh in
    let dl = hex_digit-digit_value lo n el in
    let q : (m * 16 + n) / 16 ≡ m = omega (arith, dl.1) in
    let r : (m * 16 + n) % 16 ≡ n = omega (arith, dl.1) in
    rw e (cc (q, r, dh.0, dl.0, ih.0), (omega (arith, dh.1, dl.1), ih.1))

pub length-btox : (bs : Bytes) → length (btox bs) ≡ 2 * length bs
unfolding btox
length-btox [] = omega arith
length-btox (b ∷ bs) = omega (arith, length-btox bs)
