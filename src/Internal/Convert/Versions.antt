-- ===== src/Internal/Convert/Versions.antt =====
-- The version of the applet: the number that is compared, and the text that is shown.
use status_keycard_go.Prelude.{
  ℕ, ◌+◌, ◌*◌, ◌^◌, ◌≤◌, ◌<◌, ◌≡◌, ◌⊎◌, ◌↔◌, [], ◌∷◌, arith, Bytes, length, All,
}
use status_keycard_go.Internal.Convert.{bytes_to_int}

-- The number that a sequence of bytes stands for, the first byte the highest.
abbrev pub big_endian : ℕ → Bytes → ℕ
big_endian acc [] = acc
big_endian acc (b ∷ bs) = big_endian (acc * 256 + b) bs

-- Of bytes below 256, up to four are read as the number that they stand for in big-endian order,
-- which fits 32 bits, and more than four are read as 0.
pub bytes_to_int_lem :
    (s : Bytes)
    → All (λ b. b < 256) s
    → ((length s ≤ 4) × (bytes_to_int s ≡ big_endian 0 s) × (bytes_to_int s < 2 ^ 32))
      ⊎ ((4 < length s) × (bytes_to_int s ≡ 0))
unfolding bytes_to_int
bytes_to_int_lem [] h = omega arith
bytes_to_int_lem (a ∷ []) h = omega arith
bytes_to_int_lem (a ∷ b ∷ []) h = omega arith
bytes_to_int_lem (a ∷ b ∷ c ∷ []) h = omega arith
bytes_to_int_lem (a ∷ b ∷ c ∷ d ∷ []) h = omega arith
bytes_to_int_lem (a ∷ b ∷ c ∷ d ∷ e ∷ s) h = omega arith

-- Two versions of two bytes, the second bytes below 256, are ordered as the numbers that they are
-- read as: by the major version, then by the minor one.
pub bytes_to_int-version :
    (major minor major' minor' : ℕ)
    → minor < 256
    → minor' < 256
    → (bytes_to_int (major ∷ minor ∷ []) ≤ bytes_to_int (major' ∷ minor' ∷ []))
      ↔ ((major < major') ⊎ ((major ≡ major') × (minor ≤ minor')))
unfolding bytes_to_int
bytes_to_int-version major minor major' minor' h h' = (λ e. ground arith, λ e. ground arith)
