-- ===== src/Mocked/Access.antt =====
-- The tests of PIN and PUK against what they are meant to be, on the card as it was before them.
use status_keycard_go.Prelude.{
  ◌-◌, ◌<◌, ◌≡◌, ◌≢◌, ◌⊎◌, ◌↔◌, inl, inr, refl, ap, ◌∙◌, true, [], ◌∷◌, arith, length, Text,
  text_eq, ◌==◌, text_eq_iff, Bool-cases, not, ◌&&◌,
}
use status_keycard_go.Mocked.Cards.{is_blank, Keycard, def_pin_len, def_puk_len}
use status_keycard_go.Mocked.Credentials.{
  Entered, try_credentials, try_puk, try_pin, try_unblock, unlocks, knows_pin, knows_puk, is_pin,
  is_puk,
}

-- The PIN of a card that has attempts left for it.
pub record RightPin (e : Entered) (c : Keycard) : Type 0 where
  pub left : 0 < c.pin_retries
  pub long : length e.pin ≡ def_pin_len
  pub equal : e.pin ≡ c.pin

-- The PUK of a card with a blocked PIN and attempts left for the PUK, and a new PIN entered twice.
pub record RightPuk (e : Entered) (c : Keycard) : Type 0 where
  pub blocked : c.pin_retries ≡ 0
  pub left : 0 < c.puk_retries
  pub long : length e.puk ≡ def_puk_len
  pub equal : e.puk ≡ c.puk
  pub new_long : length e.pin ≡ def_pin_len
  pub twice : e.pin ≡ e.new_pin

abbrev pub Right : Entered → Keycard → Type 0
Right e c = RightPin e c ⊎ RightPuk e c

pub record WrongPin (e : Entered) (c : Keycard) : Type 0 where
  pub puk_left : 0 < c.puk_retries
  pub left : 0 < c.pin_retries
  pub alone : e.new_pin ≡ []
  pub long : length e.pin ≡ def_pin_len
  pub wrong : e.pin ≢ c.pin

pub record WrongPuk (e : Entered) (c : Keycard) : Type 0 where
  pub blocked : c.pin_retries ≡ 0
  pub left : 0 < c.puk_retries
  pub long : length e.puk ≡ def_puk_len
  pub wrong : e.puk ≢ c.puk
  pub new_long : length e.pin ≡ def_pin_len
  pub twice : e.pin ≡ e.new_pin

blank_length : (t : Text) → is_blank t ≡ true → length t ≡ 0
blank_length [] h = refl
blank_length (_ ∷ _) h = cc

knows_pin_lem : (e : Entered) (c : Keycard) → (knows_pin e c ≡ true) ↔ RightPin e c
unfolding knows_pin
knows_pin_lem e c =
    (λ h. ground (arith, text_eq_iff e.pin c.pin), λ r. ground (arith, text_eq_iff e.pin c.pin))

knows_puk_lem : (e : Entered) (c : Keycard) → (knows_puk e c ≡ true) ↔ RightPuk e c
unfolding knows_puk
knows_puk_lem e c = (
  λ h. ground (arith, text_eq_iff e.puk c.puk, text_eq_iff e.pin e.new_pin),
  λ r. ground (arith, text_eq_iff e.puk c.puk, text_eq_iff e.pin e.new_pin),
)

-- What the tests cost: one attempt for the PIN, or one for the PUK, or none.
pub data Cost (e : Entered) (c d : Keycard) : Type 0 where
  one_pin : WrongPin e c → d ≡ record c { pin_retries = c.pin_retries - 1 } → Cost e c d
  one_puk : WrongPuk e c → d ≡ record c { puk_retries = c.puk_retries - 1 } → Cost e c d
  nothing : ¬ WrongPin e c → ¬ WrongPuk e c → d ≡ c → Cost e c d

blank_nil : (t : Text) → is_blank t ≡ true → t ≡ []
blank_nil [] h = refl
blank_nil (_ ∷ _) h = cc

unguessed_pin : (e : Entered) (c : Keycard) → c.puk_retries ≡ 0 → ¬ WrongPin e c
unguessed_pin e c h w = ground arith

Cost-try_pin :
    (e : Entered) (c : Keycard)
    → 0 < c.puk_retries
    → 0 < c.pin_retries
    → Cost e c (try_pin e c).card
unfolding try_pin
Cost-try_pin e c h k =
    elim (Bool-cases (is_blank e.new_pin && (is_pin e.pin && not (text_eq e.pin c.pin)))) [
      | inl w ↦
          one_pin (ground (arith, blank_nil e.new_pin, text_eq_iff e.pin c.pin)) (ground arith)
      | inr w ↦
          nothing (λ x. ground (arith, text_eq_iff e.pin c.pin)) (λ x. ground arith)
            (ground (arith))
    ]

Cost-try_unblock :
    (e : Entered) (c : Keycard)
    → 0 < c.puk_retries
    → c.pin_retries ≡ 0
    → Cost e c (try_unblock e c).card
unfolding try_unblock try_puk
Cost-try_unblock e c h k =
    elim (Bool-cases
      (is_puk e.puk && (is_pin e.pin && (text_eq e.pin e.new_pin && not (text_eq e.puk c.puk))))) [
        | inl w ↦
            one_puk (ground (arith, text_eq_iff e.puk c.puk, text_eq_iff e.pin e.new_pin))
              (ground arith)
        | inr w ↦
            nothing (λ x. ground arith)
              (λ x. ground (arith, text_eq_iff e.puk c.puk, text_eq_iff e.pin e.new_pin))
              (ground (arith))
      ]

pub Cost-try : (e : Entered) (c : Keycard) → Cost e c (try_credentials e c).card
unfolding try_credentials
Cost-try e c = elim (Bool-cases (c.puk_retries == 0)) [
  | inl z ↦ rw z (nothing (λ w. ground arith) (λ w. ground arith) refl)
  | inr n ↦ elim (Bool-cases (c.pin_retries == 0)) [
    | inl y ↦ rw (n, y) (Cost-try_unblock e c (ground arith) (ground arith))
    | inr y ↦ rw (n, y) (Cost-try_pin e c (ground arith) (ground arith))
  ]
]

unlocks_lem : (e : Entered) (d : Keycard) → (unlocks e d ≡ true) ↔ Right e d
unfolding unlocks
unlocks_lem e d = (
  λ h. ground (arith, (knows_pin_lem e d).0, (knows_puk_lem e d).0),
  λ r. elim r [
    | inl x ↦ ground (arith, (knows_pin_lem e d).1 x)
    | inr x ↦ ground (arith, (knows_puk_lem e d).1 x)
  ],
)

six : (t : Text) → length t ≡ def_pin_len → t ≢ []
six [] h e = omega arith
six (_ ∷ _) h e = cc

not_right_pin :
    {e : Entered} {c : Keycard} (d : Keycard) → WrongPin e c → d.pin ≡ c.pin → ¬ Right e d
not_right_pin d w q (inl x) = w.wrong (x.equal ∙ q)
not_right_pin {e} d w q (inr x) = six e.pin w.long (x.twice ∙ w.alone)

not_right_puk :
    {e : Entered} {c : Keycard} (d : Keycard)
    → WrongPuk e c
    → d.puk ≡ c.puk
    → d.pin_retries ≡ c.pin_retries
    → ¬ Right e d
not_right_puk d w q n (inl x) = omega (arith, x.left, n, w.blocked)
not_right_puk d w q n (inr x) = w.wrong (x.equal ∙ q)

Right-Cost : (e : Entered) (c d : Keycard) → Cost e c d → Right e d ↔ Right e c
Right-Cost e c d (one_pin w q) = (
  λ r. absurd (not_right_pin d w (ap (λ (k : Keycard). k.pin) q) r),
  λ r. absurd (not_right_pin c w refl r),
)
Right-Cost e c d (one_puk w q) = (
  λ r.
      absurd (
        not_right_puk d w (ap (λ (k : Keycard). k.puk) q) (ap (λ (k : Keycard). k.pin_retries) q)
          r),
  λ r. absurd (not_right_puk c w refl refl r),
)
Right-Cost e c d (nothing u v q) = rw q (λ r. r, λ r. r)

-- The tests open the card exactly if the PIN or the PUK is right for the card as it was.
pub unlocks-try :
    (e : Entered) (c : Keycard) → (unlocks e (try_credentials e c).card ≡ true) ↔ Right e c
unlocks-try e c =
    let a : Right e (try_credentials e c).card ↔ Right e c = Right-Cost e c _ (Cost-try e c) in
    let b : (unlocks e (try_credentials e c).card ≡ true) ↔ Right e (try_credentials e c).card =
      unlocks_lem e (try_credentials e c).card in
    (λ h. a.0 (b.0 h), λ r. b.1 (a.1 r))
