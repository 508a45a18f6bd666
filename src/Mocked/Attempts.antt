-- ===== src/Mocked/Attempts.antt =====
-- Series of logins and recoveries with wrong entries.
use status_keycard_go.Prelude.{ℕ, suc, ◌+◌, ◌≤◌, ◌≡◌, ◌⊎◌, false, some, inl, inr, refl, arith}
use status_keycard_go.Mocked.Cards.{Keycard}
use status_keycard_go.Mocked.Machine.{MockedFlow, Outcome, done}
use status_keycard_go.Mocked.Credentials.{Entered, read_entered, lacks_keys}
use status_keycard_go.Mocked.Handlers.{handle_login, handle_recover_account}
use status_keycard_go.Mocked.Answers.{Answers, login-Answers}
use status_keycard_go.Mocked.Access.{Right, WrongPin, WrongPuk, Cost, one_pin, one_puk, nothing}

-- A run of the login or of the recovery on the card at p, which is a keycard with keys, with entries
-- that are not right for it. It takes the card from c to d.
pub record Refusal (W : Type 0) (p : ℕ) (e : Entered) (c d : Keycard) : Type 0 where
  pub from_state : MockedFlow W
  pub to_state : MockedFlow W
  pub helper_at : ℕ
  pub entered : read_entered from_state ≡ done e from_state
  pub card_there : from_state.inserted_keycard ≡ some p
  pub helper_there : from_state.inserted_keycard_helper ≡ some helper_at
  pub status : (from_state.heap.cards p).not_status_keycard ≡ false
  pub keys : lacks_keys (from_state.heap.cards p) ≡ false
  pub before : from_state.heap.cards p ≡ c
  pub wrong : ¬ Right e c
  pub ran :
      (handle_login from_state ≡ done tt to_state)
      ⊎ (handle_recover_account from_state ≡ done tt to_state)
  pub after : to_state.heap.cards p ≡ d

-- Of two descriptions of an end, the second says nothing new.
refused-Cost :
    {W : Type 0} (e : Entered) (p : ℕ) (s t : MockedFlow W) (o : Outcome W (Unit {0}))
    → ¬ Right e (s.heap.cards p)
    → Answers e p s o
    → o ≡ done tt t
    → Cost e (s.heap.cards p) (t.heap.cards p)
refused-Cost e p s t o w (inl (r, x)) h = absurd (w r)
refused-Cost e p s t o w (inr (n, x)) h = let q : t ≡ x.rest = cc (h, x.ended) in rw q x.cost

Refusal-Cost : {W : Type 0} (p : ℕ) (e : Entered) (c d : Keycard) → Refusal W p e c d → Cost e c d
Refusal-Cost p e c d r =
    let (a, b) =
      login-Answers r.from_state e p r.helper_at r.entered r.card_there r.helper_there r.status
        r.keys in
    let w : ¬ Right e (r.from_state.heap.cards p) = rw r.before r.wrong in
    let k : Cost e (r.from_state.heap.cards p) (r.to_state.heap.cards p) = elim r.ran [
      | inl x ↦ refused-Cost e p r.from_state r.to_state (handle_login r.from_state) w a x
      | inr x ↦ refused-Cost e p r.from_state r.to_state (handle_recover_account r.from_state) w b x
    ] in
    rw (r.before, r.after) at k

-- A refusal of each wrong entry.
pub refuses :
    {W : Type 0} (s : MockedFlow W) (e : Entered) (p q : ℕ)
    → read_entered s ≡ done e s
    → s.inserted_keycard ≡ some p
    → s.inserted_keycard_helper ≡ some q
    → (s.heap.cards p).not_status_keycard ≡ false
    → lacks_keys (s.heap.cards p) ≡ false
    → ¬ Right e (s.heap.cards p)
    → (d : Keycard) × Refusal W p e (s.heap.cards p) d
refuses s e p q h i j a b w = elim (login-Answers s e p q h i j a b).0 [
  | inl (r, x) ↦ absurd (w r)
  | inr (n, x) ↦ (
    x.rest.heap.cards p,
    record {
      from_state = s;
      to_state = x.rest;
      helper_at = q;
      entered = h;
      card_there = i;
      helper_there = j;
      status = a;
      keys = b;
      before = refl;
      wrong = w;
      ran = inl x.ended;
      after = refl;
    },
  )
]

-- From the card c at p, a series of refused logins and recoveries has left the card d, with so many
-- wrong PINs and so many wrong PUKs among them.
pub data Guesses (W : Type 0) (p : ℕ) (c : Keycard) : Keycard → ℕ → ℕ → Type 0 where
  untouched : Guesses W p c c 0 0
  pin_guess :
      (e : Entered) {d x : Keycard} {n u : ℕ}
      → Guesses W p c d n u
      → Refusal W p e d x
      → WrongPin e d
      → Guesses W p c x (suc n) u
  puk_guess :
      (e : Entered) {d x : Keycard} {n u : ℕ}
      → Guesses W p c d n u
      → Refusal W p e d x
      → WrongPuk e d
      → Guesses W p c x n (suc u)
  no_guess :
      (e : Entered) {d x : Keycard} {n u : ℕ}
      → Guesses W p c d n u
      → Refusal W p e d x
      → ¬ WrongPin e d
      → ¬ WrongPuk e d
      → Guesses W p c x n u

-- What is left, and the secrets of the card.
record Kept (c d : Keycard) (n u : ℕ) : Type 0 where
  pins : n + d.pin_retries ≡ c.pin_retries
  puks : u + d.puk_retries ≡ c.puk_retries
  pin : d.pin ≡ c.pin
  puk : d.puk ≡ c.puk

pin_spent :
    (c d x : Keycard) (n u : ℕ) (e : Entered)
    → Kept c d n u
    → WrongPin e d
    → Cost e d x
    → Kept c x (suc n) u
pin_spent c d x n u e k w (one_pin v q) =
    rw q (record { pins = omega (arith, w.left, k.pins); puks = k.puks; pin = k.pin; puk = k.puk })
pin_spent c d x n u e k w (one_puk v q) = absurd (omega (arith, w.left, v.blocked))
pin_spent c d x n u e k w (nothing v y q) = absurd (v w)

puk_spent :
    (c d x : Keycard) (n u : ℕ) (e : Entered)
    → Kept c d n u
    → WrongPuk e d
    → Cost e d x
    → Kept c x n (suc u)
puk_spent c d x n u e k w (one_pin v q) = absurd (omega (arith, v.left, w.blocked))
puk_spent c d x n u e k w (one_puk v q) =
    rw q (record { pins = k.pins; puks = omega (arith, w.left, k.puks); pin = k.pin; puk = k.puk })
puk_spent c d x n u e k w (nothing v y q) = absurd (y w)

none_spent :
    (c d x : Keycard) (n u : ℕ) (e : Entered)
    → Kept c d n u
    → ¬ WrongPin e d
    → ¬ WrongPuk e d
    → Cost e d x
    → Kept c x n u
none_spent c d x n u e k w y (one_pin v q) = absurd (w v)
none_spent c d x n u e k w y (one_puk v q) = absurd (y v)
none_spent c d x n u e k w y (nothing v z q) = rw q k

Guesses-Kept : {W : Type 0} {p : ℕ} {c d : Keycard} {n u : ℕ} → Guesses W p c d n u → Kept c d n u
Guesses-Kept untouched = record { pins = omega arith; puks = omega arith; pin = refl; puk = refl }
Guesses-Kept {W} {p} {c} (pin_guess e {d} {x} {n} {u} g r w) =
    pin_spent c d x n u e (Guesses-Kept g) w (Refusal-Cost p e d x r)
Guesses-Kept {W} {p} {c} (puk_guess e {d} {x} {n} {u} g r w) =
    puk_spent c d x n u e (Guesses-Kept g) w (Refusal-Cost p e d x r)
Guesses-Kept {W} {p} {c} (no_guess e {d} {x} {n} {u} g r w y) =
    none_spent c d x n u e (Guesses-Kept g) w y (Refusal-Cost p e d x r)

locked : (e : Entered) (d : Keycard) → d.pin_retries ≡ 0 → d.puk_retries ≡ 0 → ¬ Right e d
locked e d a b (inl x) = omega (arith, x.left)
locked e d a b (inr x) = omega (arith, x.left)

-- In a series of logins and recoveries of the mock on one keycard with keys, each with entries that are
-- not right for the card as it is then, and with nothing else done to the card between them, let n be
-- the number of wrong PINs and u the number of wrong PUKs that were tested. Then n is at most the number
-- of attempts that the card had for its PIN, and u at most that for its PUK. Once both are used up, no
-- PIN and no PUK is right for the card that is left.
pub Guesses-bounded :
    {W : Type 0} {p : ℕ} {c d : Keycard} {n u : ℕ}
    → Guesses W p c d n u
    → (n ≤ c.pin_retries)
      × (u ≤ c.puk_retries)
      × (n ≡ c.pin_retries → u ≡ c.puk_retries → (e : Entered) → ¬ Right e d)
Guesses-bounded {W} {p} {c} {d} {n} {u} g =
    let k : Kept c d n u = Guesses-Kept g in
    (
      omega (arith, k.pins),
      omega (arith, k.puks),
      λ a b e. locked e d (omega (arith, k.pins)) (omega (arith, k.puks)),
    )
