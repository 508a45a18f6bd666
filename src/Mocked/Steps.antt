-- ===== src/Mocked/Steps.antt =====
-- What one step of a handler does, for proofs that follow a handler step by step.
use status_keycard_go.Prelude.{
  ℕ, ◌≡◌, ◌≢◌, refl, ap, Bool, true, false, Option, some, arith, Text, if◌then◌else◌,
}
use status_keycard_go.Flow.Values.{Value}
use status_keycard_go.Flow.Session.{found}
use status_keycard_go.Mocked.Cards.{Keycard}
use status_keycard_go.Mocked.Machine.{
  M, MockedFlow, done, continue, ◌>>=◌, pure, load, write, param, with_card, update,
}

module _ {W : Type 0} where
  pub >>=_lem :
      {A B : Type 0} (m : M W A) (f : A → M W B) {a : A} {s t : MockedFlow W}
      → m s ≡ done a t
      → (m >>= f) s ≡ f a t
  unfolding ◌>>=◌
  >>=_lem m f h = ap (λ o. continue o f) h

  pub pure_lem : {A : Type 0} (a : A) (s : MockedFlow W) → pure a s ≡ done a s
  unfolding pure
  pure_lem a s = refl

  pub load_lem :
      (place : MockedFlow W → Option ℕ) (s : MockedFlow W) {p : ℕ}
      → place s ≡ some p
      → load place s ≡ done (s.heap.cards p) s
  unfolding load
  load_lem place s i = ground arith

  pub write_lem :
      (place : MockedFlow W → Option ℕ) (c : Keycard) (s : MockedFlow W) {p : ℕ}
      → place s ≡ some p
      → write place c s ≡ done tt (with_card p c s)
  unfolding write
  write_lem place c s i = ground arith

pub update_self : {A : Type 0} (f : ℕ → A) (p : ℕ) (a : A) → update f p a p ≡ a
update_self f p a = ground arith

pub update_other : {A : Type 0} (f : ℕ → A) (p : ℕ) (a : A) (q : ℕ) → q ≢ p → update f p a q ≡ f q
update_other f p a q h = ground arith

pub param_lem :
    {W : Type 0} (k : Text) (s : MockedFlow W) {v : Option Value}
    → found k s.params ≡ v
    → param k s ≡ done v s
unfolding param
param_lem k s h = ap (λ o. done o s) h

pub if_true :
    {W A : Type 0} (b : Bool) (m n : M W A) (s : MockedFlow W)
    → b ≡ true
    → (if b then m else n) s ≡ m s
if_true b m n s h = ap (λ t. (if t then m else n) s) h

pub if_false :
    {W A : Type 0} (b : Bool) (m n : M W A) (s : MockedFlow W)
    → b ≡ false
    → (if b then m else n) s ≡ n s
if_false b m n s h = ap (λ t. (if t then m else n) s) h
