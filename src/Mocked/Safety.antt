-- ===== src/Mocked/Safety.antt =====
-- The handlers of the mock, from a state with two cards: no nil pointer is read and no nil map is
-- written. The rules for the parts of a handler; the handlers are in the children.
pub mod Handlers
pub mod Accounts
pub mod Exports
use status_keycard_go.Prelude.{
  ℕ, ◌≡◌, refl, Bool, true, false, Option, none, some, is_some, [], if◌then◌else◌, arith, Text,
}
use status_keycard_go.Prelude.Dict.{Dict, insert}
use status_keycard_go.Internal.Errors.{Error}
use status_keycard_go.Pairing.{Info, save, Values}
use status_keycard_go.Flow.Values.{Value, text, boolean, Action}
use status_keycard_go.Mocked.Cards.{ReaderState, Keycard}
use status_keycard_go.Mocked.Machine.{
  MockedFlow, Host, Panic, nil_pointer, nil_map, bad_type, bad_path, Outcome, done, panics, M, pure,
  crash, gets, continue, ◌>>=◌, load, write, inserted, put_inserted, helper, put_helper, param,
  as_string, string_param, as_flag, bool_param, ask, send_result, finish, exported, make_map,
  rand_intn, store_pairing,
}

-- Both cards are inserted, and the pairings are not a nil map; the reader is in a given state.
pub record Held {W : Type 0} (r : ReaderState) (s : MockedFlow W) : Type 0 where
  pub reader : s.current_reader_state ≡ r
  pub card : is_some s.inserted_keycard ≡ true
  pub helper : is_some s.inserted_keycard_helper ≡ true
  pub values : is_some s.pairings.values ≡ true

-- A panic that the parameters of the flow can cause: a value of the wrong type, or a path that is
-- not below the wallet root.
abbrev pub ByParameter : Panic → Type 0
ByParameter nil_pointer = ⊥
ByParameter nil_map = ⊥
ByParameter bad_type = Unit
ByParameter bad_path = Unit

abbrev pub Ends : {W A : Type 0} → (MockedFlow W → Type 0) → Outcome W A → Type 0
Ends Q (done a t) = Q t
Ends Q (panics p) = ByParameter p

pub record Safe {W A : Type 0} (P : MockedFlow W → Type 0) (m : M W A) : Type 0 where
  pub at : (s : MockedFlow W) → P s → Ends P (m s)

pub Ends-continue :
    {W A B : Type 0} (Q R : MockedFlow W → Type 0) (o : Outcome W A) (f : A → M W B)
    → Ends Q o
    → ((a : A) (t : MockedFlow W) → Q t → Ends R (f a t))
    → Ends R (continue o f)
Ends-continue Q R (done a t) f h k = k a t h
Ends-continue Q R (panics p) f h k = h

module _ {W : Type 0} {P : MockedFlow W → Type 0} where
  pub Safe-pure : {A : Type 0} (a : A) → Safe P (pure a)
  unfolding pure
  Safe-pure a = record { at = λ s h. h }

  pub Safe-bind :
      {A B : Type 0} (m : M W A) (f : A → M W B)
      → Safe P m
      → ((a : A) → Safe P (f a))
      → Safe P (m >>= f)
  unfolding ◌>>=◌
  Safe-bind m f h k = record { at = λ s p. Ends-continue P P (m s) f (h.at s p) (λ a. (k a).at) }

  pub Safe-if :
      {A : Type 0} (b : Bool) (m n : M W A) → Safe P m → Safe P n → Safe P (if b then m else n)
  Safe-if true m n h k = h
  Safe-if false m n h k = k

  pub Safe-param : (k : Text) → Safe P (param k)
  unfolding param
  Safe-param k = record { at = λ s h. h }

  pub Safe-gets : {A : Type 0} (f : MockedFlow W → A) → Safe P (gets f)
  unfolding gets
  Safe-gets f = record { at = λ s h. h }

  pub Safe-exported : (c : Keycard) (k : Text) → Safe P (exported c k)
  unfolding exported
  Safe-exported c k = record { at = λ s h. h }

  pub Safe-bad_type : {A : Type 0} → Safe P (crash {A = A} bad_type)
  unfolding crash
  Safe-bad_type = record { at = λ s h. tt }

  pub Safe-bad_path : {A : Type 0} → Safe P (crash {A = A} bad_path)
  unfolding crash
  Safe-bad_path = record { at = λ s h. tt }

  Safe-as_string : (v : Option Value) → Safe P (as_string v)
  unfolding as_string
  Safe-as_string none = Safe-pure []
  Safe-as_string (some (text t)) = Safe-pure t
  Safe-as_string (some _) = Safe-bad_type

  pub Safe-string_param : (k : Text) → Safe P (string_param k)
  unfolding string_param
  Safe-string_param k = Safe-bind (param k) as_string (Safe-param k) Safe-as_string

  Safe-as_flag : (v : Option Value) → Safe P (as_flag v)
  unfolding as_flag
  Safe-as_flag none = Safe-pure false
  Safe-as_flag (some (boolean b)) = Safe-pure b
  Safe-as_flag (some _) = Safe-bad_type

  pub Safe-bool_param : (k : Text) → Safe P (bool_param k)
  unfolding bool_param
  Safe-bool_param k = Safe-bind (param k) as_flag (Safe-param k) Safe-as_flag

module _ {W : Type 0} {r : ReaderState} where
  pub Ends-load :
      (place : MockedFlow W → Option ℕ) (s : MockedFlow W)
      → Held r s
      → is_some (place s) ≡ true
      → Ends (Held r) (load place s)
  unfolding load
  Ends-load place s h e = ground arith

  pub Ends-write :
      (place : MockedFlow W → Option ℕ) (c : Keycard) (s : MockedFlow W)
      → Held r s
      → is_some (place s) ≡ true
      → Ends (Held r) (write place c s)
  unfolding write
  Ends-write place c s h e = ground arith

  pub Safe-inserted : Safe {W = W} (Held r) (inserted)
  Safe-inserted = record { at = λ s h. Ends-load (λ s. s.inserted_keycard) s h h.card }

  pub Safe-helper : Safe {W = W} (Held r) (helper)
  Safe-helper = record { at = λ s h. Ends-load (λ s. s.inserted_keycard_helper) s h h.helper }

  pub Safe-put_inserted : (c : Keycard) → Safe {W = W} (Held r) (put_inserted c)
  Safe-put_inserted c = record { at = λ s h. Ends-write (λ s. s.inserted_keycard) c s h h.card }

  pub Safe-put_helper : (c : Keycard) → Safe {W = W} (Held r) (put_helper c)
  Safe-put_helper c = record {
    at = λ s h. Ends-write (λ s. s.inserted_keycard_helper) c s h h.helper;
  }

  pub Safe-ask : (a : Action) (m : Dict Value) → Safe {W = W} (Held r) (ask a m)
  unfolding ask
  Safe-ask a m = record { at = λ s h. ground arith }

  pub Safe-send_result : (m : Dict Value) → Safe {W = W} (Held r) (send_result m)
  unfolding send_result
  Safe-send_result m = record { at = λ s h. ground arith }

  pub Safe-finish : (m : Dict Value) → Safe {W = W} (Held r) (finish m)
  unfolding finish
  Safe-finish m = record { at = λ s h. ground arith }

  pub Safe-make_map : Safe {W = W} (Held r) (make_map)
  unfolding make_map
  Safe-make_map = record { at = λ s h. ground arith }

  pub Safe-rand_intn : (host : Host W) (n : ℕ) → Safe {W = W} (Held r) (rand_intn host n)
  unfolding rand_intn
  Safe-rand_intn host n = record { at = λ s h. ground arith }

  pub Safe-store_pairing :
      (host : Host W) (uid : Text) (i : Option Info)
      → Safe {W = W} (Held r) (store_pairing host uid i)
  unfolding store_pairing
  Safe-store_pairing host uid i = record { at = λ s h. ground arith }

pub ruleset safe_rules = (
  Safe-pure, Safe-bind, Safe-if, Safe-param, Safe-gets, Safe-exported, Safe-bad_type, Safe-bad_path,
  Safe-string_param, Safe-bool_param, Safe-inserted, Safe-helper, Safe-put_inserted,
  Safe-put_helper, Safe-ask, Safe-send_result, Safe-finish, Safe-make_map, Safe-rand_intn,
  Safe-store_pairing,
)
