-- ===== src/Flow/Termination/Answers.antt =====
-- The answers that a pause leaves: one fewer than before, where it returns.
use status_keycard_go.Prelude.{
  ℕ, ap, ◌≤◌, ◌<◌, ◌≡◌, refl, arith, Bool, true, false, List, [], ◌∷◌, if◌then◌else◌, length, Text,
}
use mathlib.Core.Path.{subst}
use status_keycard_go.Prelude.Dict.{Dict}
use status_keycard_go.Flow.Values.{Value, Action, action_text}
use status_keycard_go.Flow.Control.{
  Flow, Called, returned, crashed, blocked, in_state, resuming, cancelling,
}
use status_keycard_go.Flow.Session.{
  Answer, resumed, cancelled, cancelled_early, CardState, Fault, Session, Ended, value, fault,
  waiting, panic, exhausted, F, pure, fail, crash, gets, continue, ◌>>=◌, ◌>>◌, call, set_card,
  set_pairings, note_info, note_pairing, param, delete_param, set_param, stored, as_text, as_bool,
  is_set, flag, called, woken, answered, pause_tested, pause_with, pause_and_wait_with_status,
  pause_status, pause_and_wait, pause_and_restart, Round, finished, again, next, repeat, ask,
}
use status_keycard_go.Flow.Session
use status_keycard_go.Flow.Control

-- A function that returns leaves what satisfies `Q`, and the model has not run out of rounds.
abbrev pub Ends : {W A : Type 0} → (A → Session W → Type 0) → Ended W A → Type 0
Ends Q (value a t) = Q a t
Ends Q (fault e t) = Unit
Ends Q (waiting t) = Unit
Ends Q panic = Unit
Ends Q exhausted = ⊥

abbrev pub AtMost : {W A : Type 0} → ℕ → A → Session W → Type 0
AtMost n a t = length t.answers ≤ n

abbrev pub Fewer : {W A : Type 0} → ℕ → A → Session W → Type 0
Fewer n a t = length t.answers < n

-- A round that goes on has used an answer.
abbrev pub Progress : {W A : Type 0} → ℕ → Round A → Session W → Type 0
Progress n (finished a) t = length t.answers ≤ n
Progress n again t = length t.answers < n

-- A function that ends, and takes answers only.
pub record Bounded {W A : Type 0} (m : F W A) : Type 0 where
  pub at : (s : Session W) → Ends (AtMost (length s.answers)) (m s)

pub record Asks {W A : Type 0} (m : F W (Round A)) : Type 0 where
  pub at : (s : Session W) → Ends (Progress (length s.answers)) (m s)

pub Ends-continue :
    {W A B : Type 0} (Q : A → Session W → Type 0) (R : B → Session W → Type 0) (r : Ended W A)
    (f : A → F W B)
    → Ends Q r
    → ((a : A) (t : Session W) → Q a t → Ends R (f a t))
    → Ends R (continue r f)
Ends-continue Q R (value a t) f h k = k a t h
Ends-continue Q R (fault e t) f h k = tt
Ends-continue Q R (waiting t) f h k = tt
Ends-continue Q R panic f h k = tt
Ends-continue Q R exhausted f h k = h

pub Ends-weaken :
    {W A : Type 0} (Q R : A → Session W → Type 0) (r : Ended W A)
    → ((a : A) (t : Session W) → Q a t → R a t)
    → Ends Q r
    → Ends R r
Ends-weaken Q R (value a t) k h = k a t h
Ends-weaken Q R (fault e t) k h = tt
Ends-weaken Q R (waiting t) k h = tt
Ends-weaken Q R panic k h = tt
Ends-weaken Q R exhausted k h = h

pub AtMost-trans :
    {W A : Type 0} (n m : ℕ) → n ≤ m → (a : A) (t : Session W) → AtMost n a t → AtMost m a t
AtMost-trans n m h a t k = omega (arith, h, k)

pub Progress-trans :
    {W A : Type 0} (n m : ℕ)
    → n ≤ m
    → (a : Round A) (t : Session W) → Progress n a t
    → Progress m a t
Progress-trans n m h (finished a) t k = omega (arith, h, k)
Progress-trans n m h again t k = omega (arith, h, k)

module _ {W : Type 0} where
  called-Fewer :
      (n : ℕ) (r : Called Value) (s : Session W) (m : Session W → Ended W (Unit {0}))
      → ((t : Session W) → t.answers ≡ s.answers → Ends (Fewer n) (m t))
      → Ends (Fewer n) (called r s m)
  called-Fewer n (returned e g) s m k = k (record s { flow = g }) refl
  called-Fewer n crashed s m k = tt
  called-Fewer n blocked s m k = tt

  woken-Fewer : (n : ℕ) (s : Session W) → length s.answers < n → Ends (Fewer n) (Session.woken s)
  unfolding Session.woken
  woken-Fewer n s h = by_test (in_state s.flow.state resuming)
    where
      by_test :
          (b : Bool)
          → Ends (Fewer n) (
              if b
              then value tt (record s { flow = Control.go_on s.flow })
              else fault Fault.giveup (record s { flow = Control.go_on s.flow }))
      by_test true = h
      by_test false = tt

  answered-Fewer : (a : List Answer) (s : Session W) → Ends (Fewer (length a)) (answered a s)
  unfolding answered
  answered-Fewer [] s = tt
  answered-Fewer (resumed d ∷ rest) s =
      called-Fewer _ _ (record s { answers = rest }) Session.woken
        λ t e. woken-Fewer _ t (omega (arith, ap length e))
  answered-Fewer (cancelled ∷ rest) s =
      called-Fewer _ _ (record s { answers = rest }) Session.woken
        λ t e. woken-Fewer _ t (omega (arith, ap length e))
  answered-Fewer (cancelled_early ∷ rest) s =
      called-Fewer _ _ (record s { answers = rest }) Session.woken
        λ t e. woken-Fewer _ t (omega (arith, ap length e))

  pause_tested-Fewer :
      (a : Action) (m : Text) (d : Dict Value) (s : Session W)
      → Ends (Fewer (length s.answers)) (pause_tested a m d s)
  unfolding pause_tested
  pause_tested-Fewer a m d s = by_test (in_state s.flow.state cancelling)
    where
      by_test :
          (b : Bool)
          → Ends (Fewer (length s.answers)) (
              if b
              then fault Fault.giveup (record s { flow = Control.test_cancelled s.flow })
              else answered s.answers (record s {
                flow =
                    Control.pause
                      (action_text a)
                      (pause_status m d s.card_info)
                      (Control.test_cancelled s.flow);
              }))
      by_test true = tt
      by_test false = answered-Fewer s.answers _

  pause_with-Fewer :
      (l : List Answer) (a : Action) (m : Text) (d : Dict Value) (s : Session W)
      → s.answers ≡ l
      → Ends (Fewer (length l)) (pause_with l a m d s)
  unfolding pause_with
  pause_with-Fewer (cancelled_early ∷ rest) a m d s e =
      called-Fewer _ _ (record s { answers = rest }) (pause_tested a m d)
        λ t q.
          Ends-weaken (Fewer (length t.answers)) _ (pause_tested a m d t)
            (λ b u h. omega (arith, h, ap length q)) (pause_tested-Fewer a m d t)
  pause_with-Fewer [] a m d s e =
      subst (λ l. Ends (Fewer (length l)) (pause_tested a m d s)) e (pause_tested-Fewer a m d s)
  pause_with-Fewer (resumed x ∷ rest) a m d s e =
      subst (λ l. Ends (Fewer (length l)) (pause_tested a m d s)) e (pause_tested-Fewer a m d s)
  pause_with-Fewer (cancelled ∷ rest) a m d s e =
      subst (λ l. Ends (Fewer (length l)) (pause_tested a m d s)) e (pause_tested-Fewer a m d s)

  pub pause-Fewer :
      (a : Action) (m : Text) (d : Dict Value) (s : Session W)
      → Ends (Fewer (length s.answers)) (pause_and_wait_with_status a m d s)
  unfolding pause_and_wait_with_status
  pause-Fewer a m d s = pause_with-Fewer s.answers a m d s refl
