-- ===== src/Flow/Termination/Rules.antt =====
-- The loops with questions end: a rule for each way to build a function or a round.
use status_keycard_go.Prelude.{
  ℕ, zero, suc, ◌≤◌, ◌<◌, arith, Bool, true, false, Option, none, some, [], if◌then◌else◌, length,
  Text,
}
use status_keycard_go.Prelude.Dict.{Dict}
use status_keycard_go.Flow.Values.{Value, text, boolean, Action}
use status_keycard_go.Flow.Session.{
  CardState, Fault, Session, F, pure, fail, crash, gets, ◌>>=◌, ◌>>◌, call, set_card, note_pairing,
  param, delete_param, set_param, stored, as_text, as_bool, pause_and_wait_with_status,
  pause_and_wait, pause_and_restart, Round, finished, again, next, repeat, ask,
}
use status_keycard_go.Flow.Termination.Answers.{
  Ends, AtMost, Fewer, Progress, Bounded, Asks, Ends-continue, Ends-weaken, AtMost-trans,
  Progress-trans, pause-Fewer,
}

module _ {W : Type 0} where
  pub Bounded-by :
      {A : Type 0} (m : F W A)
      → ((s : Session W) → Ends (Fewer (length s.answers)) (m s))
      → Bounded m
  Bounded-by m h = record {
    at = λ s. Ends-weaken (Fewer (length s.answers)) _ (m s) (λ a t q. omega (arith, q)) (h s);
  }

  pub Bounded-pure : {A : Type 0} (a : A) → Bounded {W = W} (pure a)
  unfolding pure
  Bounded-pure a = record { at = λ s. omega arith }

  pub Bounded-fail : {A : Type 0} (e : Fault) → Bounded {W = W} (fail {A = A} e)
  unfolding fail
  Bounded-fail e = record { at = λ s. tt }

  pub Bounded-crash : {A : Type 0} → Bounded {W = W} (crash {A = A})
  unfolding crash
  Bounded-crash = record { at = λ s. tt }

  pub Bounded-gets : {A : Type 0} (f : Session W → A) → Bounded (gets f)
  unfolding gets
  Bounded-gets f = record { at = λ s. omega arith }

  pub Bounded-if :
      {A : Type 0} (b : Bool) (m n : F W A) → Bounded m → Bounded n → Bounded (if b then m else n)
  Bounded-if true m n h k = h
  Bounded-if false m n h k = k

  pub Bounded-bind :
      {A B : Type 0} (m : F W A) (f : A → F W B)
      → Bounded m
      → ((a : A) → Bounded (f a))
      → Bounded (m >>= f)
  unfolding ◌>>=◌
  Bounded-bind m f h k = record {
    at = λ s.
        Ends-continue (AtMost (length s.answers)) (AtMost (length s.answers)) (m s) f (h.at s)
          λ a t q.
            Ends-weaken (AtMost (length t.answers)) (AtMost (length s.answers)) (f a t)
              (AtMost-trans (length t.answers) (length s.answers) q) ((k a).at t);
  }

  pub Bounded-call : {A : Type 0} (f : W → A × W) → Bounded (call f)
  unfolding call
  Bounded-call f = record { at = λ s. omega arith }

  pub Bounded-set_card : (f : CardState → CardState) → Bounded {W = W} (set_card f)
  unfolding set_card
  Bounded-set_card f = record { at = λ s. omega arith }

  pub Bounded-note_pairing : (i : ℕ) → Bounded {W = W} (note_pairing i)
  unfolding note_pairing
  Bounded-note_pairing i = record { at = λ s. omega arith }

  pub Bounded-param : (k : Text) → Bounded {W = W} (param k)
  unfolding param
  Bounded-param k = record { at = λ s. omega arith }

  pub Bounded-delete_param : (k : Text) → Bounded {W = W} (delete_param k)
  unfolding delete_param
  Bounded-delete_param k = record { at = λ s. omega arith }

  Ends-stored :
      (k : Text) (x : Value) (m : Option (Dict Value)) (s : Session W)
      → Ends (AtMost (length s.answers)) (stored k x m s)
  Ends-stored k x none s = tt
  Ends-stored k x (some m) s = omega arith

  pub Bounded-set_param : (k : Text) (x : Value) → Bounded {W = W} (set_param k x)
  unfolding set_param
  Bounded-set_param k x = record { at = λ s. Ends-stored k x s.flow.params s }

  pub Bounded-as_text : (x : Value) → Bounded {W = W} (as_text x)
  unfolding as_text
  Bounded-as_text (text t) = Bounded-pure t
  Bounded-as_text _ = Bounded-crash

  pub Bounded-as_bool : (x : Value) → Bounded {W = W} (as_bool x)
  unfolding as_bool
  Bounded-as_bool (boolean b) = Bounded-pure b
  Bounded-as_bool _ = Bounded-crash

  pub Bounded-pause :
      (a : Action) (m : Text) (d : Dict Value) → Bounded {W = W} (pause_and_wait_with_status a m d)
  Bounded-pause a m d = Bounded-by _ (pause-Fewer a m d)

  pub Bounded-restart :
      {A : Type 0} (a : Action) (m : Text) → Bounded {W = W} (pause_and_restart {A = A} a m)
  unfolding pause_and_restart pause_and_wait
  Bounded-restart a m = Bounded-bind _ _ (Bounded-pause a m []) (λ _. Bounded-fail Fault.restart)

  pub Asks-finished : {A : Type 0} (a : A) → Asks {W = W} (pure (finished a))
  unfolding pure
  Asks-finished a = record { at = λ s. omega arith }

  pub Asks-fail : {A : Type 0} (e : Fault) → Asks {W = W} (fail {A = Round A} e)
  unfolding fail
  Asks-fail e = record { at = λ s. tt }

  pub Asks-crash : {A : Type 0} → Asks {W = W} (crash {A = Round A})
  unfolding crash
  Asks-crash = record { at = λ s. tt }

  pub Asks-if :
      {A : Type 0} (b : Bool) (m n : F W (Round A)) → Asks m → Asks n → Asks (if b then m else n)
  Asks-if true m n h k = h
  Asks-if false m n h k = k

  pub Asks-bind :
      {A B : Type 0} (m : F W A) (f : A → F W (Round B))
      → Bounded m
      → ((a : A) → Asks (f a))
      → Asks (m >>= f)
  unfolding ◌>>=◌
  Asks-bind m f h k = record {
    at = λ s.
        Ends-continue (AtMost (length s.answers)) (Progress (length s.answers)) (m s) f (h.at s)
          λ a t q.
            Ends-weaken (Progress (length t.answers)) (Progress (length s.answers)) (f a t)
              (Progress-trans (length t.answers) (length s.answers) q) ((k a).at t);
  }

  pub Asks-again :
      {A : Type 0} (a : Action) (m : Text) (d : Dict Value)
      → Asks {W = W} {A = A} (pause_and_wait_with_status a m d >> pure again)
  unfolding ◌>>=◌ pure
  Asks-again a m d = record {
    at = λ s.
        Ends-continue (Fewer (length s.answers)) (Progress (length s.answers))
          (pause_and_wait_with_status a m d s) (λ _. pure again) (pause-Fewer a m d s) (λ _ t h. h);
  }

  pub Asks-pause :
      {A : Type 0} (a : Action) (m : Text) → Asks {W = W} {A = A} (pause_and_wait a m >> pure again)
  unfolding pause_and_wait
  Asks-pause a m = Asks-again a m []

  pub Asks-restart :
      {A : Type 0} (a : Action) (m : Text) → Asks {W = W} (pause_and_restart {A = Round A} a m)
  unfolding pause_and_restart pause_and_wait
  Asks-restart a m = Asks-bind _ _ (Bounded-pause a m []) (λ _. Asks-fail Fault.restart)

  next-AtMost :
      {A : Type 0} (n k : ℕ) (rest : F W A) (r : Round A) (t : Session W)
      → ((t : Session W) → length t.answers < n → Ends (AtMost k) (rest t))
      → n ≤ k
      → Progress n r t
      → Ends (AtMost k) (next rest r t)
  unfolding pure
  next-AtMost n k rest (finished a) t h q p = omega (arith, p, q)
  next-AtMost n k rest again t h q p = h t p

  repeat-AtMost :
      {A : Type 0} (n k : ℕ) (m : F W (Round A)) (s : Session W)
      → Asks m
      → length s.answers < n
      → length s.answers ≤ k
      → Ends (AtMost k) (repeat n m s)
  unfolding repeat
  repeat-AtMost zero k m s h l q = absurd (omega (arith, l))
  repeat-AtMost (suc n) k m s h l q =
      Ends-continue (Progress (length s.answers)) (AtMost k) (m s) (next (repeat n m)) (h.at s)
        λ r t p.
          next-AtMost (length s.answers) k (repeat n m) r t
            (λ u b. repeat-AtMost n k m u h (omega (arith, b, l)) (omega (arith, b, q))) q p

  -- So many rounds as there are answers, and one, are enough.
  pub Bounded-ask : {A : Type 0} (m : F W (Round A)) → Asks m → Bounded (ask m)
  unfolding ask
  Bounded-ask m h = record {
    at = λ s.
        repeat-AtMost (suc (length s.answers)) (length s.answers) m s h (omega arith) (omega arith);
  }

pub ruleset ends_rules = (
  Bounded-pure, Bounded-fail, Bounded-crash, Bounded-gets, Bounded-if, Bounded-bind, Bounded-call,
  Bounded-set_card, Bounded-note_pairing, Bounded-param, Bounded-delete_param, Bounded-set_param,
  Bounded-as_text, Bounded-as_bool, Bounded-pause, Bounded-restart, Bounded-ask, Asks-finished,
  Asks-fail, Asks-crash, Asks-if, Asks-bind, Asks-again, Asks-pause, Asks-restart,
)
