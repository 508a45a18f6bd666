-- ===== src/Flow/Session/Rules.antt =====
-- Invariants of the functions of a flow, by one rule for each way to build a function; and the rule
-- that a loop with questions ends.
use status_keycard_go.Prelude.{
  ℕ, zero, suc, Bool, true, false, Option, none, some, [], if◌then◌else◌, length, Text,
}
use status_keycard_go.Prelude.Dict.{Dict, insert}
use status_keycard_go.Internal.Types.{CardInfo}
use status_keycard_go.Pairing.{Store}
use status_keycard_go.Flow.Values.{Value, text, boolean, Action}
use status_keycard_go.Flow.Session.{
  CardState, Fault, Session, Ended, value, fault, waiting, panic, exhausted, F, pure, fail, crash,
  gets, continue, ◌>>=◌, call, set_card, set_pairings, note_info, note_pairing, param, delete_param,
  set_param, stored, without, as_text, as_bool, is_set, flag, pause_and_wait_with_status,
  pause_and_wait, pause_and_restart, Round, finished, again, next, repeat, ask,
}

-- A function that returns leaves `P`, and one that fails or waits leaves `Q`.
abbrev pub Holds : {W A : Type 0} → (Session W → Type 0) → (Session W → Type 0) → Ended W A → Type 0
Holds P Q (value a t) = P t
Holds P Q (fault e t) = Q t
Holds P Q (waiting t) = Q t
Holds P Q panic = Unit
Holds P Q exhausted = Unit

-- An invariant of sessions, with the reasons why what the goroutine does keeps it.
pub record Invariant (W : Type 0) : Type 1 where
  pub P : Session W → Type 0
  pub Q : Session W → Type 0
  pub weaker : (s : Session W) → P s → Q s
  pub on_world : (s : Session W) (w : W) → P s → P (record s { world = w })
  pub on_card : (s : Session W) (c : CardState) → P s → P (record s { card_info = c })
  pub on_store :
      (s : Session W) (w : W) (p : Store) → P s → P (record s { world = w; pairings = p })
  pub on_info : (s : Session W) (i : Option CardInfo) → P s → P (record s { app_info = i })
  pub on_pairing : (s : Session W) (i : Option ℕ) → P s → P (record s { paired_at = i })
  pub on_params :
      (s : Session W) (m : Option (Dict Value))
      → P s
      → P (record s { flow = record s.flow { params = m } })
  pub on_pause :
      (a : Action) (m : Text) (d : Dict Value) (s : Session W)
      → P s
      → Holds P Q (pause_and_wait_with_status a m d s)

pub record Keeps {W A : Type 0} (v : Invariant W) (m : F W A) : Type 0 where
  pub at : (s : Session W) → v.P s → Holds v.P v.Q (m s)

Holds-stored :
    {W : Type 0} (v : Invariant W) (k : Text) (x : Value) (m : Option (Dict Value)) (s : Session W)
    → v.P s
    → Holds v.P v.Q (stored k x m s)
Holds-stored v k x none s h = tt
Holds-stored v k x (some m) s h = v.on_params s (some (insert k x m)) h

module _ {W : Type 0} {v : Invariant W} where
  pub Keeps-pure : {A : Type 0} (a : A) → Keeps v (pure a)
  unfolding pure
  Keeps-pure a = record { at = λ s h. h }

  pub Keeps-fail : {A : Type 0} (e : Fault) → Keeps v (fail {A = A} e)
  unfolding fail
  Keeps-fail e = record { at = λ s h. v.weaker s h }

  pub Keeps-crash : {A : Type 0} → Keeps v (crash {A = A})
  unfolding crash
  Keeps-crash = record { at = λ s h. tt }

  pub Keeps-gets : {A : Type 0} (f : Session W → A) → Keeps v (gets f)
  unfolding gets
  Keeps-gets f = record { at = λ s h. h }

  pub Keeps-if :
      {A : Type 0} (b : Bool) (m n : F W A) → Keeps v m → Keeps v n → Keeps v (if b then m else n)
  Keeps-if true m n h k = h
  Keeps-if false m n h k = k

  Holds-continue :
      {A B : Type 0} (r : Ended W A) (f : A → F W B)
      → Holds v.P v.Q r
      → ((a : A) → Keeps v (f a))
      → Holds v.P v.Q (continue r f)
  Holds-continue (value a t) f h k = (k a).at t h
  Holds-continue (fault e t) f h k = h
  Holds-continue (waiting t) f h k = h
  Holds-continue panic f h k = h
  Holds-continue exhausted f h k = h

  pub Keeps-bind :
      {A B : Type 0} (m : F W A) (f : A → F W B)
      → Keeps v m
      → ((a : A) → Keeps v (f a))
      → Keeps v (m >>= f)
  unfolding ◌>>=◌
  Keeps-bind m f h k = record { at = λ s p. Holds-continue (m s) f (h.at s p) k }

  pub Keeps-call : {A : Type 0} (f : W → A × W) → Keeps v (call f)
  unfolding call
  Keeps-call f = record { at = λ s h. v.on_world s (f s.world).1 h }

  pub Keeps-set_card : (f : CardState → CardState) → Keeps v (set_card f)
  unfolding set_card
  Keeps-set_card f = record { at = λ s h. v.on_card s (f s.card_info) h }

  pub Keeps-set_pairings : (f : Store → Store) → Keeps v (set_pairings f)
  unfolding set_pairings
  Keeps-set_pairings f = record { at = λ s h. v.on_store s s.world (f s.pairings) h }

  pub Keeps-note_info : (i : Option CardInfo) → Keeps v (note_info i)
  unfolding note_info
  Keeps-note_info i = record { at = λ s h. v.on_info s i h }

  pub Keeps-note_pairing : (i : ℕ) → Keeps v (note_pairing i)
  unfolding note_pairing
  Keeps-note_pairing i = record { at = λ s h. v.on_pairing s (some i) h }

  pub Keeps-param : (k : Text) → Keeps v (param k)
  unfolding param
  Keeps-param k = record { at = λ s h. h }

  pub Keeps-delete_param : (k : Text) → Keeps v (delete_param k)
  unfolding delete_param
  Keeps-delete_param k = record { at = λ s h. v.on_params s (without k s.flow.params) h }

  pub Keeps-set_param : (k : Text) (x : Value) → Keeps v (set_param k x)
  unfolding set_param
  Keeps-set_param k x = record { at = λ s h. Holds-stored v k x s.flow.params s h }

  pub Keeps-as_text : (x : Value) → Keeps v (as_text x)
  unfolding as_text
  Keeps-as_text (text t) = Keeps-pure t
  Keeps-as_text _ = Keeps-crash

  pub Keeps-as_bool : (x : Value) → Keeps v (as_bool x)
  unfolding as_bool
  Keeps-as_bool (boolean b) = Keeps-pure b
  Keeps-as_bool _ = Keeps-crash

  Keeps-is_set : (o : Option Value) → Keeps v (is_set o)
  Keeps-is_set none = Keeps-pure false
  Keeps-is_set (some x) = Keeps-as_bool x

  pub Keeps-flag : (k : Text) → Keeps v (flag k)
  unfolding flag
  Keeps-flag k = Keeps-bind (param k) is_set (Keeps-param k) Keeps-is_set

  pub Keeps-pause :
      (a : Action) (m : Text) (d : Dict Value) → Keeps v (pause_and_wait_with_status a m d)
  Keeps-pause a m d = record { at = λ s h. v.on_pause a m d s h }

  pub Keeps-pause_and_wait : (a : Action) (m : Text) → Keeps v (pause_and_wait a m)
  unfolding pause_and_wait
  Keeps-pause_and_wait a m = Keeps-pause a m []

  pub Keeps-pause_and_restart :
      {A : Type 0} (a : Action) (m : Text) → Keeps v (pause_and_restart {A = A} a m)
  unfolding pause_and_restart
  Keeps-pause_and_restart a m =
      Keeps-bind (pause_and_wait a m) (λ _. fail Fault.restart) (Keeps-pause_and_wait a m)
        (λ _. Keeps-fail Fault.restart)

  Keeps-next : {A : Type 0} (rest : F W A) → Keeps v rest → (r : Round A) → Keeps v (next rest r)
  Keeps-next rest h (finished a) = Keeps-pure a
  Keeps-next rest h again = h

  pub Keeps-repeat : {A : Type 0} (n : ℕ) (m : F W (Round A)) → Keeps v m → Keeps v (repeat n m)
  unfolding repeat
  Keeps-repeat zero m h = record { at = λ s k. tt }
  Keeps-repeat (suc n) m h = record {
    at = λ s k.
        Holds-continue (m s) (next (repeat n m)) (h.at s k)
          (Keeps-next (repeat n m) (Keeps-repeat n m h));
  }

  pub Keeps-ask : {A : Type 0} (m : F W (Round A)) → Keeps v m → Keeps v (ask m)
  unfolding ask
  Keeps-ask m h = record { at = λ s k. (Keeps-repeat (suc (length s.answers)) m h).at s k }

pub ruleset keeps_rules = (
  Keeps-pure, Keeps-fail, Keeps-crash, Keeps-gets, Keeps-if, Keeps-bind, Keeps-call, Keeps-set_card,
  Keeps-set_pairings, Keeps-note_info, Keeps-note_pairing, Keeps-param, Keeps-delete_param,
  Keeps-set_param, Keeps-as_text, Keeps-as_bool, Keeps-flag, Keeps-pause, Keeps-pause_and_wait,
  Keeps-pause_and_restart, Keeps-repeat, Keeps-ask,
)
