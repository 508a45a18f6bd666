-- ===== src/Flow/Blocked.antt =====
-- A card without attempts for the PIN and the PUK: `authenticate` sends it nothing.
use status_keycard_go.Prelude.{
  ◌≡◌, refl, Bool, true, false, List, [], ◌∷◌, if◌then◌else◌, length, Text,
}
use status_keycard_go.Prelude.Dict.{Dict}
use status_keycard_go.Card.{Card}
use status_keycard_go.Flow.Values.{Value, Action}
use status_keycard_go.Flow.Control.{
  Called, returned, crashed, blocked, in_state, resuming, cancelling,
}
use status_keycard_go.Flow.Session.{
  Answer, resumed, cancelled, cancelled_early, Fault, Session, Ended, value, fault, waiting, panic,
  exhausted, F, pure, fail, gets, continue, ◌>>=◌, ◌>>◌, is_zero, called, answered, pause_tested,
  pause_with, pause_and_wait_with_status, pause_and_wait, pause_and_restart, pause_status, Round,
  finished, again, next, repeat, ask,
}
use status_keycard_go.Flow.Session
use status_keycard_go.Flow.Authentication.{
  swap_puk, unblock_round, unblock_flow, authenticate_round, authenticate,
}
use status_keycard_go.Flow.Keys

-- The card and the rest of the world are as they were.
abbrev Untouched : {W A : Type 0} → W → Ended W A → Type 0
Untouched w (value a t) = t.world ≡ w
Untouched w (fault e t) = t.world ≡ w
Untouched w (waiting t) = t.world ≡ w
Untouched w panic = Unit
Untouched w exhausted = ⊥

-- The same, and nothing was returned.
abbrev pub Stuck : {W A : Type 0} → W → Ended W A → Type 0
Stuck w (value a t) = ⊥
Stuck w (fault e t) = t.world ≡ w
Stuck w (waiting t) = t.world ≡ w
Stuck w panic = Unit
Stuck w exhausted = ⊥

module _ {W : Type 0} where
  called-Untouched :
      (w : W) (r : Called Value) (s : Session W) (m : Session W → Ended W (Unit {0}))
      → s.world ≡ w
      → ((t : Session W) → t.world ≡ w → Untouched w (m t))
      → Untouched w (called r s m)
  called-Untouched w (returned e g) s m h k = k (record s { flow = g }) h
  called-Untouched w crashed s m h k = tt
  called-Untouched w blocked s m h k = h

  if-Untouched :
      {A : Type 0} (w : W) (b : Bool) (m n : Ended W A)
      → Untouched w m
      → Untouched w n
      → Untouched w (if b then m else n)
  if-Untouched w true m n h k = h
  if-Untouched w false m n h k = k

  woken-Untouched : (w : W) (s : Session W) → s.world ≡ w → Untouched w (Session.woken s)
  unfolding Session.woken
  woken-Untouched w s e = if-Untouched w (in_state s.flow.state resuming) _ _ e e

  answered-Untouched :
      (a : List Answer) (w : W) (s : Session W) → s.world ≡ w → Untouched w (answered a s)
  unfolding answered
  answered-Untouched [] w s e = e
  answered-Untouched (resumed d ∷ rest) w s e =
      called-Untouched w _ (record s { answers = rest }) Session.woken e (woken-Untouched w)
  answered-Untouched (cancelled ∷ rest) w s e =
      called-Untouched w _ (record s { answers = rest }) Session.woken e (woken-Untouched w)
  answered-Untouched (cancelled_early ∷ rest) w s e =
      called-Untouched w _ (record s { answers = rest }) Session.woken e (woken-Untouched w)

  pause_tested-Untouched :
      (a : Action) (m : Text) (d : Dict Value) (w : W) (s : Session W)
      → s.world ≡ w
      → Untouched w (pause_tested a m d s)
  unfolding pause_tested
  pause_tested-Untouched a m d w s e =
      if-Untouched w (in_state s.flow.state cancelling) _ _ e (answered-Untouched s.answers w _ e)

  pause_with-Untouched :
      (l : List Answer) (a : Action) (m : Text) (d : Dict Value) (s : Session W)
      → Untouched s.world (pause_with l a m d s)
  unfolding pause_with
  pause_with-Untouched (cancelled_early ∷ rest) a m d s =
      called-Untouched s.world _ (record s { answers = rest }) (pause_tested a m d) refl
        (pause_tested-Untouched a m d s.world)
  pause_with-Untouched [] a m d s = pause_tested-Untouched a m d s.world s refl
  pause_with-Untouched (resumed x ∷ rest) a m d s = pause_tested-Untouched a m d s.world s refl
  pause_with-Untouched (cancelled ∷ rest) a m d s = pause_tested-Untouched a m d s.world s refl

  Stuck-continue :
      {A B : Type 0} (w : W) (r : Ended W A) (f : A → F W B) → Stuck w r → Stuck w (continue r f)
  Stuck-continue w (value a t) f h = absurd h
  Stuck-continue w (fault e t) f h = h
  Stuck-continue w (waiting t) f h = h
  Stuck-continue w panic f h = h
  Stuck-continue w exhausted f h = h

  Stuck-fail :
      {A : Type 0} (B : Type 0) (w : W) (r : Ended W A) (e : Fault)
      → Untouched w r
      → Stuck w (continue r (λ _. fail {A = B} e))
  unfolding fail
  Stuck-fail B w (value a t) e h = h
  Stuck-fail B w (fault x t) e h = h
  Stuck-fail B w (waiting t) e h = h
  Stuck-fail B w panic e h = h
  Stuck-fail B w exhausted e h = h

  restart-Stuck :
      (A : Type 0) (a : Action) (m : Text) (s : Session W)
      → Stuck s.world (pause_and_restart {A = A} a m s)
  unfolding pause_and_restart pause_and_wait pause_and_wait_with_status ◌>>=◌
  restart-Stuck A a m s =
      Stuck-fail A s.world (pause_with s.answers a m [] s) Fault.restart
        (pause_with-Untouched s.answers a m [] s)

module _ {W : Type 0} (card : Card W) where
  unblock-Stuck :
      (s : Session W) → is_zero s.card_info.puk_retries ≡ true → Stuck s.world (unblock_flow card s)
  unfolding unblock_flow unblock_round ask repeat ◌>>=◌ gets swap_puk
  unblock-Stuck s h = rw h (
      Stuck-continue s.world (swap_puk card s)
        (next (repeat (length s.answers) (unblock_round card)))
        (restart-Stuck (Round (Unit {0})) Action.swap_card Keys.puk_retries s))

  -- With no attempts left for the PIN and the PUK, authenticate sends nothing to the card and never
  -- returns without an error: it fails or waits with the world as it was, or panics.
  pub authenticate-Stuck :
      (s : Session W)
      → is_zero s.card_info.pin_retries ≡ true
      → is_zero s.card_info.puk_retries ≡ true
      → Stuck s.world (authenticate card s)
  unfolding authenticate authenticate_round ask repeat ◌>>=◌ gets
  authenticate-Stuck s h k = rw h (
      Stuck-continue s.world _ (next (repeat (length s.answers) (authenticate_round card)))
        (Stuck-continue s.world (unblock_flow card s) _ (unblock-Stuck s k)))
