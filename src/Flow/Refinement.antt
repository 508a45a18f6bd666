-- ===== src/Flow/Refinement.antt =====
-- What a flow does to its state, as steps of the protocol of `Start`, `Resume` and `Cancel`.
use status_keycard_go.Prelude.{
  ℕ, ◌≡◌, ◌≢◌, refl, Bool, true, false, Option, none, some, List, [], ◌∷◌, if◌then◌else◌, Text,
  arith,
}
use status_keycard_go.Prelude.Dict.{Dict}
use status_keycard_go.Flow.Values.{Value, Action, action_text}
use status_keycard_go.Flow.Control.{
  RunState, RunState-discrete, Flow, FlowError, Called, returned, crashed, blocked, resume,
  resume_with, merge, cancel, send_at, wake_up, test_cancelled, pause, go_on, in_state, cancelling,
  resuming, paused, idle, working, checked, waiting, woken, leaving, running, action,
}
use status_keycard_go.Pairing.{FileSystem}
use status_keycard_go.Card.{Card}
use status_keycard_go.Flow.Run.{with_card}
use status_keycard_go.Flow.Preservation.Run.{Leaves-with_card}
use status_keycard_go.Flow.Session.{
  Answer, resumed, cancelled, cancelled_early, Session, Fault, Ended, value, fault, panic,
  exhausted, called, answered, pause_tested, pause_with, pause_and_wait_with_status, pause_status,
}
use status_keycard_go.Flow.Session
use status_keycard_go.Flow.Control
use status_keycard_go.Flow.Session.Rules.{Holds, Invariant}

-- What may happen to the shared state while a flow works with its card: the goroutine edits the
-- parameters, tests the state before a pause, pauses, and goes on behind it, and the caller resumes or
-- cancels. Neither leaves the flow, ends it, starts another one or connects again.
pub data Step {P : Type 0} : Flow P → Flow P → Type 0 where
  resumes :
      (params : Dict P) {f g : Flow P} {e : Option FlowError}
      → resume params f ≡ returned e g
      → Step f g
  cancels : {f g : Flow P} {e : Option FlowError} → cancel f ≡ returned e g → Step f g
  gives_up :
      {f : Flow P}
      → f.position ≡ working
      → f.state ≡ cancelling
      → Step f (record f { position = leaving })
  passes :
      {f : Flow P}
      → f.position ≡ working
      → f.state ≢ cancelling
      → Step f (record f { position = checked })
  pauses :
      (name : Text) (status : Dict P) {f : Flow P}
      → f.position ≡ checked
      → Step f (record f {
        signals = action name status ∷ f.signals;
        state = paused;
        position = waiting;
      })
  works_on :
      {f : Flow P}
      → f.position ≡ woken
      → f.state ≡ resuming
      → Step f (record f { state = running; position = working })
  stops :
      {f : Flow P}
      → f.position ≡ woken
      → f.state ≢ resuming
      → Step f (record f { position = leaving })
  edits :
      (params : Option (Dict P)) {f : Flow P}
      → f.position ≡ working
      → Step f (record f { params = params })

pub data Steps {P : Type 0} (f : Flow P) : Flow P → Type 0 where
  stays : Steps f f
  also : {g h : Flow P} → Steps f g → Step g h → Steps f h

-- The goroutine works, after steps from `f`.
abbrev pub Works : {W : Type 0} → Flow Value → Session W → Type 0
Works f s = Steps f s.flow × (s.flow.position ≡ working)

abbrev pub Stepped : {W : Type 0} → Flow Value → Session W → Type 0
Stepped f s = Steps f s.flow

module _ {P : Type 0} where
  -- A call that returns leaves a goroutine at its pause woken, or where it was.
  abbrev To : Called P → (Flow P → Type 0) → Type 0
  To r Q = (e : Option FlowError) (g : Flow P) → r ≡ returned e g → Q g

  cancel-working : (f : Flow P) → f.position ≡ working → To (cancel f) (λ g. g.position ≡ working)
  unfolding cancel wake_up send_at
  cancel-working f h e g = ground arith

  cancel-woken :
      (f : Flow P)
      → f.position ≡ waiting
      → f.state ≡ paused
      → To (cancel f) (λ g. g.position ≡ woken)
  unfolding cancel wake_up send_at
  cancel-woken f h k e g = ground arith

  merged-woken :
      (o : Option (Option (Dict P))) (f : Flow P)
      → f.position ≡ waiting
      → To (resume_with o f) (λ g. g.position ≡ woken)
  unfolding resume_with wake_up send_at
  merged-woken none f h e g = λ q. cc q
  merged-woken (some m) f h e g = ground arith

  resume-woken :
      (d : Dict P) (f : Flow P)
      → f.position ≡ waiting
      → f.state ≡ paused
      → To (resume d f) (λ g. g.position ≡ woken)
  unfolding resume
  resume-woken d f h k e g = ground (arith, merged-woken (merge d f.params) f h e g)

-- One of two steps, by a decision.
chosen :
    {P A : Type 0} {f g h : Flow P} (d : Dec A)
    → (A → Step f g)
    → (¬ A → Step f h)
    → Step f (if (elim d [ yes _ ↦ true | no _ ↦ false ]) then g else h)
chosen (yes q) m n = m q
chosen (no q) m n = n q

tested_lem : {P : Type 0} (f : Flow P) → f.position ≡ working → Step f (test_cancelled f)
unfolding test_cancelled
tested_lem f h = chosen (RunState-discrete f.state cancelling) (gives_up h) (passes h)

went_on_lem : {P : Type 0} (f : Flow P) → f.position ≡ woken → Step f (go_on f)
unfolding go_on
went_on_lem f h = chosen (RunState-discrete f.state resuming) (works_on h) (stops h)

resumed-working :
    {P : Type 0} (g : Flow P) → in_state g.state resuming ≡ true → (go_on g).position ≡ working
unfolding go_on
resumed-working g h = ground arith

test-checked :
    {P : Type 0} (g : Flow P)
    → in_state g.state cancelling ≡ false
    → (test_cancelled g).position ≡ checked
unfolding test_cancelled
test-checked g h = ground arith

-- How a function ends that starts where the goroutine works.
abbrev Stays : {W A : Type 0} → Flow Value → Ended W A → Type 0
Stays f r = Holds (Works f) (Stepped f) r

module _ {W : Type 0} (f : Flow Value) where
  -- A test of the state behind which the goroutine works or gives up.
  tested :
      (b : Bool) (r : Ended W (Unit {0})) (t : Session W)
      → (b ≡ true → Stays f r)
      → Steps f t.flow
      → Stays f (if b then r else fault Fault.giveup t)
  tested true r t h k = h refl
  tested false r t h k = k

  refused :
      (b : Bool) (r : Ended W (Unit {0})) (t : Session W)
      → (b ≡ false → Stays f r)
      → Steps f t.flow
      → Stays f (if b then fault Fault.giveup t else r)
  refused true r t h k = k
  refused false r t h k = h refl

  went_on : (s : Session W) → s.flow.position ≡ woken → Steps f s.flow → Stays f (Session.woken s)
  unfolding Session.woken
  went_on s h k =
      let t : Session W = record s { flow = go_on s.flow } in
      let there : Steps f t.flow = also k (went_on_lem s.flow h) in
      tested (in_state s.flow.state resuming) (value tt t) t
        (λ q. (there, resumed-working s.flow q)) there

  called-Stays :
      (r : Called Value) (s : Session W) (m : Session W → Ended W (Unit {0})) (p : Control.Position)
      → Steps f s.flow
      → ((e : Option FlowError) (g : Flow Value)
          → r ≡ returned e g
          → Step s.flow g × (g.position ≡ p))
      → ((t : Session W) → t.flow.position ≡ p → Steps f t.flow → Stays f (m t))
      → Stays f (called r s m)
  called-Stays (returned e g) s m p h k n =
      n (record s { flow = g }) (k e g refl).1 (also h (k e g refl).0)
  called-Stays crashed s m p h k n = tt
  called-Stays blocked s m p h k n = h

  answered-Stays :
      (a : List Answer) (s : Session W)
      → s.flow.position ≡ waiting
      → s.flow.state ≡ paused
      → Steps f s.flow
      → Stays f (answered a s)
  unfolding answered
  answered-Stays [] s h p k = k
  answered-Stays (resumed d ∷ rest) s h p k =
      called-Stays (resume d s.flow) (record s { answers = rest }) Session.woken woken k
        (λ e g q. (resumes d q, resume-woken d s.flow h p e g q)) went_on
  answered-Stays (cancelled ∷ rest) s h p k =
      called-Stays (cancel s.flow) (record s { answers = rest }) Session.woken woken k
        (λ e g q. (cancels q, cancel-woken s.flow h p e g q)) went_on
  answered-Stays (cancelled_early ∷ rest) s h p k =
      called-Stays (cancel s.flow) (record s { answers = rest }) Session.woken woken k
        (λ e g q. (cancels q, cancel-woken s.flow h p e g q)) went_on

  pause_tested-Stays :
      (a : Action) (m : Text) (d : Dict Value) (s : Session W)
      → s.flow.position ≡ working
      → Steps f s.flow
      → Stays f (pause_tested a m d s)
  unfolding pause_tested pause
  pause_tested-Stays a m d s h k =
      let there : Steps f (test_cancelled s.flow) = also k (tested_lem s.flow h) in
      refused (in_state s.flow.state cancelling) _ (record s { flow = test_cancelled s.flow })
        (λ q. answered-Stays s.answers _ refl refl (
          also there
            (pauses (action_text a) (pause_status m d s.card_info) (test-checked s.flow q))))
        there

  pause_with-Stays :
      (l : List Answer) (a : Action) (m : Text) (d : Dict Value) (s : Session W)
      → Works f s
      → Stays f (pause_with l a m d s)
  unfolding pause_with
  pause_with-Stays (cancelled_early ∷ rest) a m d s (k, h) =
      called-Stays (cancel s.flow) (record s { answers = rest }) (pause_tested a m d) working k
        (λ e g q. (cancels q, cancel-working s.flow h e g q)) (pause_tested-Stays a m d)
  pause_with-Stays [] a m d s (k, h) = pause_tested-Stays a m d s h k
  pause_with-Stays (resumed x ∷ rest) a m d s (k, h) = pause_tested-Stays a m d s h k
  pause_with-Stays (cancelled ∷ rest) a m d s (k, h) = pause_tested-Stays a m d s h k

  pause-Stays :
      (a : Action) (m : Text) (d : Dict Value) (s : Session W)
      → Works f s
      → Stays f (pause_and_wait_with_status a m d s)
  unfolding pause_and_wait_with_status
  pause-Stays a m d s h = pause_with-Stays s.answers a m d s h

  -- Every session on the way has been reached by steps of the protocol.
  stepping : Invariant W
  stepping = record {
    P = Works f;
    Q = Stepped f;
    weaker = λ s h. h.0;
    on_world = λ s w h. h;
    on_card = λ s c h. h;
    on_store = λ s w p h. h;
    on_info = λ s i h. h;
    on_pairing = λ s i h. h;
    on_params = λ s m h. (also h.0 (edits m h.1), h.1);
    on_pause = pause-Stays;
  }

module _ {W : Type 0} (card : Card W) (fs : FileSystem W) (rounds : ℕ) where
  -- Let the goroutine of a flow work with a connected card. Whatever the flow does (a factory reset,
  -- the selection of the applet, and the commands of its type) with whatever answers of the user,
  -- the state that it leaves where it returns, fails, or waits for an answer is reached from its own
  -- by edits of the parameters and by whole pauses alone: a test of the state, which a cancelled flow
  -- does not pass, the signal with the assignment of the state, a Resume or Cancel of the user, and the
  -- end of the pause, where only a resumed flow works on. No signal is sent but by such a pause.
  pub with_card-Steps :
      (s : Session W)
      → s.flow.position ≡ working
      → Holds (Stepped s.flow) (Stepped s.flow) (with_card card fs rounds s)
  unfolding stepping
  with_card-Steps s h = (Leaves-with_card {v = stepping s.flow} card fs rounds).at s (stays, h)
