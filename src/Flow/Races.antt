-- ===== src/Flow/Races.antt =====
-- pkg/flow/flow.go: Start, Resume and Cancel beside the goroutine of runFlow, one read or write of the
-- shared state at a time. A caller makes one call after the other. The parameters are left out, and
-- with them the panic of a Resume that finds them nil.
pub mod Single
pub mod Calls
pub mod Silent
pub mod Late
use status_keycard_go.Prelude.{◌≡◌, ◌≢◌, List, [], ◌∷◌}
use status_keycard_go.Flow.Control.{RunState, idle, running, paused, resuming, cancelling, Signal}

-- Where the caller is.
pub data Caller : Type 0 where
  free : Caller  -- in no call
  starting : Caller  -- in Start, past its test
  resume_read : Caller  -- in Resume, past its test
  resume_set : Caller  -- in Resume, at the send to wakeUp
  cancel_read : RunState → Caller  -- in Cancel, with what it has read
  cancel_set : Caller  -- in Cancel, at the send to wakeUp

-- Where the goroutine is.
pub data Place : Type 0 where
  ended : Place  -- there is none
  connecting : Place  -- in connect, at the select
  timed : Place  -- in connect, behind the signal of the timer's pause
  called_off : Place  -- in connect, past the receive from wakeUp
  inserted : Place  -- in connect, past the test for Paused
  announcing : Place  -- in connect, before the announcement of the card
  working : Place  -- in the flow
  checked : Place  -- in a pause, past the test for Cancelling
  asked : Place  -- in a pause, behind its signal
  waiting : Place  -- in a pause, at the receive from wakeUp
  woken : Place  -- in a pause, past the receive
  resumed : Place  -- in a pause, past the test for Resuming
  leaving : Place  -- behind the loop of runFlow
  reporting : Place  -- behind the loop, past the test for Cancelling
  reported : Place  -- before the assignment of Idle
  panicked : Place  -- the program has ended

pub record Race (P : Type 0) : Type 0 where
  pub state : RunState
  pub caller : Caller
  pub place : Place
  pub signals : List (Signal P)

abbrev pub quiet_flow : {P : Type 0} → Race P
quiet_flow = record { state = idle; caller = free; place = ended; signals = [] }

pub data Step {P : Type 0} : Race P → Race P → Type 0 where
  -- `Start`
  tests_idle :
      {f : Race P} → f.caller ≡ free → f.state ≡ idle → Step f (record f { caller = starting })
  starts :
      {f : Race P}
      → f.caller ≡ starting
      → Step f (record f { caller = free; state = running; place = connecting })
  -- `Resume`
  tests_paused :
      {f : Race P} → f.caller ≡ free → f.state ≡ paused → Step f (record f { caller = resume_read })
  sets_resuming :
      {f : Race P}
      → f.caller ≡ resume_read
      → Step f (record f { caller = resume_set; state = resuming })
  -- `Cancel`
  reads_state :
      {f : Race P}
      → f.caller ≡ free
      → f.state ≢ idle
      → Step f (record f { caller = cancel_read f.state })
  sets_cancelling :
      {f : Race P}
      → f.caller ≡ cancel_read paused
      → Step f (record f { caller = cancel_set; state = cancelling })
  cancels :
      (s : RunState) {f : Race P}
      → f.caller ≡ cancel_read s
      → s ≢ paused
      → Step f (record f { caller = free; state = cancelling })
  -- A send to wakeUp, and the receive of the goroutine.
  wakes_resumed :
      {f : Race P}
      → f.caller ≡ resume_set
      → f.place ≡ waiting
      → Step f (record f { caller = free; place = woken })
  wakes_cancelled :
      {f : Race P}
      → f.caller ≡ cancel_set
      → f.place ≡ waiting
      → Step f (record f { caller = free; place = woken })
  connect_resumed :
      {f : Race P}
      → f.caller ≡ resume_set
      → f.place ≡ connecting
      → Step f (record f { caller = free; place = called_off })
  connect_cancelled :
      {f : Race P}
      → f.caller ≡ cancel_set
      → f.place ≡ connecting
      → Step f (record f { caller = free; place = called_off })
  -- `connect`
  stops_connecting :
      {f : Race P}
      → f.place ≡ called_off
      → f.state ≡ cancelling
      → Step f (record f { place = leaving })
  panics :
      {f : Race P}
      → f.place ≡ called_off
      → f.state ≢ cancelling
      → Step f (record f { place = panicked })
  timer_signals :
      (x : Signal P) {f : Race P}
      → f.place ≡ connecting
      → Step f (record f { place = timed; signals = x ∷ f.signals })
  timer_pauses :
      {f : Race P} → f.place ≡ timed → Step f (record f { place = connecting; state = paused })
  finds_card :
      {f : Race P} → f.place ≡ connecting → f.state ≢ paused → Step f (record f { place = working })
  finds_inserted :
      {f : Race P}
      → f.place ≡ connecting
      → f.state ≡ paused
      → Step f (record f { place = inserted })
  runs_again :
      {f : Race P} → f.place ≡ inserted → Step f (record f { place = announcing; state = running })
  announces :
      (x : Signal P) {f : Race P}
      → f.place ≡ announcing
      → Step f (record f { place = working; signals = x ∷ f.signals })
  fails_to_connect : {f : Race P} → f.place ≡ connecting → Step f (record f { place = leaving })
  -- `pauseAndWaitWithStatus`
  gives_up :
      {f : Race P}
      → f.place ≡ working
      → f.state ≡ cancelling
      → Step f (record f { place = leaving })
  checks :
      {f : Race P}
      → f.place ≡ working
      → f.state ≢ cancelling
      → Step f (record f { place = checked })
  asks :
      (x : Signal P) {f : Race P}
      → f.place ≡ checked
      → Step f (record f { place = asked; signals = x ∷ f.signals })
  pauses : {f : Race P} → f.place ≡ asked → Step f (record f { place = waiting; state = paused })
  sees_resuming :
      {f : Race P} → f.place ≡ woken → f.state ≡ resuming → Step f (record f { place = resumed })
  sees_other :
      {f : Race P} → f.place ≡ woken → f.state ≢ resuming → Step f (record f { place = leaving })
  goes_on :
      {f : Race P} → f.place ≡ resumed → Step f (record f { place = working; state = running })
  -- `runFlow`: a restart, or the end of the flow.
  restarts : {f : Race P} → f.place ≡ working → Step f (record f { place = connecting })
  leaves : {f : Race P} → f.place ≡ working → Step f (record f { place = leaving })
  sees_cancelling :
      {f : Race P}
      → f.place ≡ leaving
      → f.state ≡ cancelling
      → Step f (record f { place = reported })
  reports :
      {f : Race P}
      → f.place ≡ leaving
      → f.state ≢ cancelling
      → Step f (record f { place = reporting })
  sends_result :
      (x : Signal P) {f : Race P}
      → f.place ≡ reporting
      → Step f (record f { place = reported; signals = x ∷ f.signals })
  ends : {f : Race P} → f.place ≡ reported → Step f (record f { place = ended; state = idle })

pub data Steps {P : Type 0} (f : Race P) : Race P → Type 0 where
  stays : Steps f f
  also : {g h : Race P} → Steps f g → Step g h → Steps f h
