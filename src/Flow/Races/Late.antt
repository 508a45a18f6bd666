-- ===== src/Flow/Races/Late.antt =====
-- A Cancel that assigns after the last assignment of the goroutine.
use status_keycard_go.Prelude.{◌≡◌, ◌≢◌, ◌⊎◌, inl, refl, arith, ◌∙◌}
use status_keycard_go.Flow.Control.{RunState, idle, paused, cancelling}
use status_keycard_go.Flow.Races.{
  free, starting, cancel_read, ended, reported, Race, Steps, stays, also, Step, tests_idle, starts,
  tests_paused, sets_resuming, reads_state, sets_cancelling, cancels, wakes_resumed,
  wakes_cancelled, connect_resumed, connect_cancelled, stops_connecting, panics, timer_signals,
  timer_pauses, finds_card, finds_inserted, runs_again, announces, fails_to_connect, gives_up,
  checks, asks, pauses, sees_resuming, sees_other, goes_on, restarts, leaves, sees_cancelling,
  reports, sends_result, ends,
}

-- There is no goroutine, the flow is cancelling, and the caller is in no call, or in a Cancel again.
abbrev pub Dead : {P : Type 0} → Race P → Type 0
Dead f =
    (f.place ≡ ended)
    × (f.state ≡ cancelling)
    × ((f.caller ≡ free) ⊎ (f.caller ≡ cancel_read cancelling))

module _ {P : Type 0} where
  Step-Dead : {f g : Race P} → Dead f → Step f g → Dead g × (g.signals ≡ f.signals)
  Step-Dead d (tests_idle {f} h0 h1) = ground arith
  Step-Dead d (starts {f} h) = ground arith
  Step-Dead d (tests_paused {f} h0 h1) = ground arith
  Step-Dead d (sets_resuming {f} h) = ground arith
  Step-Dead d (reads_state {f} h0 h1) = ground arith
  Step-Dead d (sets_cancelling {f} h) = ground arith
  Step-Dead d (cancels s {f} h0 h1) = ground arith
  Step-Dead d (wakes_resumed {f} h0 h1) = ground arith
  Step-Dead d (wakes_cancelled {f} h0 h1) = ground arith
  Step-Dead d (connect_resumed {f} h0 h1) = ground arith
  Step-Dead d (connect_cancelled {f} h0 h1) = ground arith
  Step-Dead d (stops_connecting {f} h0 h1) = ground arith
  Step-Dead d (panics {f} h0 h1) = ground arith
  Step-Dead d (timer_signals x {f} h) = ground arith
  Step-Dead d (timer_pauses {f} h) = ground arith
  Step-Dead d (finds_card {f} h0 h1) = ground arith
  Step-Dead d (finds_inserted {f} h0 h1) = ground arith
  Step-Dead d (runs_again {f} h) = ground arith
  Step-Dead d (announces x {f} h) = ground arith
  Step-Dead d (fails_to_connect {f} h) = ground arith
  Step-Dead d (gives_up {f} h0 h1) = ground arith
  Step-Dead d (checks {f} h0 h1) = ground arith
  Step-Dead d (asks x {f} h) = ground arith
  Step-Dead d (pauses {f} h) = ground arith
  Step-Dead d (sees_resuming {f} h0 h1) = ground arith
  Step-Dead d (sees_other {f} h0 h1) = ground arith
  Step-Dead d (goes_on {f} h) = ground arith
  Step-Dead d (restarts {f} h) = ground arith
  Step-Dead d (leaves {f} h) = ground arith
  Step-Dead d (sees_cancelling {f} h0 h1) = ground arith
  Step-Dead d (reports {f} h0 h1) = ground arith
  Step-Dead d (sends_result x {f} h) = ground arith
  Step-Dead d (ends {f} h) = ground arith

  Steps-Dead : {f g : Race P} → Dead f → Steps f g → Dead g × (g.signals ≡ f.signals)
  Steps-Dead d stays = (d, refl)
  Steps-Dead d (also r s) =
      let (e, q) = Steps-Dead d r in let (e', q') = Step-Dead e s in (e', q' ∙ q)

  -- Let a Cancel have read another state than Paused, and let the goroutine then reach its last
  -- assignment. If the goroutine assigns first and the Cancel behind it, the Cancel returns and leaves a
  -- flow that is cancelling without a goroutine. From there on, in every order of reads and writes, it
  -- stays so and sends no signal, and no Start passes its test.
  pub late_cancel-Dead :
      (s : RunState) {f : Race P}
      → f.caller ≡ cancel_read s
      → s ≢ paused
      → f.place ≡ reported
      → (g : Race P) × Steps f g
        × (g.caller ≡ free)
        × Dead g
        × ((h : Race P)
            → Steps g h
            → Dead h × (h.signals ≡ g.signals) × (h.state ≢ idle) × (h.caller ≢ starting))
  late_cancel-Dead s {f} c n p =
      let dead : Dead (record f { place = ended; state = cancelling; caller = free }) =
        (refl, refl, inl refl) in
      (
        record f { place = ended; state = cancelling; caller = free },
        also (also stays (ends p)) (cancels s c n),
        refl,
        dead,
        λ h r. let (d, q) = Steps-Dead dead r in (d, q, (λ e. ground arith), λ e. ground arith),
      )
