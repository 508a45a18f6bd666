-- ===== src/Flow/Races/Silent.antt =====
-- A flow that was cancelled, outside of the windows in which it does not know yet.
use status_keycard_go.Prelude.{◌≡◌, ◌≢◌, ◌⊎◌}
use status_keycard_go.Flow.Control.{cancelling}
use status_keycard_go.Flow.Races.{
  starting, resume_read, resume_set, ended, connecting, called_off, working, waiting, woken,
  leaving, reported, Race,
}

-- The caller has cancelled, and is neither in a Start nor in a Resume. The goroutine is in the flow, at
-- the receive of a pause or past it, past the receive of connect, behind the loop, or behind the test
-- that has found the flow cancelled.
abbrev pub Cancelled : {P : Type 0} → Race P → Type 0
Cancelled f =
    (f.state ≡ cancelling)
    × (f.caller ≢ starting)
    × (f.caller ≢ resume_read)
    × (f.caller ≢ resume_set)
    × ((f.place ≡ working)
        ⊎ (f.place ≡ waiting)
        ⊎ (f.place ≡ woken)
        ⊎ (f.place ≡ called_off)
        ⊎ (f.place ≡ leaving)
        ⊎ (f.place ≡ reported))

abbrev pub Silent : {P : Type 0} → Race P → Race P → Type 0
Silent f g = (Cancelled g ⊎ (g.place ≡ ended) ⊎ (g.place ≡ connecting)) × (g.signals ≡ f.signals)
