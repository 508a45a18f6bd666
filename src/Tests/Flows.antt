-- ===== src/Tests/Flows.antt =====
-- Orders of the reads and writes of a caller and of the goroutine of a flow.
use status_keycard_go.Prelude.{ℕ, ◌≡◌, ◌≢◌, refl, []}
use status_keycard_go.Flow.Control.{idle, running, paused, cancelling}
use status_keycard_go.Flow.Races.{
  free, starting, cancel_read, working, waiting, reported, leaving, Race, Steps,
}
use status_keycard_go.Flow.Races.Single.{Single}
use status_keycard_go.Flow.Races.Silent.{Silent}
use status_keycard_go.Flow.Races.Late.{Dead, late_cancel-Dead}

-- A flow that has been started, with its card there.
abbrev in_flow : Race ℕ
in_flow = record { state = running; caller = free; place = working; signals = [] }

abbrev asking : Race ℕ
asking = record { state = paused; caller = cancel_read paused; place = waiting; signals = [] }

abbrev cancelled_flow : Race ℕ
cancelled_flow = record { state = cancelling; caller = free; place = leaving; signals = [] }

abbrev late_flow : Race ℕ
late_flow = record { state = running; caller = cancel_read running; place = reported; signals = [] }

late_cancel-Dead_example :
    (g : Race ℕ) × Steps late_flow g
    × (g.caller ≡ free)
    × Dead g
    × ((h : Race ℕ)
        → Steps g h
        → Dead h × (h.signals ≡ g.signals) × (h.state ≢ idle) × (h.caller ≢ starting))
late_cancel-Dead_example = late_cancel-Dead running refl (λ e. cc e) refl
