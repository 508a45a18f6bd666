-- ===== src/Flow/Races/Calls.antt =====
-- Calls on a flow that waits at its pause.
use status_keycard_go.Prelude.{◌≡◌, ◌⊎◌, ℕ, ◌<◌}
use status_keycard_go.Flow.Control.{RunState, paused, resuming, cancelling}
use status_keycard_go.Flow.Races.{
  Caller, free, resume_read, resume_set, cancel_read, cancel_set, waiting, woken, Race, Step,
}

-- What a call has still to do, in steps.
abbrev pub left : Caller → ℕ
left resume_read = 2
left resume_set = 1
left (cancel_read _) = 2
left cancel_set = 1
left _ = 0

-- A Resume that has found the flow paused at its pause, before its send.
abbrev pub Resuming : {P : Type 0} → Race P → Type 0
Resuming f =
    (f.place ≡ waiting)
    × (((f.state ≡ paused) × (f.caller ≡ resume_read))
        ⊎ ((f.state ≡ resuming) × (f.caller ≡ resume_set)))

-- A Cancel that has read Paused at the pause, before its send.
abbrev pub Cancelling : {P : Type 0} → Race P → Type 0
Cancelling f =
    (f.place ≡ waiting)
    × (((f.state ≡ paused) × (f.caller ≡ cancel_read paused))
        ⊎ ((f.state ≡ cancelling) × (f.caller ≡ cancel_set)))

-- The one of them that sets the state.
abbrev pub Called : {P : Type 0} → RunState → Race P → Type 0
Called resuming f = Resuming f
Called cancelling f = Cancelling f
Called _ f = ⊥

-- The call is over, and the goroutine is past its receive and finds the state s.
abbrev pub Woken : {P : Type 0} → RunState → Race P → Type 0
Woken s g = (g.place ≡ woken) × (g.caller ≡ free) × (g.state ≡ s)

-- Something can happen; all that can is the next step of the call, which sends no signal.
pub record Through {P : Type 0} (Q R : Race P → Type 0) (f : Race P) : Type 0 where
  pub can : (g : Race P) × Step f g
  pub next :
      (g : Race P)
      → Step f g
      → (g.signals ≡ f.signals) × ((Q g × (left g.caller < left f.caller)) ⊎ R g)
