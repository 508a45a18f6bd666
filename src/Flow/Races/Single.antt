-- ===== src/Flow/Races/Single.antt =====
-- A flow has one goroutine at most, in every order of reads and writes.
use status_keycard_go.Prelude.{◌≡◌}
use status_keycard_go.Flow.Control.{idle}
use status_keycard_go.Flow.Races.{starting, ended, Race}

pub record Single {P : Type 0} (f : Race P) : Type 0 where
  pub alone : f.state ≡ idle → f.place ≡ ended
  pub fresh : f.caller ≡ starting → f.state ≡ idle
