-- ===== src/Mocked/Orders.antt =====
-- The orders of events of the mock: the calls of its interface, the runs of the goroutines that they
-- have started, and changes of the cards in memory by the caller.
use status_keycard_go.Prelude.{ℕ, ◌<◌, ◌≡◌, true, Option, some, is_some, Text}
use status_keycard_go.Prelude.Int.{ℤ}
use status_keycard_go.Prelude.Dict.{Dict}
use status_keycard_go.Internal.Errors.{Error}
use status_keycard_go.Flow.Values.{Value}
use status_keycard_go.Mocked.Cards.{ReaderState, KeycardState}
use status_keycard_go.Mocked.Machine.{MockedFlow, Heap, Host, done}
use status_keycard_go.Mocked.Storing.{new_mocked_flow}
use status_keycard_go.Mocked.Running.{run_flow}
use status_keycard_go.Mocked.Control.{
  start, resume, cancel, reader_plugged_in, reader_unplugged, insert_keycard, remove_keycard,
  register_keycard,
}

module _ {W : Type 0} (host : Host W) where
  pub data Step : MockedFlow W → MockedFlow W → Type 0 where
    starts : (t : ℕ) (m : Option (Dict Value)) {s : MockedFlow W} → Step s (start t m s).1
    resumes : (m : Dict Value) {s : MockedFlow W} → Step s (resume m s).1
    cancels : {s : MockedFlow W} → Step s (cancel s).1
    plugs_in : {s : MockedFlow W} → Step s (reader_plugged_in s)
    unplugs : {s : MockedFlow W} → Step s (reader_unplugged s)
    inserts : (i : ℤ) {s : MockedFlow W} → Step s (insert_keycard i s).1
    removes : {s : MockedFlow W} → Step s (remove_keycard s)
    registers :
        (i : ℤ) (r : ReaderState) (c : KeycardState) (p q : Option ℕ) {s : MockedFlow W}
        → Step s (register_keycard host i r c p q s).1
    edits : (h : Heap) {s : MockedFlow W} → Step s (record s { heap = h })
    runs : {s t : MockedFlow W} {a : Unit {0}} → 0 < s.runs → run_flow host s ≡ done a t → Step s t

  -- From a flow that NewMockedFlow has returned, with a map of pairings that is not nil.
  pub data Reachable : MockedFlow W → Type 0 where
    opens :
        (dir : Text) (h : Heap) (w : W) {w' : W} {e : Option Error} {s : MockedFlow W}
        → new_mocked_flow host dir h w ≡ ((some s, e), w')
        → is_some s.pairings.values ≡ true
        → Reachable s
    then_step : {s t : MockedFlow W} → Reachable s → Step s t → Reachable t
