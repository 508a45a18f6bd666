-- ===== src/Keycard/Life.antt =====
-- `StartKeycardContext`, and what its goroutine `run` does until it serves commands.
use status_keycard_go.Prelude.{
  ℕ, zero, suc, Option, none, some, List, [], ◌∷◌, map, if◌then◌else◌, Text, get_elem?, codes,
}
use status_keycard_go.Internal.Errors.{Error, Result, ok, err, own, pcsc, message}
use status_keycard_go.Internal.Readers.{ReaderState, ReadersStates, has_flag, state_present, update}
use status_keycard_go.Card.{Card}

-- How `waitForCard` ends; `endless` is a loop of the model that ran out of rounds.
pub data Found : Type 0 where
  found : ℕ → Found
  failed : Error → Found
  endless : Found

-- How `connect` ends; `panicked` is an index out of range.
pub data Connected : Type 0 where
  connected : Connected
  refused : Error → Connected
  panicked : Connected
  waiting : Connected

-- The first reader with a card, at index `i` or behind it.
unfoldable pub present_from : ℕ → ReadersStates → Option ℕ
present_from i [] = none
present_from i (r ∷ rs) =
    let rest = present_from (suc i) rs in
    if has_flag r.event_state state_present then some i else rest

abbrev pub unaware : Text → ReaderState
unaware name = record { reader = name; current_state = 0; event_state = 0 }

module _ {W : Type 0} (card : Card W) where
  abbrev pub listed : (List Text × Option Error) × W → Result (List Text) × W
  listed ((readers, some e), w) = (err (own (message (codes "no-reader-list"))), w)
  listed (([], none), w) = (err (own (message (codes "no-reader-found"))), w)
  listed ((r ∷ rs, none), w) = (ok (r ∷ rs), w)

  abbrev pub established : Option Error × W → Result (List Text) × W
  established (some e, w) = (err (own pcsc), w)
  established (none, w) = listed (card.list_readers w)

  -- `start`: the readers, or the error that `StartKeycardContext` returns.
  unfoldable pub start : W → Result (List Text) × W
  start w = established (card.establish w)

  -- The rest of a round: `again` is the next one.
  abbrev pub after_change :
      (ReadersStates → W → Found × W) → (ReadersStates × Option Error) × W → Found × W
  after_change again ((rs, some e), w) = (failed e, w)
  after_change again ((rs, none), w) = again rs w

  abbrev pub unless_present : Option ℕ → Found × W → W → Found × W
  unless_present (some i) r w = (found i, w)
  unless_present none r w = r

  -- The loop of `waitForCard`, at the test of the states.
  unfoldable pub wait_rounds : ℕ → ReadersStates → W → Found × W
  unfolding present_from update
  wait_rounds zero rs w = (endless, w)
  wait_rounds (suc n) rs w =
      let rest = after_change (wait_rounds n) (card.get_status_change (update rs) w) in
      unless_present (present_from 0 rs) rest w

  unfoldable pub wait_for_card : ℕ → List Text → W → Found × W
  unfolding wait_rounds
  wait_for_card rounds readers w = wait_rounds rounds (map unaware readers) w

  abbrev pub status_read : Option Error × W → Connected × W
  status_read (some e, w) = (refused e, w)
  status_read (none, w) = (connected, w)

  abbrev pub card_opened : Option Error × W → Connected × W
  card_opened (some e, w) = (refused e, w)
  card_opened (none, w) = status_read (card.card_status w)

  abbrev pub at_reader : Option Text → W → Connected × W
  at_reader none w = (panicked, w)
  at_reader (some reader) w = card_opened (card.connect reader w)

  abbrev pub card_found : List Text → Found × W → Connected × W
  card_found readers (found i, w) = at_reader (get_elem? readers i) w
  card_found readers (failed e, w) = (refused e, w)
  card_found readers (endless, w) = (waiting, w)

  unfoldable pub connect : ℕ → List Text → W → Connected × W
  unfolding wait_for_card
  connect rounds readers w = card_found readers (wait_for_card rounds readers w)

  -- The deferred release of `run`, behind an error.
  abbrev pub released : Connected × W → Connected × W
  released (refused e, w) = (refused e, (card.release w).1)
  released (r, w) = (r, w)

  -- `run` between its two sends on `connected`: a refusal is what `RunErr` gives.
  unfoldable pub run : ℕ → List Text → W → Connected × W
  unfolding connect
  run rounds readers w = released (connect rounds readers w)
