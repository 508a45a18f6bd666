-- ===== src/Mocked/Control.antt =====
-- pkg/flow/mocked/mocked_flow.go: the methods that a program calls.
use status_keycard_go.Prelude.{ℕ, ◌+◌, Bool, true, not, Option, none, some, [], if◌then◌else◌}
use status_keycard_go.Prelude.Int.{ℤ}
use status_keycard_go.Prelude.Dict.{Dict}
use status_keycard_go.Internal.Errors.{Error}
use status_keycard_go.Flow.Values.{Value}
use status_keycard_go.Flow.Control.{idle, running, paused, in_state, insert_all}
use status_keycard_go.Mocked.Cards.{
  ReaderState, no_reader, no_keycard, keycard_inserted, KeycardState, not_status_keycard,
  empty_keycard, max_pairing_slots_reached, max_pin_retries_reached, max_puk_retries_reached,
  keycard_with_mnemonic_only, keycard_with_mnemonic_and_metadata, custom, Keycard, blank_keycard,
  no_metadata, mocked_keycard, mocked_keycard_helper,
}
use status_keycard_go.Mocked.Machine.{MockedFlow, Host}
use status_keycard_go.Mocked.Storing.{card_of, put_card, allocated, store_registered}

-- The card that `RegisterKeycard` makes for one of its states, of a copy of `mockedKeycard`.
unfoldable pub prepared : KeycardState → Keycard
prepared not_status_keycard = record mocked_keycard { not_status_keycard = true }
prepared empty_keycard = blank_keycard
prepared max_pairing_slots_reached = record mocked_keycard { free_pairing_slots = 0 }
prepared max_pin_retries_reached = record mocked_keycard { pin_retries = 0 }
prepared max_puk_retries_reached = record mocked_keycard { puk_retries = 0 }
prepared keycard_with_mnemonic_only = record mocked_keycard { metadata = no_metadata }
prepared keycard_with_mnemonic_and_metadata = mocked_keycard
prepared custom = mocked_keycard

-- The error of a method.
pub data MockError : Type 0 where
  already_running only_paused cannot_cancel_idle no_registered_keycards : MockError
  must_be_provided : MockError
  from : Error → MockError

-- `go mkf.runFlow()`
abbrev pub spawn : {W : Type 0} → MockedFlow W → MockedFlow W
spawn s = record s { runs = s.runs + 1 }

abbrev pub spawn_if : {W : Type 0} → Bool → MockedFlow W → MockedFlow W
spawn_if b s = if b then spawn s else s

-- The parameters with the new ones; a nil map is made first.
abbrev pub merged : Dict Value → Option (Dict Value) → Dict Value
merged new none = insert_all new []
merged new (some m) = insert_all new m

module _ {W : Type 0} where
  unfoldable pub start : ℕ → Option (Dict Value) → MockedFlow W → Option MockError × MockedFlow W
  start flow_type params s =
      if not (in_state s.state idle)
      then (some already_running, s)
      else (none, spawn (record s { flow_type = flow_type; params = params; state = running }))

  -- The state stays paused.
  unfoldable pub resume : Dict Value → MockedFlow W → Option MockError × MockedFlow W
  resume params s =
      if not (in_state s.state paused)
      then (some only_paused, s)
      else (none, spawn (record s { params = some (merged params s.params) }))

  unfoldable pub cancel : MockedFlow W → Option MockError × MockedFlow W
  cancel s =
      if in_state s.state idle
      then (some cannot_cancel_idle, s)
      else (none, record s { state = idle; params = none })

  unfoldable pub reader_plugged_in : MockedFlow W → MockedFlow W
  reader_plugged_in s =
      spawn_if (in_state s.state running) (record s { current_reader_state = no_keycard })

  unfoldable pub reader_unplugged : MockedFlow W → MockedFlow W
  reader_unplugged s = spawn (record s { current_reader_state = no_reader })

  -- Both cards are there; the tests of the maps themselves say nothing more, as an empty map has none.
  abbrev pub with_inserted : Option ℕ → Option ℕ → MockedFlow W → Option MockError × MockedFlow W
  with_inserted (some p) (some q) s = (
    none,
    spawn_if (in_state s.state running) (record s {
      current_reader_state = keycard_inserted;
      inserted_keycard = some p;
      inserted_keycard_helper = some q;
    }),
  )
  with_inserted p q s = (some no_registered_keycards, s)

  unfoldable pub insert_keycard : ℤ → MockedFlow W → Option MockError × MockedFlow W
  insert_keycard i s =
      with_inserted (card_of i s.registered_keycards) (card_of i s.registered_keycard_helpers) s

  unfoldable pub remove_keycard : MockedFlow W → MockedFlow W
  remove_keycard s = spawn_if (in_state s.state running) (record s {
    current_reader_state = no_keycard;
    inserted_keycard = none;
    inserted_keycard_helper = none;
  })

  -- The rest of `RegisterKeycard`, with the two cards.
  abbrev pub with_registered : ℤ → ReaderState → ℕ → ℕ → MockedFlow W → MockedFlow W
  with_registered i reader p q s = record s {
    registered_keycards = put_card i (some p) s.registered_keycards;
    registered_keycard_helpers = put_card i (some q) s.registered_keycard_helpers;
    initial_reader_state = reader;
    current_reader_state = reader;
    inserted_keycard = some p;
    inserted_keycard_helper = some q;
  }

  abbrev pub reset_run : MockedFlow W → MockedFlow W
  reset_run s = record s { state = idle; params = none }

  -- Two new cards, for a state other than the custom one.
  abbrev pub with_new_cards : ℤ → ReaderState → Keycard → MockedFlow W → MockedFlow W
  with_new_cards i reader c s =
      with_registered i reader s.heap.next_card (s.heap.next_card + 1)
        (record s { heap = allocated mocked_keycard_helper (allocated c s.heap) })

module _ {W : Type 0} (host : Host W) where
  abbrev pub registered : Option Error × MockedFlow W → Option MockError × MockedFlow W
  registered (none, s) = (none, s)
  registered (some e, s) = (some (from e), s)

  unfoldable pub register_custom :
      ℤ → ReaderState → Option ℕ → Option ℕ → MockedFlow W → Option MockError × MockedFlow W
  unfolding store_registered
  register_custom i reader (some p) (some q) s =
      registered (store_registered host (with_registered i reader p q s))
  register_custom i r p q s = (some must_be_provided, s)

  -- `RegisterKeycard`; the cards of the caller are pointers, which may be nil.
  unfoldable pub register_keycard :
      ℤ
      → ReaderState
      → KeycardState
      → Option ℕ
      → Option ℕ
      → MockedFlow W
      → Option MockError × MockedFlow W
  unfolding register_custom prepared store_registered
  register_keycard i reader custom p q s = register_custom i reader p q (reset_run s)
  register_keycard i reader c p q s =
      registered (store_registered host (with_new_cards i reader (prepared c) (reset_run s)))
