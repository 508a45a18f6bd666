-- ===== src/Mocked/Library.antt =====
-- shared-mocked/main.go: the C interface of the mock. Unlike that of the flows it does not test
-- whether there is a flow. A flow that KeycardInitFlow replaces is forgotten with its goroutines.
use status_keycard_go.Prelude.{ℕ, zero, suc, Option, none, some, [], ◌∷◌, Text}
use status_keycard_go.Prelude.Int.{ℤ}
use status_keycard_go.Prelude.Dict.{Dict}
use status_keycard_go.Internal.Errors.{Error, Result, ok, err}
use status_keycard_go.Flow.Values.{Value}
use status_keycard_go.Shared.{or_empty}
use status_keycard_go.Mocked.Cards.{
  ReaderState, no_reader, no_keycard, keycard_inserted, unknown, KeycardState, not_status_keycard,
  empty_keycard, max_pairing_slots_reached, max_pin_retries_reached, max_puk_retries_reached,
  keycard_with_mnemonic_only, keycard_with_mnemonic_and_metadata, custom, Stored,
}
use status_keycard_go.Mocked.Machine.{Heap, MockedFlow, Host}
use status_keycard_go.Mocked.Storing.{card_read, new_mocked_flow}
use status_keycard_go.Mocked.Control.{
  MockError, from, start, resume, cancel, reader_plugged_in, reader_unplugged, insert_keycard,
  remove_keycard, register_keycard,
}

-- `globalFlow`; without a flow there are the memory and the world.
pub data Holder (W : Type 0) : Type 0 where
  absent : Heap → W → Holder W
  present : MockedFlow W → Holder W

-- `MockedReaderState(i)`; a negative number is unknown as well.
unfoldable pub reader_state_of : ℕ → ReaderState
reader_state_of zero = no_reader
reader_state_of (suc zero) = no_keycard
reader_state_of (suc (suc zero)) = keycard_inserted
reader_state_of (suc (suc (suc n))) = unknown

-- `MockedKeycardState(i)`
unfoldable pub keycard_state_of : ℕ → KeycardState
keycard_state_of zero = not_status_keycard
keycard_state_of (suc zero) = empty_keycard
keycard_state_of (suc (suc zero)) = max_pairing_slots_reached
keycard_state_of (suc (suc (suc zero))) = max_pin_retries_reached
keycard_state_of (suc (suc (suc (suc zero)))) = max_puk_retries_reached
keycard_state_of (suc (suc (suc (suc (suc zero))))) = keycard_with_mnemonic_only
keycard_state_of (suc (suc (suc (suc (suc (suc zero)))))) = keycard_with_mnemonic_and_metadata
keycard_state_of (suc (suc (suc (suc (suc (suc (suc n))))))) = custom

-- The JSON of the calls.
pub record Codec : Type 0 where
  pub params : Text → Result (Option (Dict Value))
  pub keycard : Text → Result Stored

pub data Call : Type 0 where
  init_flow : Text → Call
  start_flow : ℕ → Text → Call
  resume_flow : Text → Call
  cancel_flow plugged_in unplugged removed : Call
  register : ℤ → ℕ → ℕ → Text → Text → Call
  inserted_at : ℤ → Call

-- How an exported function ends; a panic ends the program.
pub data Answered (W : Type 0) : Type 0 where
  answered : Option MockError → Holder W → Answered W
  crashed : Answered W

abbrev pub memory : {W : Type 0} → Holder W → Heap
memory (absent h w) = h
memory (present s) = s.heap

abbrev pub outside : {W : Type 0} → Holder W → W
outside (absent h w) = w
outside (present s) = s.world

-- `jsonToMockedKeycard`: the empty text is no card; a card is a new object.
pub data Parsed : Type 0 where
  parsed : Option ℕ → Heap → Parsed
  malformed : Error → Parsed

abbrev pub parsed_as : Result Stored → Heap → Parsed
parsed_as (err e) h = malformed e
parsed_as (ok c) h = let (p, g) = card_read c h in parsed (some p) g

module _ (codec : Codec) where
  unfoldable pub json_to_keycard : Text → Heap → Parsed
  json_to_keycard [] h = parsed none h
  json_to_keycard (b ∷ bs) h = parsed_as (codec.keycard (b ∷ bs)) h

module _ {W : Type 0} where
  abbrev pub called : Option MockError × MockedFlow W → Answered W
  called (e, s) = answered e (present s)

  -- A method of `globalFlow`, which panics on a nil pointer.
  abbrev pub on_flow : (MockedFlow W → Option MockError × MockedFlow W) → Holder W → Answered W
  on_flow f (absent h w) = crashed
  on_flow f (present s) = called (f s)

  abbrev pub with_params :
      Result (Option (Dict Value)) → (Option (Dict Value) → Answered W) → Holder W → Answered W
  with_params (err e) k l = answered (some (from e)) l
  with_params (ok m) k l = k m

  abbrev pub opened_as : (Option (MockedFlow W) × Option Error) × W → Heap → Answered W
  opened_as ((some s, some e), w) h = answered (some (from e)) (present s)
  opened_as ((some s, none), w) h = answered none (present s)
  opened_as ((none, some e), w) h = answered (some (from e)) (absent h w)
  opened_as ((none, none), w) h = answered none (absent h w)

  -- The memory behind a holder.
  abbrev pub with_memory : Heap → Holder W → Holder W
  with_memory h (absent _ w) = absent h w
  with_memory h (present s) = present (record s { heap = h })

module _ {W : Type 0} (host : Host W) (codec : Codec) where
  abbrev pub with_helper :
      ℤ → ReaderState → KeycardState → Option ℕ → Parsed → Holder W → Answered W
  with_helper i r c p (malformed e) l = answered (some (from e)) l
  with_helper i r c p (parsed q h) l = on_flow (register_keycard host i r c p q) (with_memory h l)

  abbrev pub with_keycard : ℤ → ReaderState → KeycardState → Parsed → Text → Holder W → Answered W
  with_keycard i r c (malformed e) json l = answered (some (from e)) l
  with_keycard i r c (parsed p h) json l =
      with_helper i r c p (json_to_keycard codec json h) (with_memory h l)

  -- One call of the interface.
  unfoldable pub perform : Call → Holder W → Answered W
  unfolding json_to_keycard
  perform (init_flow dir) l = opened_as (new_mocked_flow host dir (memory l) (outside l)) (memory l)
  perform (start_flow t json) l = with_params (codec.params json) (λ m. on_flow (start t m) l) l
  perform (resume_flow json) l =
      with_params (codec.params json) (λ m. on_flow (resume (or_empty m)) l) l
  perform cancel_flow l = on_flow cancel l
  perform (register i r c json json') l =
      with_keycard i (reader_state_of r) (keycard_state_of c)
        (json_to_keycard codec json (memory l)) json' l
  perform plugged_in l = on_flow (λ s. (none, reader_plugged_in s)) l
  perform unplugged l = on_flow (λ s. (none, reader_unplugged s)) l
  perform (inserted_at i) l = on_flow (insert_keycard i) l
  perform removed l = on_flow (λ s. (none, remove_keycard s)) l
