-- ===== src/Mocked/Storing.antt =====
-- pkg/flow/mocked/mocked_flow.go: the cards in memory and in their file, and NewMockedFlow.
use status_keycard_go.Prelude.{
  ℕ, ◌+◌, Bool, false, ◌==◌, Option, none, some, List, [], ◌∷◌, if◌then◌else◌, Text,
}
use status_keycard_go.Prelude.Int.{ℤ, pos, negsuc}
use status_keycard_go.Prelude.Dict.{Dict}
use status_keycard_go.Internal.Errors.{Error, Result, ok, err}
use status_keycard_go.Internal.Types.{KeyPair}
use status_keycard_go.Pairing.{Store, contents, not_exist, failed, ReadResult, new_store}
use status_keycard_go.Flow.Control.{idle}
use status_keycard_go.Mocked.Cards.{no_reader, Keycard, Stored}
use status_keycard_go.Mocked.Machine.{Heap, update, Cards, MockedFlow, Host}

unfoldable pub int_eq : ℤ → ℤ → Bool
int_eq (pos a) (pos b) = a == b
int_eq (negsuc a) (negsuc b) = a == b
int_eq a b = false

-- `m[i]`, where a missing key and a nil pointer read alike.
unfoldable pub card_of : {A : Type 0} → ℤ → Cards A → Option A
card_of i [] = none
card_of i ((j, c) ∷ m) = if int_eq j i then c else card_of i m

-- `m[i] = c`
unfoldable pub put_card : {A : Type 0} → ℤ → Option A → Cards A → Cards A
put_card i c [] = (i, c) ∷ []
put_card i c ((j, d) ∷ m) = if int_eq j i then (i, c) ∷ m else (j, d) ∷ put_card i c m

-- What decoding into a map that is there does: each entry is put into it. An encoded map has each
-- number once, so the order of the entries does not matter.
unfoldable pub put_cards : {A : Type 0} → Cards A → Cards A → Cards A
unfolding put_card
put_cards [] m = m
put_cards ((i, c) ∷ l) m = put_card i c (put_cards l m)

-- A new object.
abbrev pub allocated : Keycard → Heap → Heap
allocated c h = record h { cards = update h.cards h.next_card c; next_card = h.next_card + 1 }

-- The value that is written to the file for a map of keys.
abbrev pub map_saved : Option ℕ → Heap → Option (Dict KeyPair)
map_saved none h = none
map_saved (some m) h = some (h.maps m)

unfoldable pub card_saved : Heap → Keycard → Stored
card_saved h c = record {
  pairing_info = c.pairing_info;
  not_status_keycard = c.not_status_keycard;
  instance_uid = c.instance_uid;
  key_uid = c.key_uid;
  free_pairing_slots = c.free_pairing_slots;
  pin_retries = c.pin_retries;
  puk_retries = c.puk_retries;
  pin = c.pin;
  puk = c.puk;
  metadata = c.metadata;
  master_key_address = c.master_key_address;
  exported_key = map_saved c.exported_key h;
}

unfoldable pub cards_saved : Heap → Cards ℕ → Cards Stored
unfolding card_saved
cards_saved h [] = []
cards_saved h ((i, none) ∷ m) = (i, none) ∷ cards_saved h m
cards_saved h ((i, some p) ∷ m) = (i, some (card_saved h (h.cards p))) ∷ cards_saved h m

-- The address of a map that was read, and the memory with it.
unfoldable pub map_read : Option (Dict KeyPair) → Heap → Option ℕ × Heap
map_read none h = (none, h)
map_read (some m) h =
    (some h.next_map, record h { maps = update h.maps h.next_map m; next_map = h.next_map + 1 })

-- A card that was read, in memory, with the address of its map.
unfoldable pub in_memory : Stored → Option ℕ → Keycard
in_memory c m = record {
  pairing_info = c.pairing_info;
  not_status_keycard = c.not_status_keycard;
  instance_uid = c.instance_uid;
  key_uid = c.key_uid;
  free_pairing_slots = c.free_pairing_slots;
  pin_retries = c.pin_retries;
  puk_retries = c.puk_retries;
  pin = c.pin;
  puk = c.puk;
  metadata = c.metadata;
  master_key_address = c.master_key_address;
  exported_key = m;
}

unfoldable pub card_read : Stored → Heap → ℕ × Heap
unfolding map_read
card_read c h = let (m, g) = map_read c.exported_key h in (g.next_card, allocated (in_memory c m) g)

unfoldable pub cards_read : Cards Stored → Heap → Cards ℕ × Heap
unfolding card_read
cards_read [] h = ([], h)
cards_read ((i, none) ∷ m) h = let (r, g) = cards_read m h in ((i, none) ∷ r, g)
cards_read ((i, some c) ∷ m) h =
    let (p, g) = card_read c h in let (r, g') = cards_read m g in ((i, some p) ∷ r, g')

module _ {W : Type 0} (host : Host W) where
  -- Behind `json.Marshal`.
  abbrev pub saved_as : Result (List ℕ) → MockedFlow W → Option Error × MockedFlow W
  saved_as (err e) s = (some e, s)
  saved_as (ok b) s =
      let (e, w) = host.fs.write_file s.store_file_path b s.world in (e, record s { world = w })

  -- `storeRegisteredKeycards`
  unfoldable pub store_registered : MockedFlow W → Option Error × MockedFlow W
  unfolding cards_saved
  store_registered s =
      saved_as
        (host.marshal_cards (
          cards_saved s.heap s.registered_keycards,
          cards_saved s.heap s.registered_keycard_helpers,
        ))
        s

  -- Behind `os.ReadFile`: what was decoded is put into the maps that are there, also before an error.
  unfoldable pub loaded_from : ReadResult → MockedFlow W → Option Error × MockedFlow W
  unfolding cards_read put_cards
  loaded_from (not_exist e) s = (some e, s)
  loaded_from (failed e) s = (some e, s)
  loaded_from (contents b) s =
      let (both, e) = host.unmarshal_cards b in
      let (cards, helpers) = both in
      let (r, g) = cards_read cards s.heap in
      let (r', g') = cards_read helpers g in
      (
        e,
        record s {
          registered_keycards = put_cards r s.registered_keycards;
          registered_keycard_helpers = put_cards r' s.registered_keycard_helpers;
          heap = g';
        },
      )

  -- `loadRegisteredKeycards`, called once, when the maps are empty.
  unfoldable pub load_registered : MockedFlow W → Option Error × MockedFlow W
  unfolding loaded_from
  load_registered s = loaded_from (host.fs.read_file s.store_file_path s.world) s

  abbrev pub new_with : Text → Store → Heap → W → MockedFlow W
  new_with storage_dir p h w = record {
    flow_type = 0;
    state = idle;
    params = none;
    pairings = p;
    store_file_path = host.cards_path storage_dir;
    initial_reader_state = no_reader;
    current_reader_state = no_reader;
    registered_keycards = [];
    registered_keycard_helpers = [];
    inserted_keycard = none;
    inserted_keycard_helper = none;
    heap = h;
    signals = [];
    runs = 0;
    world = w;
  }

  abbrev pub opened :
      Text → (Option Store × Option Error) × W → Heap → (Option (MockedFlow W) × Option Error) × W
  opened storage_dir ((none, e), w) h = ((none, e), w)
  opened storage_dir ((some p, some e), w) h = ((none, some e), w)
  opened storage_dir ((some p, none), w) h =
      let (e, s) = load_registered (new_with storage_dir p h w) in ((some s, e), s.world)

  -- `NewMockedFlow`: the flow is returned with the error of the file of cards, if there is one.
  unfoldable pub new_mocked_flow : Text → Heap → W → (Option (MockedFlow W) × Option Error) × W
  unfolding load_registered
  new_mocked_flow storage_dir h w = opened storage_dir (new_store host.fs storage_dir w) h
