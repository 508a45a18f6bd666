-- ===== src/Context/Readers.antt =====
-- `getCurrentReadersState`: the list of readers with their states.
use status_keycard_go.Prelude.{
  Bool, false, not, Option, none, some, List, [], ◌∷◌, map, if◌then◌else◌, Text,
}
use status_keycard_go.Internal.Errors.{Error, Simulated, is_scard_code}
use status_keycard_go.Internal.Readers.{
  ReaderState, ReadersStates, has_flag, state_unknown, update, empty,
}
use status_keycard_go.Card.{Card}
use status_keycard_go.Context.Machine.{M, pure, ◌>>=◌, call}
use status_keycard_go.Context.Base.{simulate_error}

abbrev pub unaware : Text → ReaderState
unaware name = record { reader = name; current_state = 0; event_state = 0 }

unfoldable pub known_readers : ReadersStates → ReadersStates
known_readers [] = []
known_readers (r ∷ rs) =
    let rest = known_readers rs in if has_flag r.event_state state_unknown then rest else r ∷ rest

-- `err != nil && err != scard.ErrNoReadersAvailable`
unfoldable pub listing_failed : Option Error → Bool
listing_failed none = false
listing_failed (some e) = not (is_scard_code e 0x8010002e)

unfoldable pub known_unless : ReadersStates → Option Error → ReadersStates × Option Error
unfolding known_readers update
known_unless rs none = (known_readers (update rs), none)
known_unless rs (some e) = ([], some e)

module _ {W : Type 0} (card : Card W) where
  unfoldable pub changed : ReadersStates × Option Error → M W (ReadersStates × Option Error)
  unfolding known_unless
  changed (rs, e) = do
    e' ← simulate_error card e Simulated.get_status_change
    pure (known_unless rs e')

  unfoldable pub read_states : ReadersStates → Option Error → M W (ReadersStates × Option Error)
  unfolding changed listing_failed
  read_states rs e c =
      if listing_failed e
      then pure ([], e) c
      else if empty rs
      then pure (rs, none) c
      else (call (card.get_status_change rs) >>= changed) c

  unfoldable pub listed : List Text × Option Error → M W (ReadersStates × Option Error)
  unfolding read_states
  listed (names, e) = do
    e' ← simulate_error card e Simulated.list_readers
    read_states (map unaware names) e'

  unfoldable pub get_current_readers_state : M W (ReadersStates × Option Error)
  unfolding listed
  get_current_readers_state = call card.list_readers >>= listed
