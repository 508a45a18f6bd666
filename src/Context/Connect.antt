-- ===== src/Context/Connect.antt =====
-- The session with the applet of a card that was found, and one round of each goroutine.
use status_keycard_go.Prelude.{true, not, Option, none, some, if◌then◌else◌, Text, codes}
use status_keycard_go.Hex.{btox}
use status_keycard_go.Internal.Errors.{
  Error, Result, ok, err, wrap, Simulated, selecting_applet, pairing_card, storing_pairing,
  opening_channel, getting_status, getting_metadata, is_no_slots,
}
use status_keycard_go.Internal.Types.{PairingInfo, ApplicationInfoV2}
use status_keycard_go.Internal.Readers.{ReaderState, ReadersStates, append}
use status_keycard_go.Internal.Status.{State, reset}
use status_keycard_go.Pairing.{Info, FileSystem, to_pair_info, store, get}
use status_keycard_go.Card.{Card}
use status_keycard_go.Context.Machine.{
  M, done, panic, pure, ◌>>=◌, ◌>>◌, gets, modify, update_status, set_state, crash, call, command,
  publish_status,
}
use status_keycard_go.Context.Base.{simulate_error, select_applet, update_application_status}
use status_keycard_go.Context.Data.{update_metadata}
use status_keycard_go.Context.Readers.{get_current_readers_state}
use status_keycard_go.Context.Detect.{connect_card}

-- internal/const.go, `DefPairing`
abbrev pub default_pairing : Text
default_pairing = codes "KeycardDefaultPairing"

module _ {W : Type 0} (card : Card W) (fs : FileSystem W) where
  -- `kc.pairings.Store`
  unfoldable pub store_pairing : Text → Info → M W (Option Error)
  store_pairing uid i c = elim (store fs uid i c.pairings c.world) [
    | none ↦ panic
    | some ((e, w), p) ↦ done e (record c { pairings = p; world = w })
  ]

  unfoldable pub fail_in : State → Error → M W (Option Error)
  fail_in s e = set_state s >> pure (some e)

  unfoldable pub metadata_updated : Option Error → M W (Option Error)
  metadata_updated none = pure none
  metadata_updated (some e) = pure (some (wrap getting_metadata e))

  unfoldable pub status_updated : Option Error → M W (Option Error)
  unfolding metadata_updated
  status_updated none = update_metadata card >>= metadata_updated
  status_updated (some e) = pure (some (wrap getting_status e))

  unfoldable pub channel_opened : Option Error → M W (Option Error)
  unfolding status_updated fail_in
  channel_opened none = update_application_status card >>= status_updated
  channel_opened (some e) = fail_in State.connection_error (wrap opening_channel e)

  unfoldable pub open_channel : Info → M W (Option Error)
  unfolding channel_opened
  open_channel pair = do
    e ← command (card.open_secure_channel pair.index pair.key)
    e' ← simulate_error card e Simulated.open_secure_channel
    channel_opened e'

  unfoldable pub selected_again :
      Info → Option ApplicationInfoV2 × Option Error → M W (Option Error)
  unfolding open_channel fail_in
  selected_again pair (info, some e) = fail_in State.connection_error (wrap selecting_applet e)
  selected_again pair (info, none) = do
    update_status (λ s. record s { app_info = info })
    open_channel pair

  unfoldable pub pairing_stored : Info → Option Error → M W (Option Error)
  unfolding selected_again fail_in
  pairing_stored pair (some e) = fail_in State.internal_error (wrap storing_pairing e)
  pairing_stored pair none = select_applet card >>= selected_again pair

  unfoldable pub paired : Text → Result PairingInfo → M W (Option Error)
  unfolding store_pairing pairing_stored fail_in
  paired uid (err e) c =
      if is_no_slots e
      then fail_in State.no_available_pairing_slots e c
      else fail_in State.pairing_error (wrap pairing_card e) c
  paired uid (ok r) c = (store_pairing uid (to_pair_info r) >>= pairing_stored (to_pair_info r)) c

  unfoldable pub with_pairing : Text → Option Info → M W (Option Error)
  unfolding paired open_channel
  with_pairing uid (some pair) = open_channel pair
  with_pairing uid none = command (card.pair default_pairing) >>= paired uid

  unfoldable pub open_session : Option ApplicationInfoV2 → M W (Option Error)
  unfolding with_pairing
  open_session none c = crash c
  open_session (some i) c =
      if not i.initialized
      then (set_state State.empty_keycard >> pure none) c
      else with_pairing (btox i.instance_uid) (get (btox i.instance_uid) c.pairings) c

  -- `connectKeycard`, with its deferred `publishStatus`
  unfoldable pub connect_keycard : M W (Option Error)
  unfolding open_session
  connect_keycard = do
    info ← gets (λ c. c.status.app_info)
    e ← open_session info
    publish_status
    pure e

  -- How a round of the detection loop ends: a watcher takes over, the loop ends, or it goes on.
  pub data Round : Type 0 where
    watch : ReaderState → Round
    finished again : Round

  unfoldable pub pnp_reader : ReaderState
  pnp_reader = record {
    reader = codes "\\\\?PnP?\\Notification";
    current_state = 0;
    event_state = 0;
  }

  unfoldable pub waited : ReadersStates × Option Error → M W Round
  waited (rs, none) = pure again
  waited (rs, some e) = pure finished

  -- The watcher starts when the session has been tried, with or without an error.
  unfoldable pub card_tried : ReadersStates → Option ReaderState × Option Error → M W Round
  unfolding waited pnp_reader
  card_tried readers (some reader, _) = do
    _ ← connect_keycard
    modify (λ c. record c { watching = true })
    pure (watch reader)
  card_tried readers (none, _) =
      call (card.get_status_change (append readers pnp_reader)) >>= waited

  unfoldable pub readers_read : ReadersStates × Option Error → M W Round
  unfolding card_tried
  readers_read (readers, some e) = do
    update_status (reset State.internal_error)
    publish_status
    pure finished
  readers_read (readers, none) = connect_card card readers >>= card_tried readers

  -- `detectionRoutine`
  unfoldable pub detection_round : M W Round
  unfolding readers_read
  detection_round = get_current_readers_state card >>= readers_read
