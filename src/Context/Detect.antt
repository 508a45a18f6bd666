-- ===== src/Context/Detect.antt =====
-- One round of the detection loop: find a card, connect to it, and open a session with the applet.
use status_keycard_go.Prelude.{ℕ, true, false, not, Option, none, some, get_elem?, if◌then◌else◌}
use status_keycard_go.Internal.Errors.{Error, wrap, Simulated, connecting_card, selecting_applet}
use status_keycard_go.Internal.Types.{ApplicationInfoV2}
use status_keycard_go.Internal.Readers.{ReaderState, ReadersStates, reader_with_card_index, empty}
use status_keycard_go.Internal.Status.{State, reset}
use status_keycard_go.Card.{Card}
use status_keycard_go.Context.Machine.{
  M, made, pure, ◌>>=◌, ◌>>◌, modify, update_status, set_state, crash, call, publish_status,
}
use status_keycard_go.Context.Base.{reset_card_connection, simulate_error, select_applet}

module _ {W : Type 0} (card : Card W) where
  abbrev pub Attempt : Type 0
  Attempt = Option ReaderState × Option Error

  unfoldable pub installed_or_not : ReaderState → Option ApplicationInfoV2 → M W Attempt
  installed_or_not reader none c = crash c
  installed_or_not reader (some i) c =
      if not i.installed
      then (do reset_card_connection card; set_state State.not_keycard; pure (none, none)) c
      else (set_state State.connecting_card >> pure (some reader, none)) c

  unfoldable pub applet_selected :
      ReaderState → Option ApplicationInfoV2 → Option Error → M W Attempt
  unfolding installed_or_not
  applet_selected reader info (some e) = do
    reset_card_connection card
    set_state State.connection_error
    pure (none, some (wrap selecting_applet e))
  applet_selected reader info none = do
    update_status (λ s. record s { app_info = info })
    installed_or_not reader info

  unfoldable pub card_opened : ReaderState → Option Error → M W Attempt
  unfolding applet_selected
  card_opened reader (some e) =
      set_state State.connection_error >> pure (none, some (wrap connecting_card e))
  card_opened reader none = do
    modify (λ c. record c { connected = true })
    r ← select_applet card
    e ← simulate_error card r.1 Simulated.select_applet
    applet_selected reader r.0 e

  -- `kc.card` is set by the call itself, so it is nil behind an error.
  unfoldable pub note_card : Option Error → M W (Option Error)
  note_card (some e) = modify (λ c. record c { has_card = false }) >> pure (some e)
  note_card none = modify (λ c. record c { has_card = true }) >> pure none

  unfoldable pub open_reader : Option ReaderState → M W Attempt
  unfolding note_card card_opened
  open_reader none = crash
  open_reader (some reader) = do
    e ← call (card.connect reader.reader) >>= note_card
    e' ← simulate_error card e Simulated.card_connect
    card_opened reader e'

  unfoldable pub choose_reader : ReadersStates → Option ℕ → M W Attempt
  unfolding open_reader reset
  choose_reader readers none = update_status (reset State.waiting_for_card) >> pure (none, none)
  choose_reader readers (some i) = open_reader (get_elem? readers i)

  unfoldable pub search_readers : ReadersStates → M W Attempt
  unfolding choose_reader empty reset
  search_readers readers c =
      if empty readers
      then (update_status (reset State.waiting_for_reader) >> pure (none, none)) c
      else (do
        modify (λ c. record c { channel = made; watching = false })
        reset_card_connection card
        choose_reader readers (reader_with_card_index readers))
          c

  -- `connectCard`, with its deferred `publishStatus`
  unfoldable pub connect_card : ReadersStates → M W Attempt
  unfolding search_readers
  connect_card readers = do r ← search_readers readers; publish_status; pure r
