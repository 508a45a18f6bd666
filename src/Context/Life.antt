-- ===== src/Context/Life.antt =====
-- `NewKeycardContextV2`, `Start` and `Stop`. Of the two goroutines that `Start` leaves behind one
-- is the rounds of Context/Connect.antt, and the other only passes bytes to the card.
use status_keycard_go.Prelude.{true, false, Option, none, some, [], if◌then◌else◌}
use status_keycard_go.Internal.Errors.{Error, own, pcsc, Simulated}
use status_keycard_go.Internal.Status.{State, new_status}
use status_keycard_go.Pairing.{Store}
use status_keycard_go.Card.{Card}
use status_keycard_go.Context.Machine.{
  Context, M, unmade, made, shut, Channel, pure, ◌>>=◌, ◌>>◌, gets, modify, set_state, crash, call,
  publish_status,
}
use status_keycard_go.Context.Base.{simulate_error}

-- `NewKeycardContextV2` with the option `WithStorage`.
unfoldable pub new_context : {W : Type 0} → Store → W → Context W
unfolding new_status
new_context pairings w = record {
  world = w;
  status = new_status;
  signals = [];
  pairings = pairings;
  simulated_error = none;
  has_context = false;
  has_card = false;
  connected = false;
  channel = unmade;
  watching = false;
  locked = false;
  running = false;
}

module _ {W : Type 0} (card : Card W) where
  -- `establishContext`; any error becomes `ErrorPCSC`.
  unfoldable pub note_context : Option Error → M W (Option Error)
  note_context (some e) = pure (some (own pcsc))
  note_context none = modify (λ c. record c { has_context = true }) >> pure none

  unfoldable pub started : Option Error → M W (Option Error)
  started (some e) = do set_state State.no_pcsc; publish_status; pure (some e)
  started none = modify (λ c. record c { running = true; channel = unmade }) >> pure none

  -- `Start`: on success it also starts the first detection.
  unfoldable pub start : M W (Option Error)
  unfolding note_context started
  start = do
    e ← call card.establish >>= note_context
    e' ← simulate_error card e Simulated.no_pcsc
    started e'

  unfoldable pub close_channel : Channel → M W (Unit {0})
  close_channel unmade = pure tt
  close_channel made = modify (λ c. record c { channel = shut; watching = false })
  close_channel shut = crash

  -- `cardCtx.Cancel()`, if there is one; its error is only logged.
  unfoldable pub cancelled : Context W → W
  cancelled c = if c.has_context then (card.cancel c.world).1 else c.world

  -- `Stop`: the watcher ends when the channel is closed; errors are logged.
  unfoldable pub stop : M W (Unit {0})
  unfolding close_channel cancelled
  stop = do
    channel ← gets (λ c. c.channel)
    close_channel channel
    modify (λ c. record c { world = cancelled c; running = false })
