-- ===== src/Tests/Sessions.antt =====
-- The theorems on sessions, at a card with the PIN 123456.
use status_keycard_go.Prelude.{arith, text_eq, ◌≡◌, refl, true, false, none, some, Text, [], codes}
use status_keycard_go.Internal.Status.{State}
use status_keycard_go.Pairing.{get, find}
use status_keycard_go.Prelude.Dict.{lookup}
use status_keycard_go.Hex.{btox}
use status_keycard_go.Context.Base.{
  keycard_ready, keycard_authorized, keycard_initialized, on_authorize_interactions,
}
use status_keycard_go.Context.Commands.{verify_pin, change_pin, change_puk, unblock_pin}
use status_keycard_go.Context.Data.{get_metadata}
use status_keycard_go.Context.Connect.{connect_keycard}
use status_keycard_go.Context.Logic.{Ends}
use status_keycard_go.Context.Invariant.{Answers}
use status_keycard_go.Context.Invariant.Data.{Decodes}
use status_keycard_go.Context.Invariant.Reset.{Selects}
use status_keycard_go.Context.Authorization.{
  AuthorizedOnlyBy, last_signal, on_authorize-Ends, verify_pin_authorizes, unblock_pin_authorizes,
  change_deauthorizes,
}
use status_keycard_go.Context.Deadlock.{connect_keycard_blocks}
use status_keycard_go.Context.Unplugged.{unplugged_blocks}
use status_keycard_go.Context.Detect.{connect_card}
use status_keycard_go.Service.Validation.{Validator}
use status_keycard_go.Service.Requests.{Request, present}
use status_keycard_go.Service.Handlers.{serve}
use status_keycard_go.Service.Safety.{Soundly}
use status_keycard_go.Service.Soundness.{serve-Soundly}
use status_keycard_go.Context.Machine.{Context, stuck, ◌>>=◌}
use status_keycard_go.Internal.Readers.{ReaderState}
use status_keycard_go.Context.Watch.{Decided, forced, watch_round, watch_round-Ends}
use status_keycard_go.Tests.World.{
  no_files, pin, code, small_card, removed_card, card_status, app_info, pair_info, session,
  session-Inv, connecting,
}

pub small_card-Answers : Answers small_card
small_card-Answers w e = refl

pub small_card-Selects : Selects small_card
small_card-Selects w e = cc e

pub small_card-Decodes : Decodes small_card
small_card-Decodes path components h e n = cc (e, n)

ready_now : keycard_ready (session State.ready) ≡ none
unfolding keycard_ready
ready_now = ground arith

authorized_now : keycard_authorized (session State.authorized) ≡ none
unfolding keycard_authorized
authorized_now = ground arith

blocked_now : keycard_initialized (session State.blocked_pin) ≡ none
unfolding keycard_initialized
blocked_now = ground arith

abbrev pub all_valid : Validator
all_valid = record {
  initialize = λ _ _ _. none;
  change_pin = λ _. none;
  change_puk = λ _. none;
  unblock = λ _ _. none;
  load_mnemonic = λ _ _. none;
  store_metadata = λ _ _. none;
  simulate_error = λ _. none;
}

serve-Soundly_example : Soundly (
    serve small_card no_files all_valid
      (Request.authorize pin)
      (record { holder = present (session State.ready); simulate = none }))
serve-Soundly_example =
    serve-Soundly small_card no_files all_valid small_card-Answers small_card-Selects
      small_card-Decodes (Request.authorize pin)
      (record { holder = present (session State.ready); simulate = none }) (session-Inv State.ready)

verify_pin_authorizes_example :
    Ends
      (AuthorizedOnlyBy small_card
        λ r. ((small_card.verify_pin (codes "000000") pin).0 ≡ none) × (r ≡ (none, true)))
      (verify_pin small_card (codes "000000") (session State.ready))
verify_pin_authorizes_example =
    verify_pin_authorizes small_card (codes "000000") (session State.ready)
      (session-Inv State.ready) ready_now

unblock_pin_authorizes_example :
    Ends
      (AuthorizedOnlyBy small_card
        λ r. ((small_card.unblock_pin (codes "123456123456") pin pin).0 ≡ none) × (r ≡ none))
      (unblock_pin small_card (codes "123456123456") pin (session State.blocked_pin))
unblock_pin_authorizes_example =
    unblock_pin_authorizes small_card (codes "123456123456") pin (session State.blocked_pin)
      (session-Inv State.blocked_pin) blocked_now refl

change_deauthorizes_example :
    Ends
      (AuthorizedOnlyBy small_card λ _. ⊥)
      (change_pin small_card (codes "654321") (session State.authorized))
    × Ends
        (AuthorizedOnlyBy small_card λ _. ⊥)
        (change_puk small_card (codes "654321") (session State.authorized))
change_deauthorizes_example =
    change_deauthorizes small_card (codes "654321") (session State.authorized)
      (session-Inv State.authorized) authorized_now

on_authorize-Ends_example :
    Ends
      (λ _ d.
        (d.connected ≡ true → d.status.state ≡ State.authorized → true ≡ true)
        × (last_signal d.signals ≡ some d.status))
      (on_authorize_interactions small_card true (session State.ready))
on_authorize-Ends_example = on_authorize-Ends small_card true (session State.ready) refl

connect_keycard_blocks_example : connect_keycard removed_card no_files connecting ≡ stuck
unfolding get find lookup btox text_eq
connect_keycard_blocks_example =
    connect_keycard_blocks removed_card no_files connecting app_info pair_info card_status code []
      refl refl refl refl refl (refl, refl) (refl, refl) refl refl refl

-- The reader went away while its card was connected.
abbrev unplugged : Context Text
unplugged = record (session State.ready) { watching = false }

unplugged_blocks_example :
    (connect_card removed_card [] >>= λ _. get_metadata removed_card) unplugged ≡ stuck
unplugged_blocks_example =
    unplugged_blocks removed_card no_files unplugged code [] refl refl refl refl refl

abbrev reader : ReaderState
reader = record { reader = codes "reader"; current_state = 0; event_state = 0x22 }

watch_round-Ends_example :
    Ends
      (Decided forced reader none (session State.ready))
      (watch_round small_card forced reader (session State.ready))
watch_round-Ends_example =
    watch_round-Ends small_card forced reader reader (session State.ready) refl
