-- ===== src/Flow/Changes.antt =====
-- pkg/flow/commands.go: changes of the secrets, pairings that are given up, the key that is removed.
use status_keycard_go.Prelude.{ℕ, Option, none, some, Text}
use status_keycard_go.Internal.Errors.{Error}
use status_keycard_go.Card.{Card}
use status_keycard_go.Keycard.{
  change_pin, change_puk, change_pairing_password, unpair, unpair_current, remove_key,
}
use status_keycard_go.Flow.Values.{Value, Action}
use status_keycard_go.Flow.Session.{
  F, pure, gets, ◌>>=◌, ◌>>◌, call, param, as_text, pause_and_wait, Round, finished, again, ask,
}
use status_keycard_go.Flow.Opening.{check_error, try_call}
use status_keycard_go.Flow.Keys
use status_keycard_go.Flow.Messages

module _ {W : Type 0} (card : Card W) where
  -- The body that `changePIN`, `changePUK` and `changePairing` share.
  unfoldable pub change_with :
      (Text → W → Option Error × W) → Action → Option Value → F W (Round (Unit {0}))
  change_with change action none = pause_and_wait action Messages.error_changing >> pure again
  change_with change action (some v) = do
    secret ← as_text v
    e ← call (change secret)
    check_error e
    pure (finished tt)

  unfoldable pub change_pin_flow : F W (Unit {0})
  unfolding change_with
  change_pin_flow = ask (param Keys.new_pin >>= change_with (change_pin card) Action.enter_new_pin)

  unfoldable pub change_puk_flow : F W (Unit {0})
  unfolding change_with
  change_puk_flow = ask (param Keys.new_puk >>= change_with (change_puk card) Action.enter_new_puk)

  unfoldable pub change_pairing_flow : F W (Unit {0})
  unfolding change_with
  change_pairing_flow =
      ask (
        param Keys.new_pairing >>= change_with (change_pairing_password card) Action.enter_new_pair)

  unfoldable pub unpair_current_flow : F W (Unit {0})
  unpair_current_flow = do
    index ← gets (λ s. s.paired_at)
    e ← try_call (unpair_current card index)
    check_error e

  unfoldable pub unpair_flow : ℕ → F W (Unit {0})
  unpair_flow index = call (unpair card index) >>= check_error

  unfoldable pub remove_key_flow : F W (Unit {0})
  remove_key_flow = call (remove_key card) >>= check_error
