-- ===== src/Flow/Authentication.antt =====
-- pkg/flow/commands.go: the PIN and the PUK.
use status_keycard_go.Prelude.{
  ℕ, Bool, true, false, not, Option, none, some, if◌then◌else◌, Text, [],
}
use status_keycard_go.Prelude.Int.{pos}
use status_keycard_go.Internal.Errors.{Error, is_scard_error, get_retries}
use status_keycard_go.Pairing.{FileSystem}
use status_keycard_go.Card.{Card}
use status_keycard_go.Keycard.{verify_pin, unblock_pin}
use status_keycard_go.Flow.Values.{Value, Action}
use status_keycard_go.Flow.Session.{
  CardState, Fault, F, pure, fail, gets, ◌>>=◌, ◌>>◌, call, set_card, param, delete_param,
  set_param, as_text, is_zero, pause_and_wait, pause_and_restart, Round, finished, again, ask,
}
use status_keycard_go.Flow.Opening.{open_sc}
use status_keycard_go.Flow.Keys
use status_keycard_go.Flow.Messages

-- internal/const.go
abbrev pub max_pin_retries : ℕ
max_pin_retries = 3

abbrev pub max_puk_retries : ℕ
max_puk_retries = 5

abbrev pub with_pin_retries : ℕ → CardState → CardState
with_pin_retries n c = record c { pin_retries = pos n }

abbrev pub with_puk_retries : ℕ → CardState → CardState
with_puk_retries n c = record c { puk_retries = pos n }

module _ {W : Type 0} (card : Card W) where
  unfoldable pub swap_puk : F W (Round (Unit {0}))
  swap_puk = pause_and_restart Action.swap_card Keys.puk_retries

  -- The pauses of `unblockPIN`, of which at least one secret is missing.
  unfoldable pub ask_secret : Bool → Text → F W (Round (Unit {0}))
  ask_secret puk_ok puk_error =
      if not puk_ok
      then (pause_and_wait Action.enter_puk puk_error >> pure again)
      else (pause_and_wait Action.enter_new_pin Messages.error_unblocking >> pure again)

  -- The second test of the attempts that are left.
  unfoldable pub unless_blocked : F W (Round (Unit {0})) → F W (Round (Unit {0}))
  unfolding swap_puk
  unless_blocked m = do
    blocked ← gets (λ s. is_zero s.card_info.puk_retries)
    if blocked then swap_puk else m

  -- Both secrets were given: without a count of attempts the error is returned.
  unfoldable pub wrong_puk : Error → Option ℕ → F W (Round (Unit {0}))
  unfolding unless_blocked ask_secret
  wrong_puk e none = unless_blocked (fail (Fault.error e))
  wrong_puk e (some n) = do
    set_card (with_puk_retries n)
    delete_param Keys.puk
    unless_blocked (ask_secret false Keys.puk)

  unfoldable pub unblocked : Value → Option Error → F W (Round (Unit {0}))
  unfolding wrong_puk
  unblocked new_pin none = do
    set_card (with_pin_retries max_pin_retries)
    set_card (with_puk_retries max_puk_retries)
    set_param Keys.pin new_pin
    delete_param Keys.new_pin
    delete_param Keys.puk
    pure (finished tt)
  unblocked new_pin (some e) =
      if is_scard_error (some e) then fail Fault.restart else wrong_puk e (get_retries e)

  unfoldable pub with_secrets : Option Value → Option Value → F W (Round (Unit {0}))
  unfolding unblocked unless_blocked ask_secret
  with_secrets (some new_pin) (some puk) = do
    puk_text ← as_text puk
    pin_text ← as_text new_pin
    e ← call (unblock_pin card puk_text pin_text)
    unblocked new_pin e
  with_secrets none (some puk) = unless_blocked (ask_secret true [])
  with_secrets _ none = unless_blocked (ask_secret false [])

  unfoldable pub unblock_round : F W (Round (Unit {0}))
  unfolding with_secrets swap_puk
  unblock_round = do
    blocked ← gets (λ s. is_zero s.card_info.puk_retries)
    if blocked
        then swap_puk
        else (do new_pin ← param Keys.new_pin; puk ← param Keys.puk; with_secrets new_pin puk)

  -- `unblockPIN`
  unfoldable pub unblock_flow : F W (Unit {0})
  unfolding unblock_round
  unblock_flow = ask unblock_round

  -- The test of the attempts behind a PIN that was refused or not given, and the pause.
  unfoldable pub ask_pin : Text → F W (Round (Unit {0}))
  unfolding unblock_flow
  ask_pin pin_error = do
    blocked ← gets (λ s. is_zero s.card_info.pin_retries)
    if blocked
        then (unblock_flow >> pure (finished tt))
        else (pause_and_wait Action.enter_pin pin_error >> pure again)

  unfoldable pub note_wrong_pin : Option ℕ → F W (Unit {0})
  note_wrong_pin none = pure tt
  note_wrong_pin (some n) = set_card (with_pin_retries n) >> delete_param Keys.pin

  unfoldable pub verified : Option Error → F W (Round (Unit {0}))
  unfolding ask_pin note_wrong_pin
  verified none = set_card (with_pin_retries max_pin_retries) >> pure (finished tt)
  verified (some e) =
      if is_scard_error (some e)
      then fail Fault.restart
      else (note_wrong_pin (get_retries e) >> ask_pin Keys.pin)

  unfoldable pub with_pin : Option Value → F W (Round (Unit {0}))
  unfolding verified ask_pin
  with_pin none = ask_pin []
  with_pin (some pin) = do pin_text ← as_text pin; e ← call (verify_pin card pin_text); verified e

  unfoldable pub authenticate_round : F W (Round (Unit {0}))
  unfolding with_pin unblock_flow
  authenticate_round = do
    blocked ← gets (λ s. is_zero s.card_info.pin_retries)
    if blocked then (unblock_flow >> pure (finished tt)) else param Keys.pin >>= with_pin

  -- `authenticate`
  unfoldable pub authenticate : F W (Unit {0})
  unfolding authenticate_round
  authenticate = ask authenticate_round

module _ {W : Type 0} (card : Card W) (fs : FileSystem W) where
  -- `openSCAndAuthenticate`
  unfoldable pub open_and_authenticate : ℕ → Bool → F W (Unit {0})
  open_and_authenticate rounds giveup = open_sc card fs rounds giveup >> authenticate card
