-- ===== src/Context/Invariant.antt =====
-- What every method keeps: the guards, the status and the error check.
pub mod Commands
pub mod Reset
pub mod Data
pub mod Keys
use status_keycard_go.Prelude.{
  ◌≡◌, refl, Bool, true, false, Option, none, some, is_some, arith, ◌⊎◌, inl, inr, Text, Bool-cases,
  not, ◌&&◌, if◌then◌else◌,
}
use status_keycard_go.Internal.Status.{State, Status, ready, authorized, blocked_pin}
use status_keycard_go.Internal.Errors.{Error}
use status_keycard_go.Internal.Types.{CardStatus}
use status_keycard_go.Internal.Convert.{to_app_status}
use status_keycard_go.Card.{Card}
use status_keycard_go.Context.Machine.{
  Context, Outcome, done, panic, stuck, M, made, ◌>>=◌, ◌>>◌, pure, update_status, set_state,
  command, with_mutex, force_scan, publish_status,
}
use status_keycard_go.Context.Base.{
  guarded, state_is, keycard_connected, keycard_initialized, keycard_ready, keycard_authorized,
  reset_card_connection, check_scard_error, take_status, state_of, update_application_status,
  promote, on_authorize_interactions,
}
use status_keycard_go.Context.Commands.{
  after_init, initialize, after_verify, verify_pin, verify_ready, change_with, change_pin,
  change_puk, unblock_blocked, is_nil, unblock_pin,
}
use status_keycard_go.Context.Logic.{
  Ends, Inv, Post, Keeps, Returns, guarded-Returns, bind-Returns, exchange-Returns,
}

pub connected_lem : {W : Type 0} (c : Context W) → keycard_connected c ≡ true → c.connected ≡ true
unfolding keycard_connected
connected_lem c h = h

-- What the guards say.
pub keycard_initialized_lem :
    {W : Type 0} (c : Context W) → keycard_initialized c ≡ none → c.connected ≡ true
unfolding keycard_initialized
keycard_initialized_lem c h = ground arith

pub keycard_ready_lem :
    {W : Type 0} (c : Context W)
    → keycard_ready c ≡ none
    → (c.connected ≡ true) × ((c.status.state ≡ ready) ⊎ (c.status.state ≡ authorized))
unfolding keycard_ready
keycard_ready_lem c h = ground arith

pub keycard_authorized_lem :
    {W : Type 0} (c : Context W)
    → keycard_authorized c ≡ none
    → (c.connected ≡ true) × (c.status.state ≡ authorized)
unfolding keycard_authorized
keycard_authorized_lem c h = ground arith

-- A call of `GetStatusApplication` that reports no error returns a status.
abbrev pub Answers : {W : Type 0} → Card W → Type 0
Answers {W} card =
    (w : W)
    → (card.get_status_application w).0.1 ≡ none
    → is_some (card.get_status_application w).0.0 ≡ true

module _ {W : Type 0} (card : Card W) where
  pub check_scard_error-Ends :
      (e : Option Error) (c : Context W)
      → Inv true c
      → c.connected ≡ true
      → Ends (Post true (λ r s. (r ≡ e) × (s ≡ c.status))) (check_scard_error card e c)
  unfolding check_scard_error reset_card_connection force_scan
  check_scard_error-Ends e c v h = ground arith

  pub check_scard_error-Returns :
      (e : Option Error) (c : Context W)
      → Inv true c
      → c.connected ≡ true
      → Returns true (check_scard_error card e c)
  unfolding check_scard_error reset_card_connection force_scan
  check_scard_error-Returns e c v h = ground arith

  take_status-Ends :
      (s : Option CardStatus) (e : Option Error) (c : Context W)
      → Inv true c
      → (e ≡ none → is_some s ≡ true)
      → Returns true (take_status card (s, e) c)
  unfolding take_status to_app_status
  take_status-Ends s (some e) c v k = ground arith
  take_status-Ends (some s) none c v k = ground arith
  take_status-Ends none none c v k = ground (arith, k refl)

  pub update_application_status-Keeps : Answers card → Keeps false (update_application_status card)
  unfolding update_application_status
  update_application_status-Keeps answers c v =
      guarded-Returns keycard_initialized some
        (with_mutex (command card.get_status_application >>= take_status card)) c v
        λ pass.
          exchange-Returns card.get_status_application (take_status card) c v
            (keycard_initialized_lem c pass) (λ d w h. take_status-Ends _ _ d w (answers c.world))

  pub on_authorize_interactions-Keeps :
      (b : Bool) → Answers card → Keeps false (on_authorize_interactions card b)
  unfolding on_authorize_interactions promote publish_status
  on_authorize_interactions-Keeps b answers c v =
      bind-Returns (update_application_status card) _ c
        (update_application_status-Keeps answers c v) (λ _ d w. ground arith)
