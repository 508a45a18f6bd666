-- ===== src/Context/Authorization.antt =====
-- When a session is authorized: only by a PIN or a PUK that the card has accepted.
use status_keycard_go.Prelude.{
  sym, ◌≡◌, ◌≢◌, refl, Bool, true, false, Option, none, some, List, [], ◌∷◌, Bool-cases, inl, inr,
  arith, Text,
}
use status_keycard_go.Internal.Errors.{Error}
use status_keycard_go.Internal.Types.{CardStatus}
use status_keycard_go.Internal.Status.{Status, authorized, blocked_pin}
use status_keycard_go.Card.{Card}
use status_keycard_go.Context.Machine.{Context, ◌>>=◌, command, with_mutex, publish_status}
use status_keycard_go.Context.Base.{
  guarded, state_is, keycard_initialized, keycard_ready, keycard_authorized, check_scard_error,
  take_status, state_of, update_application_status, promote, on_authorize_interactions,
}
use status_keycard_go.Context.Commands.{
  after_verify, verify_ready, verify_pin, change_with, change_pin, change_puk, unblock_blocked,
  is_nil, if_blocked, unblock_pin,
}
use status_keycard_go.Context.Logic.{
  exchange-Ends, Ends, Inv, Post, Ends-mono, bind-Ends, guarded-Ends, with_mutex_any, command-Ends,
}
use status_keycard_go.Context.Invariant.{
  keycard_authorized_lem, check_scard_error-Ends, keycard_initialized_lem, keycard_ready_lem,
}

-- The status that was published last.
abbrev pub last_signal : List Status → Option Status
last_signal [] = none
last_signal (s ∷ _) = some s

module _ {W : Type 0} (card : Card W) where
  abbrev Idle : {A : Type 0} → A → Context W → Type 0
  Idle _ d = d.status.state ≢ authorized

  take_status-Ends :
      (r : Option CardStatus × Option Error) (c : Context W) → Ends Idle (take_status card r c)
  unfolding take_status state_of
  take_status-Ends (s, some e) c = ground arith
  take_status-Ends (none, none) c = ground arith
  take_status-Ends (some s, none) c = ground arith

  uninitialized :
      (c : Context W) {e : Error}
      → keycard_initialized c ≡ some e
      → c.connected ≡ true
      → c.status.state ≢ authorized
  unfolding keycard_initialized
  uninitialized c h k = ground arith

  abbrev Updated : {A : Type 0} → A → Context W → Type 0
  Updated _ d = d.connected ≡ true → d.status.state ≢ authorized

  update-Ends : (c : Context W) → c.locked ≡ false → Ends Updated (update_application_status card c)
  unfolding update_application_status
  update-Ends c v =
      guarded-Ends Updated keycard_initialized some
        (with_mutex (command card.get_status_application >>= take_status card)) c
        (λ pass.
          with_mutex_any Idle Updated (command card.get_status_application >>= take_status card) c v
            (λ _ d h _. h)
            (command-Ends Idle card.get_status_application (take_status card)
              (record c { locked = true }) (keycard_initialized_lem c pass)
              (take_status-Ends (card.get_status_application c.world).0 _)))
        (λ e stop. uninitialized c stop)

  -- onAuthorizeInteractions, called while the mutex is free, returns; the status that it leaves is
  -- the one that was published last; and if a card is connected then, the session is authorized only
  -- if that was asked for.
  pub on_authorize-Ends :
      (b : Bool) (c : Context W)
      → c.locked ≡ false
      → Ends
          (λ _ d.
            (d.connected ≡ true → d.status.state ≡ authorized → b ≡ true)
            × (last_signal d.signals ≡ some d.status))
          (on_authorize_interactions card b c)
  unfolding on_authorize_interactions promote publish_status
  on_authorize-Ends b c v =
      bind-Ends Updated _ (update_application_status card) _ c (update-Ends c v)
        (λ _ d w. ground arith)

  -- What `verify_pin` answers, and what the card answered.
  after_verify-Ends :
      (e : Option Error) (c : Context W)
      → Inv true c
      → c.connected ≡ true
      → Ends
          (Post true (λ r _. r.1 ≡ true → (e ≡ none) × (r ≡ (none, true))))
          (after_verify card e c)
  unfolding after_verify
  after_verify-Ends none c v h = (v, λ _. (refl, refl))
  after_verify-Ends (some e) c v h = ground (arith, check_scard_error-Ends card (some e) c v h)

  -- What a call has done to a session when `P` is what authorizes it.
  abbrev pub AuthorizedOnlyBy : {A : Type 0} → (A → Type 0) → A → Context W → Type 0
  AuthorizedOnlyBy P r d =
      (d.connected ≡ true → d.status.state ≡ authorized → P r)
      × (last_signal d.signals ≡ some d.status)

  -- VerifyPIN, called on a ready session that satisfies the invariant, returns, and the status that
  -- it leaves is the one that was published last. If a card is still connected then and the session
  -- is authorized, the card has accepted the PIN and the caller was told so.
  pub verify_pin_authorizes :
      (pin : Text) (c : Context W)
      → Inv false c
      → keycard_ready c ≡ none
      → Ends
          (AuthorizedOnlyBy λ r. ((card.verify_pin pin c.world).0 ≡ none) × (r ≡ (none, true)))
          (verify_pin card pin c)
  unfolding verify_pin verify_ready
  verify_pin_authorizes pin c v ready_now =
      guarded-Ends Accepted keycard_ready (λ e. (some e, false)) (verify_ready card pin) c
        (λ pass.
          bind-Ends
            (Post false
              (λ r _. r.1 ≡ true → ((card.verify_pin pin c.world).0 ≡ none) × (r ≡ (none, true))))
            Accepted (with_mutex (command (card.verify_pin pin) >>= after_verify card)) _ c
            (exchange-Ends _ (card.verify_pin pin) (after_verify card) c v
              (keycard_ready_lem c pass).0
              (λ d w h _. after_verify-Ends (card.verify_pin pin c.world).0 d w h))
            (λ r d h.
              bind-Ends _ Accepted (on_authorize_interactions card r.1) _ d
                (on_authorize-Ends r.1 d h.0.mutex)
                (λ _ x k. (λ conn auth. h.1 (k.0 conn auth), k.1))))
        (λ e stop. cc (stop, ready_now))
    where
      Accepted : Option Error × Bool → Context W → Type 0
      Accepted = AuthorizedOnlyBy λ r. ((card.verify_pin pin c.world).0 ≡ none) × (r ≡ (none, true))

  -- UnblockPIN, called on a session with a blocked PIN that satisfies the invariant, returns, and
  -- the status that it leaves is the one that was published last. If a card is still connected then
  -- and the session is authorized, the card has accepted the PUK and the caller got no error.
  pub unblock_pin_authorizes :
      (puk pin : Text) (c : Context W)
      → Inv false c
      → keycard_initialized c ≡ none
      → c.status.state ≡ blocked_pin
      → Ends
          (AuthorizedOnlyBy λ r. ((card.unblock_pin puk pin c.world).0 ≡ none) × (r ≡ none))
          (unblock_pin card puk pin c)
  unfolding unblock_pin if_blocked unblock_blocked
  unblock_pin_authorizes puk pin c v init blocked =
      rw (init, guarded)
        (elim (Bool-cases (state_is c.status.state blocked_pin)) [
          | inr no_block ↦ absurd (ground arith)
          | inl block ↦ rw block (
              bind-Ends (Post false (λ r _. r ≡ (card.unblock_pin puk pin c.world).0)) Accepted
                (with_mutex (command (card.unblock_pin puk pin) >>= check_scard_error card)) _ c
                (exchange-Ends _ (card.unblock_pin puk pin) (check_scard_error card) c v
                  (keycard_initialized_lem c init) (λ d w h _. answered d w h))
                (λ r d h.
                  bind-Ends _ Accepted (on_authorize_interactions card (is_nil card r)) _ d
                    (on_authorize-Ends (is_nil card r) d h.0.mutex)
                    (λ _ x k. (λ conn auth. accepted r h.1 (k.0 conn auth), k.1))))
        ])
    where
      Accepted : Option Error → Context W → Type 0
      Accepted = AuthorizedOnlyBy λ r. ((card.unblock_pin puk pin c.world).0 ≡ none) × (r ≡ none)

      answered :
          (d : Context W)
          → Inv true d
          → d.connected ≡ true
          → Ends
              (Post true (λ r _. r ≡ (card.unblock_pin puk pin c.world).0))
              (check_scard_error card (card.unblock_pin puk pin c.world).0 d)
      answered d w h =
          Ends-mono _ _ (check_scard_error card (card.unblock_pin puk pin c.world).0 d)
            (check_scard_error-Ends card (card.unblock_pin puk pin c.world).0 d w h)
            (λ r x k. (k.0, k.1.0))

      accepted :
          (r : Option Error)
          → r ≡ (card.unblock_pin puk pin c.world).0
          → is_nil card r ≡ true
          → ((card.unblock_pin puk pin c.world).0 ≡ none) × (r ≡ none)
      accepted none e h = (sym e, refl)
      accepted (some x) e h = cc h

  -- The change of a PIN or of a PUK ends the authorization of a connected session, also when the
  -- card has made the change.
  change_with-Ends :
      (f : W → Option Error × W) (c : Context W)
      → Inv false c
      → c.connected ≡ true
      → Ends (AuthorizedOnlyBy λ _. ⊥) (change_with card f c)
  unfolding change_with
  change_with-Ends f c v h =
      bind-Ends (Post false (λ _ _. Unit {0})) (AuthorizedOnlyBy λ _. ⊥)
        (with_mutex (command f >>= check_scard_error card)) _ c
        (exchange-Ends _ f (check_scard_error card) c v h (λ d w e _.
          Ends-mono _ _ (check_scard_error card (f c.world).0 d)
            (check_scard_error-Ends card (f c.world).0 d w e) (λ _ x k. (k.0, tt))))
        (λ r d k.
          bind-Ends _ (AuthorizedOnlyBy λ _. ⊥) (on_authorize_interactions card false) _ d
            (on_authorize-Ends false d k.0.mutex) (λ _ x q. (λ conn auth. cc (q.0 conn auth), q.1)))

  -- ChangePIN and ChangePUK, called on an authorized session that satisfies the invariant, return
  -- with a session that is not authorized as long as a card is connected, whether or not the card
  -- has made the change, and the status that was left is the one that was published last.
  pub change_deauthorizes :
      (secret : Text) (c : Context W)
      → Inv false c
      → keycard_authorized c ≡ none
      → Ends (AuthorizedOnlyBy λ _. ⊥) (change_pin card secret c)
        × Ends (AuthorizedOnlyBy λ _. ⊥) (change_puk card secret c)
  unfolding change_pin change_puk
  change_deauthorizes secret c v pass = (
    rw (pass, guarded)
        (change_with-Ends (card.change_pin secret) c v (keycard_authorized_lem c pass).0),
    rw (pass, guarded)
        (change_with-Ends (card.change_puk secret) c v (keycard_authorized_lem c pass).0),
  )
