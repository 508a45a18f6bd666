-- ===== src/Context/Invariant/Commands.antt =====
-- The commands return, from every state of the invariant, and keep it.
use status_keycard_go.Prelude.Int.{ℤ, quot}
use status_keycard_go.Internal.Errors.{Result, ok, err}
use status_keycard_go.Context.Invariant.{check_scard_error-Ends}
use status_keycard_go.Context.Logic.{Post, bind-Ends, exchange-Ends}
use status_keycard_go.Prelude.{
  ℕ, List, [], Bytes, ◌≡◌, true, false, Option, none, some, is_some, arith, inl, inr, Text,
  Bool-cases,
}
use status_keycard_go.Internal.Status.{Status, blocked_pin}
use status_keycard_go.Internal.Errors.{Error}
use status_keycard_go.Card.{Card}
use status_keycard_go.Context.Machine.{
  Context, ◌>>=◌, command, with_mutex, force_scan, publish_status,
}
use status_keycard_go.Context.Base.{
  state_is, keycard_connected, keycard_initialized, keycard_ready, keycard_authorized,
  reset_card_connection, check_scard_error, on_authorize_interactions,
}
use status_keycard_go.Context.Commands.{
  after_init, initialize, after_verify, verify_pin, verify_ready, change_with, change_pin,
  change_puk, unblock_blocked, is_nil, if_blocked, unblock_pin, after_generate, generate_mnemonic,
  after_load, after_seed, load_ready, load_mnemonic,
}
use status_keycard_go.Context.Logic.{
  Ends, Inv, Post, Keeps, Returns, guarded-Returns, bind-Returns, exchange-Returns,
}
use status_keycard_go.Context.Invariant.{
  Answers, connected_lem, keycard_initialized_lem, keycard_ready_lem, keycard_authorized_lem,
  check_scard_error-Returns, on_authorize_interactions-Keeps,
}

module _ {W : Type 0} (card : Card W) where
  after_init-Ends :
      (e : Option Error) (c : Context W)
      → Inv true c
      → c.connected ≡ true
      → Returns true (after_init card e c)
  unfolding after_init reset_card_connection force_scan
  after_init-Ends none c v h = ground arith
  after_init-Ends (some e) c v h = ground (arith, check_scard_error-Ends card (some e) c v h)

  -- Initialize returns from every state of the invariant, whatever the card answers, and leaves a
  -- state of the invariant.
  pub initialize-Keeps : (pin puk pass : Text) → Keeps false (initialize card pin puk pass)
  unfolding initialize
  initialize-Keeps pin puk pass c v = elim (Bool-cases (keycard_connected c)) [
    | inl h ↦ rw h (
        exchange-Returns (card.init pin puk pass) (after_init card) c v (connected_lem c h)
          (λ d w e. after_init-Ends _ d w e))
    | inr h ↦ rw h v
  ]

  after_verify-Returns :
      (e : Option Error) (c : Context W)
      → Inv true c
      → c.connected ≡ true
      → Returns true (after_verify card e c)
  unfolding after_verify
  after_verify-Returns none c v h = v
  after_verify-Returns (some e) c v h =
      ground (arith, check_scard_error-Returns card (some e) c v h)

  pub verify_pin-Keeps : (pin : Text) → Answers card → Keeps false (verify_pin card pin)
  unfolding verify_pin
  verify_pin-Keeps pin answers c v =
      guarded-Returns keycard_ready (λ e. (some e, false)) (verify_ready card pin) c v
        λ pass.
          bind-Returns (with_mutex (command (card.verify_pin pin) >>= after_verify card)) _ c
            (exchange-Returns (card.verify_pin pin) (after_verify card) c v
              (keycard_ready_lem c pass).0 (λ d w e. after_verify-Returns _ d w e))
            (λ r d w.
              bind-Returns (on_authorize_interactions card r.1) _ d
                (on_authorize_interactions-Keeps card r.1 answers d w) (λ _ x y. y))

  -- A change of credentials: the command, and the status anew.
  changed-Returns :
      (f : W → Option Error × W) (c : Context W)
      → Answers card
      → Inv false c
      → c.connected ≡ true
      → Returns false (change_with card f c)
  unfolding change_with
  changed-Returns f c answers v h =
      bind-Returns (with_mutex (command f >>= check_scard_error card)) _ c
        (exchange-Returns f (check_scard_error card) c v h
          (λ d w e. check_scard_error-Returns card _ d w e))
        (λ r d w.
          bind-Returns (on_authorize_interactions card false) _ d
            (on_authorize_interactions-Keeps card false answers d w) (λ _ x y. y))

  pub change_pin-Keeps : (pin : Text) → Answers card → Keeps false (change_pin card pin)
  unfolding change_pin
  change_pin-Keeps pin answers c v =
      guarded-Returns keycard_authorized some (change_with card (card.change_pin pin)) c v
        λ pass. changed-Returns (card.change_pin pin) c answers v (keycard_authorized_lem c pass).0

  pub change_puk-Keeps : (puk : Text) → Answers card → Keeps false (change_puk card puk)
  unfolding change_puk
  change_puk-Keeps puk answers c v =
      guarded-Returns keycard_authorized some (change_with card (card.change_puk puk)) c v
        λ pass. changed-Returns (card.change_puk puk) c answers v (keycard_authorized_lem c pass).0

  pub unblock_pin-Keeps : (puk pin : Text) → Answers card → Keeps false (unblock_pin card puk pin)
  unfolding unblock_pin unblock_blocked
  unblock_pin-Keeps puk pin answers c v =
      guarded-Returns keycard_initialized some (if_blocked card puk pin) c v
        λ pass. if_blocked-Returns c v (keycard_initialized_lem c pass)
    where
      if_blocked-Returns :
          (c : Context W)
          → Inv false c
          → c.connected ≡ true
          → Returns false (if_blocked card puk pin c)
      if_blocked-Returns c v h = elim (Bool-cases (state_is c.status.state blocked_pin)) [
        | inr no_block ↦ rw (if_blocked, no_block) v
        | inl block ↦
            rw (if_blocked, block)
              (bind-Returns
                (with_mutex (command (card.unblock_pin puk pin) >>= check_scard_error card)) _ c
                (exchange-Returns (card.unblock_pin puk pin) (check_scard_error card) c v h
                  (λ d w e. check_scard_error-Returns card _ d w e))
                (λ r d w.
                  bind-Returns (on_authorize_interactions card (is_nil card r)) _ d
                    (on_authorize_interactions-Keeps card (is_nil card r) answers d w)
                    (λ _ x y. y)))
      ]

  after_generate-Returns :
      (xs : List ℕ) (e : Option Error) (c : Context W)
      → Inv true c
      → c.connected ≡ true
      → Returns true (after_generate card (xs, e) c)
  unfolding after_generate
  after_generate-Returns xs e c v h = ground (arith, check_scard_error-Returns card e c v h)

  pub generate_mnemonic-Keeps : (n : ℤ) → Keeps false (generate_mnemonic card n)
  unfolding generate_mnemonic
  generate_mnemonic-Keeps n c v =
      guarded-Returns keycard_ready (λ e. ([], some e))
        (with_mutex (command (card.generate_mnemonic (quot n 3)) >>= after_generate card)) c v
        λ pass.
          exchange-Returns (card.generate_mnemonic (quot n 3)) (after_generate card) c v
            (keycard_ready_lem c pass).0 (λ d w e. after_generate-Returns _ _ d w e)

  -- After `loadSeed`: without an error the card is still connected and the status is as it was.
  after_load-Ends :
      (r : Result Bytes) (c : Context W) (s : Status)
      → Inv true c
      → c.connected ≡ true
      → c.status ≡ s
      → Ends (Post true (λ _ t. t ≡ s)) (after_load card r c)
  unfolding after_load
  after_load-Ends (ok uid) c s v h e = (v, e)
  after_load-Ends (err e) c s v h same = ground (arith, check_scard_error-Ends card (some e) c v h)

  after_seed-Returns :
      (r : Bytes × Option Error) (c : Context W)
      → Inv false c
      → is_some c.status.app_info ≡ true
      → is_some c.status.app_status ≡ true
      → Returns false (after_seed card r c)
  unfolding after_seed publish_status
  after_seed-Returns (uid, some e) c v i a = v
  after_seed-Returns (uid, none) c v i a = ground arith

  -- LoadMnemonic returns from every state of the invariant and leaves a state of the invariant: what
  -- it writes through the pointers of the status is there.
  pub load_mnemonic-Keeps :
      (mnemonic password : Text) → Keeps false (load_mnemonic card mnemonic password)
  unfolding load_mnemonic
  load_mnemonic-Keeps mnemonic password c v =
      guarded-Returns keycard_authorized (λ e. ([], some e)) (load_ready card mnemonic password) c v
        λ pass.
          let (h, a) = keycard_authorized_lem c pass in
          bind-Ends (Post false (λ _ s. s ≡ c.status)) (λ _ d. Inv false d)
            (with_mutex
              (command (card.load_seed (card.binary_seed mnemonic password)) >>= after_load card))
            (after_seed card) c
            (exchange-Ends (λ _ s. s ≡ c.status)
              (card.load_seed (card.binary_seed mnemonic password)) (after_load card) c v h
              (λ d w e same. after_load-Ends _ d c.status w e same))
            (λ r d w.
              after_seed-Returns r d w.0 (rw w.1 (v.informed h)) (rw w.1 (v.reported (inr a))))
