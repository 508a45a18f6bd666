-- ===== src/Mocked/Answers.antt =====
-- What the flows of the login and of the recovery of an account answer.
use status_keycard_go.Prelude.{
  ℕ, ◌≡◌, ◌≢◌, ◌⊎◌, inl, inr, refl, ◌∙◌, true, false, some, ◌∷◌, Bool-cases, if◌then◌else◌,
}
use status_keycard_go.Flow.Values.{Action, action_text}
use status_keycard_go.Flow.Control.{idle, paused, action, flow_result}
use status_keycard_go.Mocked.Cards.{Keycard}
use status_keycard_go.Mocked.Machine.{
  M, MockedFlow, Outcome, done, ◌>>=◌, pure, inserted, put_inserted, helper, ask, finish, exported,
  with_card,
}
use status_keycard_go.Mocked.Credentials.{
  FlowStatus, Entered, Tried, try_credentials, unlocks, renewed, read_entered, ask_again,
  authenticated, with_tried_error, with_counters, lacks_keys, identity,
}
use status_keycard_go.Mocked.Handlers.{
  handle_login, deliver_login, handle_recover_account, deliver_recovery,
}
use status_keycard_go.Mocked.Steps.{
  >>=_lem, pure_lem, load_lem, write_lem, update_self, update_other,
}
use status_keycard_go.Mocked.Access.{Right, Cost, one_pin, one_puk, nothing, Cost-try, unlocks-try}

module _ {W : Type 0} where
  ask_again_lem :
      (a : Action) (m : FlowStatus) (s : MockedFlow W) (p : ℕ)
      → s.inserted_keycard ≡ some p
      → ask_again a m s
        ≡ done tt (record s {
          state = paused;
          signals = action (action_text a) (with_counters (s.heap.cards p) m) ∷ s.signals;
        })
  unfolding ask_again ask
  ask_again_lem a m s p i = >>=_lem inserted _ (load_lem (λ s. s.inserted_keycard) s i)

  -- The end of a flow behind the tests.
  abbrev finished : FlowStatus → MockedFlow W → MockedFlow W
  finished m s = record s { state = idle; signals = flow_result m ∷ s.signals }

  module _ (s : MockedFlow W) (e : Entered) (p : ℕ) (h : read_entered s ≡ done e s)
      (i : s.inserted_keycard ≡ some p) where
    -- The state behind the tests.
    abbrev tested : MockedFlow W
    tested = with_card p (try_credentials e (s.heap.cards p)).card s

    authenticated_lem :
        {A : Type 0} (flags : M W A) (f : A → Entered → Tried → M W (Unit {0})) (m : FlowStatus)
        (a : A)
        → flags s ≡ done a s
        → authenticated flags f m s
          ≡ (if unlocks e (try_credentials e (s.heap.cards p)).card
                then f a e (try_credentials e (s.heap.cards p))
                else ask_again
                    (try_credentials e (s.heap.cards p)).final_type
                    (with_tried_error (try_credentials e (s.heap.cards p)).error m))
              tested
    unfolding authenticated
    authenticated_lem flags f m a k =
        >>=_lem read_entered _ h
        ∙ >>=_lem flags _ k
        ∙ >>=_lem inserted _ (load_lem (λ s. s.inserted_keycard) s i)
        ∙ >>=_lem (put_inserted (try_credentials e (s.heap.cards p)).card) _
            (write_lem (λ s. s.inserted_keycard) _ s i)

-- The card d has the PIN that was entered, three and five attempts, and all else of the card c.
pub record Renewed (e : Entered) (c d : Keycard) : Type 0 where
  pub pin : d.pin ≡ e.pin
  pub pin_retries : d.pin_retries ≡ 3
  pub puk_retries : d.puk_retries ≡ 5
  pub rest : d ≡ record c { pin = d.pin; pin_retries = d.pin_retries; puk_retries = d.puk_retries }

pub renewed-Renewed : (e : Entered) (c d : Keycard) → d ≡ renewed e c → Renewed e c d
unfolding renewed
renewed-Renewed e c d h =
    rw h (record { pin = refl; pin_retries = refl; puk_retries = refl; rest = refl })

-- The flow has ended with a result, the card has the PIN that was entered and all its attempts, and
-- no other card has changed.
pub record Unlocked {W : Type 0} (e : Entered) (p : ℕ) (s : MockedFlow W) (o : Outcome W (Unit {0}))
    : Type 0 where
  pub rest : MockedFlow W
  pub ended : o ≡ done tt rest
  pub state : rest.state ≡ idle
  pub result : FlowStatus
  pub sent : rest.signals ≡ flow_result result ∷ s.signals
  pub card : Renewed e (s.heap.cards p) (rest.heap.cards p)
  pub others : (q : ℕ) → q ≢ p → rest.heap.cards q ≡ s.heap.cards q

-- The flow is paused with a question, at the cost of at most one attempt of the card, and no other
-- card has changed.
pub record Refused {W : Type 0} (e : Entered) (p : ℕ) (s : MockedFlow W) (o : Outcome W (Unit {0}))
    : Type 0 where
  pub rest : MockedFlow W
  pub ended : o ≡ done tt rest
  pub state : rest.state ≡ paused
  pub question : Action
  pub status : FlowStatus
  pub sent : rest.signals ≡ action (action_text question) status ∷ s.signals
  pub cost : Cost e (s.heap.cards p) (rest.heap.cards p)
  pub others : (q : ℕ) → q ≢ p → rest.heap.cards q ≡ s.heap.cards q

pub renewed-Cost : (e : Entered) (c d : Keycard) → Cost e c d → renewed e d ≡ renewed e c
unfolding renewed
renewed-Cost e c d (one_pin w q) = rw q
renewed-Cost e c d (one_puk w q) = rw q
renewed-Cost e c d (nothing u v q) = rw q

module _ {W : Type 0} (s : MockedFlow W) (e : Entered) (p q : ℕ) (h : read_entered s ≡ done e s)
    (i : s.inserted_keycard ≡ some p) (j : s.inserted_keycard_helper ≡ some q) where
  opened :
      (f : Unit {0} → Entered → Tried → M W (Unit {0})) (m : FlowStatus)
      → ((t : Tried) (u : MockedFlow W)
          → u.inserted_keycard ≡ some p
          → u.inserted_keycard_helper ≡ some q
          → (n : FlowStatus) × (f tt e t u
              ≡ done tt (finished n (with_card p (renewed e t.card) u))))
      → unlocks e (try_credentials e (s.heap.cards p)).card ≡ true
      → Unlocked e p s (authenticated (pure tt) f m s)
  opened f m k u =
      let t : Tried = try_credentials e (s.heap.cards p) in
      let (n, x) = k t (with_card p t.card s) i j in
      record {
        rest = finished n (with_card p (renewed e t.card) (with_card p t.card s));
        ended = authenticated_lem s e p h i (pure tt) f m tt (pure_lem tt s) ∙ rw u x;
        state = refl;
        result = n;
        sent = refl;
        card = renewed-Renewed e (s.heap.cards p) _ (
            update_self (with_card p t.card s).heap.cards p (renewed e t.card)
            ∙ renewed-Cost e (s.heap.cards p) t.card (Cost-try e (s.heap.cards p)));
        others = λ a d.
            update_other (with_card p t.card s).heap.cards p (renewed e t.card) a d
            ∙ update_other s.heap.cards p t.card a d;
      }

  refused :
      (f : Unit {0} → Entered → Tried → M W (Unit {0})) (m : FlowStatus)
      → unlocks e (try_credentials e (s.heap.cards p)).card ≡ false
      → Refused e p s (authenticated (pure tt) f m s)
  refused f m u =
      let t : Tried = try_credentials e (s.heap.cards p) in
      let st : FlowStatus =
        with_counters ((with_card p t.card s).heap.cards p) (with_tried_error t.error m) in
      record {
        rest = record (with_card p t.card s) {
          state = paused;
          signals = action (action_text t.final_type) st ∷ s.signals;
        };
        ended =
            authenticated_lem s e p h i (pure tt) f m tt (pure_lem tt s)
            ∙ rw u (
                ask_again_lem t.final_type (with_tried_error t.error m) (with_card p t.card s) p i);
        state = refl;
        question = t.final_type;
        status = st;
        sent = refl;
        cost = rw (update_self s.heap.cards p t.card) (Cost-try e (s.heap.cards p));
        others = λ a d. update_other s.heap.cards p t.card a d;
      }

  -- A handler whose work behind the tests renews the card and ends the flow answers in one of the two
  -- ways, by whether the PIN or the PUK is right.
  Answers-authenticated :
      (f : Unit {0} → Entered → Tried → M W (Unit {0})) (m : FlowStatus)
      → ((t : Tried) (u : MockedFlow W)
          → u.inserted_keycard ≡ some p
          → u.inserted_keycard_helper ≡ some q
          → (n : FlowStatus) × (f tt e t u
              ≡ done tt (finished n (with_card p (renewed e t.card) u))))
      → (Right e (s.heap.cards p) × Unlocked e p s (authenticated (pure tt) f m s))
        ⊎ (¬ Right e (s.heap.cards p) × Refused e p s (authenticated (pure tt) f m s))
  Answers-authenticated f m k =
      elim (Bool-cases (unlocks e (try_credentials e (s.heap.cards p)).card)) [
        | inl u ↦ inl ((unlocks-try e (s.heap.cards p)).0 u, opened f m k u)
        | inr u ↦ inr (λ r. cc (u, (unlocks-try e (s.heap.cards p)).1 r), refused f m u)
      ]

module _ {W : Type 0} (s : MockedFlow W) (e : Entered) (p q : ℕ) (i : s.inserted_keycard ≡ some p)
    (j : s.inserted_keycard_helper ≡ some q) where
  login_done :
      (m : FlowStatus) (t : Tried)
      → (n : FlowStatus) × (deliver_login m tt e t s
          ≡ done tt (finished n (with_card p (renewed e t.card) s)))
  unfolding deliver_login exported finish ◌>>=◌
  login_done m t = (
    _,
    >>=_lem (put_inserted (renewed e t.card)) _ (write_lem (λ s. s.inserted_keycard) _ s i)
        ∙ >>=_lem helper _
            (load_lem (λ s. s.inserted_keycard_helper) (with_card p (renewed e t.card) s) j),
  )

  recovery_done :
      (m : FlowStatus) (t : Tried)
      → (n : FlowStatus) × (deliver_recovery m tt e t s
          ≡ done tt (finished n (with_card p (renewed e t.card) s)))
  unfolding deliver_recovery exported finish ◌>>=◌
  recovery_done m t = (
    _,
    >>=_lem (put_inserted (renewed e t.card)) _ (write_lem (λ s. s.inserted_keycard) _ s i)
        ∙ >>=_lem helper _
            (load_lem (λ s. s.inserted_keycard_helper) (with_card p (renewed e t.card) s) j),
  )

-- The two answers, by whether the PIN or the PUK is right for the card.
abbrev pub Answers : {W : Type 0} → Entered → ℕ → MockedFlow W → Outcome W (Unit {0}) → Type 0
Answers e p s o =
    (Right e (s.heap.cards p) × Unlocked e p s o) ⊎ (¬ Right e (s.heap.cards p) × Refused e p s o)

module _ {W : Type 0} (s : MockedFlow W) (e : Entered) (p q : ℕ) (h : read_entered s ≡ done e s)
    (i : s.inserted_keycard ≡ some p) (j : s.inserted_keycard_helper ≡ some q)
    (status : (s.heap.cards p).not_status_keycard ≡ false)
    (keys : lacks_keys (s.heap.cards p) ≡ false) where
  login_lem :
      handle_login s
      ≡ authenticated
          (pure tt)
          (deliver_login (identity (s.heap.cards p)))
          (identity (s.heap.cards p))
          s
  unfolding handle_login
  login_lem = >>=_lem inserted _ (load_lem (λ s. s.inserted_keycard) s i) ∙ rw (status, keys)

  recovery_lem :
      handle_recover_account s
      ≡ authenticated
          (pure tt)
          (deliver_recovery (identity (s.heap.cards p)))
          (identity (s.heap.cards p))
          s
  unfolding handle_recover_account
  recovery_lem = >>=_lem inserted _ (load_lem (λ s. s.inserted_keycard) s i) ∙ rw (status, keys)

  -- Let the parameters PIN, new PIN and PUK be read as e, and let the inserted card be a keycard with
  -- keys, with a helper beside it. If the PIN or the PUK is right for the card, as it was, then the
  -- flows of login and of the recovery of an account end with a result, and the card has the entered
  -- PIN and all attempts. Otherwise both pause with a question, and the card has lost one attempt for
  -- a wrong PIN, one for a wrong PUK, or nothing. No other card changes, and neither flow panics.
  pub login-Answers : Answers e p s (handle_login s) × Answers e p s (handle_recover_account s)
  login-Answers = (
    rw login_lem (
        Answers-authenticated s e p q h i j (deliver_login (identity (s.heap.cards p)))
          (identity (s.heap.cards p)) (λ t u a b. login_done u e p q a b _ t)),
    rw recovery_lem (
        Answers-authenticated s e p q h i j (deliver_recovery (identity (s.heap.cards p)))
          (identity (s.heap.cards p)) (λ t u a b. recovery_done u e p q a b _ t)),
  )
