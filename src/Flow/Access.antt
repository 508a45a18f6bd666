-- ===== src/Flow/Access.antt =====
-- Who passes `authenticate`: the card has accepted a PIN, or a PUK with a new PIN.
use status_keycard_go.Prelude.{
  ℕ, zero, suc, ◌≡◌, refl, Bool, true, false, Option, none, some, [], if◌then◌else◌, length, Text,
}
use status_keycard_go.Prelude.Dict.{Dict}
use status_keycard_go.Internal.Errors.{Error}
use status_keycard_go.Pairing.{FileSystem}
use status_keycard_go.Card.{Card}
use status_keycard_go.Flow.Values.{Value}
use status_keycard_go.Flow.Session.{
  Fault, Session, Ended, value, fault, waiting, panic, exhausted, F, pure, fail, continue, ◌>>=◌,
  ◌>>◌, call, set_card, delete_param, set_param, stored, pause_and_restart, Round, finished, again,
  next, repeat, ask,
}
use status_keycard_go.Flow.Keys
use status_keycard_go.Flow.Opening.{open_sc}
use status_keycard_go.Keycard.{verify_pin, unblock_pin}
use status_keycard_go.Flow.Authentication.{
  swap_puk, ask_secret, unless_blocked, wrong_puk, max_pin_retries, max_puk_retries,
  with_pin_retries, with_puk_retries, unblocked, with_secrets, unblock_round, unblock_flow, ask_pin,
  verified, with_pin, authenticate_round, authenticate, open_and_authenticate,
}

-- `Opened` holds where the card has accepted a PIN or a PUK.
pub record Opens {W : Type 0} (card : Card W) (Opened : W → Type 0) : Type 0 where
  pub by_pin :
      (pin : Text) (w : W) → (card.verify_pin pin w).0 ≡ none → Opened (card.verify_pin pin w).1
  pub by_puk :
      (puk pin : Text) (w : W)
      → (card.unblock_pin puk pin w).0 ≡ none
      → Opened (card.unblock_pin puk pin w).1

-- A function that returns, returns in such a world.
abbrev pub Passed : {W A : Type 0} → (W → Type 0) → Ended W A → Type 0
Passed Opened (value a t) = Opened t.world
Passed Opened _ = Unit

abbrev RoundPassed : {W A : Type 0} → (W → Type 0) → Ended W (Round A) → Type 0
RoundPassed Opened (value (finished a) t) = Opened t.world
RoundPassed Opened _ = Unit

record Gives {W A : Type 0} (Opened : W → Type 0) (m : F W A) : Type 0 where
  at : (s : Session W) → Passed Opened (m s)

record Finishes {W A : Type 0} (Opened : W → Type 0) (m : F W (Round A)) : Type 0 where
  at : (s : Session W) → RoundPassed Opened (m s)

module _ {W : Type 0} {Opened : W → Type 0} where
  Gives-after :
      {A B : Type 0} (m : F W A) (f : A → F W B)
      → ((a : A) → Gives Opened (f a))
      → Gives Opened (m >>= f)
  unfolding ◌>>=◌
  Gives-after {A} {B} m f h = record { at = λ s. go (m s) }
    where
      go : (r : Ended W A) → Passed Opened (continue r f)
      go (value a t) = (h a).at t
      go (fault e t) = tt
      go (waiting t) = tt
      go panic = tt
      go exhausted = tt

  Finishes-after :
      {A B : Type 0} (m : F W A) (f : A → F W (Round B))
      → ((a : A) → Finishes Opened (f a))
      → Finishes Opened (m >>= f)
  unfolding ◌>>=◌
  Finishes-after {A} {B} m f h = record { at = λ s. go (m s) }
    where
      go : (r : Ended W A) → RoundPassed Opened (continue r f)
      go (value a t) = (h a).at t
      go (fault e t) = tt
      go (waiting t) = tt
      go panic = tt
      go exhausted = tt

  Finishes-done :
      {A : Type 0} (m : F W (Unit {0})) (a : A)
      → Gives Opened m
      → Finishes Opened (m >> pure (finished a))
  unfolding ◌>>=◌ pure
  Finishes-done {A} m a h = record { at = λ s. go (m s) (h.at s) }
    where
      go :
          (r : Ended W (Unit {0}))
          → Passed Opened r
          → RoundPassed Opened (continue r (λ _. pure (finished a)))
      go (value b t) k = k
      go (fault e t) k = tt
      go (waiting t) k = tt
      go panic k = tt
      go exhausted k = tt

  Finishes-again : {A : Type 0} → Finishes {A = A} Opened (pure again)
  unfolding pure
  Finishes-again = record { at = λ s. tt }

  Finishes-fail : {A : Type 0} (e : Fault) → Finishes Opened (fail {A = Round A} e)
  unfolding fail
  Finishes-fail e = record { at = λ s. tt }

  Finishes-if :
      {A : Type 0} (b : Bool) (m n : F W (Round A))
      → Finishes Opened m
      → Finishes Opened n
      → Finishes Opened (if b then m else n)
  Finishes-if true m n h k = h
  Finishes-if false m n h k = k

  repeat-Passed :
      {A : Type 0} (n : ℕ) (m : F W (Round A)) (s : Session W)
      → Finishes Opened m
      → Passed Opened (repeat n m s)
  unfolding repeat
  repeat-Passed zero m s h = tt
  repeat-Passed {A} (suc n) m s h = went (m s) (h.at s) (λ t. repeat-Passed n m t h)
    where
      went :
          (r : Ended W (Round A))
          → RoundPassed Opened r
          → ((t : Session W) → Passed Opened (repeat n m t))
          → Passed Opened (continue r (next (repeat n m)))
      went (value (finished a) t) k l = k
      went (value again t) k l = l t
      went (fault e t) k l = tt
      went (waiting t) k l = tt
      went panic k l = tt
      went exhausted k l = tt

  Gives-ask : {A : Type 0} (m : F W (Round A)) → Finishes Opened m → Gives Opened (ask m)
  unfolding ask
  Gives-ask m h = record { at = λ s. repeat-Passed (suc (length s.answers)) m s h }

ruleset passes_rules = (
  Gives-after, Finishes-done, Finishes-after, Finishes-again, Finishes-fail, Finishes-if, Gives-ask,
)

module _ {W : Type 0} (card : Card W) (Opened : W → Type 0) (opens : Opens card Opened) where
  Finishes-wrong_puk : (e : Error) (o : Option ℕ) → Finishes Opened (wrong_puk card e o)
  unfolding wrong_puk unless_blocked swap_puk ask_secret pause_and_restart
  Finishes-wrong_puk e none = search passes_rules
  Finishes-wrong_puk e (some n) = search passes_rules depth 12

  unblocked_lem :
      (new_pin : Value) (r : Option Error × W) (s : Session W)
      → (r.0 ≡ none → Opened r.1)
      → RoundPassed Opened (unblocked card new_pin r.0 (record s { world = r.1 }))
  unfolding unblocked set_card set_param delete_param ◌>>=◌ pure
  unblocked_lem v (none, w) s h = kept s.flow.params
    where
      kept :
          (o : Option (Dict Value))
          → RoundPassed Opened (
              continue
                (stored Keys.pin v o (record s {
                  world = w;
                  card_info =
                      with_puk_retries max_puk_retries
                        (with_pin_retries max_pin_retries s.card_info);
                }))
                (λ _. delete_param Keys.new_pin >>= λ _.
                  delete_param Keys.puk >>= λ _. pure (finished tt)))
      kept none = tt
      kept (some d) = h refl
  unblocked_lem v (some e, w) s h = (Finishes-refused e).at _
    where
      Finishes-refused : (e : Error) → Finishes Opened (unblocked card v (some e))
      Finishes-refused e = search (passes_rules, Finishes-wrong_puk)

  Finishes-unblock_call :
      (v : Value) (puk pin : Text)
      → Finishes Opened (call (unblock_pin card puk pin) >>= unblocked card v)
  unfolding ◌>>=◌ call
  Finishes-unblock_call v puk pin = record {
    at = λ s. unblocked_lem v (card.unblock_pin puk pin s.world) s (opens.by_puk puk pin s.world);
  }

  Finishes-with_secrets : (o p : Option Value) → Finishes Opened (with_secrets card o p)
  unfolding with_secrets unless_blocked swap_puk ask_secret pause_and_restart
  Finishes-with_secrets (some a) (some b) = search (passes_rules, Finishes-unblock_call) depth 12
  Finishes-with_secrets none (some b) = search passes_rules
  Finishes-with_secrets none none = search passes_rules
  Finishes-with_secrets (some a) none = search passes_rules

  Finishes-unblock_round : Finishes Opened (unblock_round card)
  unfolding unblock_round swap_puk pause_and_restart
  Finishes-unblock_round = search (passes_rules, Finishes-with_secrets) depth 12

  Gives-unblock : Gives Opened (unblock_flow card)
  unfolding unblock_flow
  Gives-unblock = search (passes_rules, Finishes-unblock_round)

  Finishes-ask_pin : (t : Text) → Finishes Opened (ask_pin card t)
  unfolding ask_pin
  Finishes-ask_pin t = search (passes_rules, Gives-unblock)

  verified_lem :
      (r : Option Error × W) (s : Session W)
      → (r.0 ≡ none → Opened r.1)
      → RoundPassed Opened (verified card r.0 (record s { world = r.1 }))
  unfolding verified set_card ◌>>=◌ pure
  verified_lem (none, w) s h = h refl
  verified_lem (some e, w) s h = Finishes-refused.at _
    where
      Finishes-refused : Finishes Opened (verified card (some e))
      Finishes-refused = search (passes_rules, Finishes-ask_pin)

  Finishes-verify_call :
      (pin : Text) → Finishes Opened (call (verify_pin card pin) >>= verified card)
  unfolding ◌>>=◌ call
  Finishes-verify_call pin = record {
    at = λ s. verified_lem (card.verify_pin pin s.world) s (opens.by_pin pin s.world);
  }

  Finishes-with_pin : (o : Option Value) → Finishes Opened (with_pin card o)
  unfolding with_pin
  Finishes-with_pin none = Finishes-ask_pin []
  Finishes-with_pin (some v) = search (passes_rules, Finishes-verify_call)

  Finishes-authenticate_round : Finishes Opened (authenticate_round card)
  unfolding authenticate_round
  Finishes-authenticate_round = search (passes_rules, Gives-unblock, Finishes-with_pin)

  Gives-authenticate : Gives Opened (authenticate card)
  unfolding authenticate
  Gives-authenticate = search (passes_rules, Finishes-authenticate_round)

  -- openSCAndAuthenticate returns without an error only after the card has accepted a PIN or a PUK:
  -- whatever holds of the world behind each accepted VerifyPin and each accepted UnblockPIN holds
  -- when it returns, for every sequence of answers of the user and of the card.
  pub open_and_authenticate-Passed :
      (fs : FileSystem W) (rounds : ℕ) (giveup : Bool) (s : Session W)
      → Passed Opened (open_and_authenticate card fs rounds giveup s)
  unfolding open_and_authenticate
  open_and_authenticate-Passed fs rounds giveup s =
      (Gives-after (open_sc card fs rounds giveup) _ (λ _. Gives-authenticate)).at s
