-- ===== src/Flow/Termination/Loops.antt =====
-- The functions of pkg/flow/commands.go that ask the user end.
use status_keycard_go.Prelude.{arith, length, ℕ, Bool, Option, none, some, Text}
use status_keycard_go.Internal.Errors.{Error, Result, ok, err}
use status_keycard_go.Internal.Types.{PairingInfo}
use status_keycard_go.Pairing.{Info, Store, FileSystem}
use status_keycard_go.Card.{Card}
use status_keycard_go.Flow.Values.{Value, Action}
use status_keycard_go.Flow.Session.{F, Session, Round}
use status_keycard_go.Flow.Opening.{
  check_error, check_result, init_with, with_new_puk, with_new_pin, init_card, saved, store_pairing,
  stored_or_failed, paired, pair_round, pair_card,
}
use status_keycard_go.Flow.Authentication.{
  swap_puk, ask_secret, unless_blocked, wrong_puk, unblocked, with_secrets, unblock_round,
  unblock_flow, ask_pin, note_wrong_pin, verified, with_pin, authenticate_round, authenticate,
}
use status_keycard_go.Flow.Changes.{
  change_with, change_pin_flow, change_puk_flow, change_pairing_flow,
}
use status_keycard_go.Flow.Termination.Answers.{Ends, AtMost, Bounded, Asks}
use status_keycard_go.Flow.Termination.Rules.{Bounded-bind, Bounded-pure, Bounded-crash, ends_rules}

module _ {W : Type 0} where
  pub Bounded-check_error : (e : Option Error) → Bounded {W = W} (check_error e)
  unfolding check_error
  Bounded-check_error none = search ends_rules
  Bounded-check_error (some e) = search ends_rules

  pub Bounded-check_result : {A : Type 0} (r : Result A) → Bounded {W = W} (check_result r)
  unfolding check_result
  Bounded-check_result (ok a) = search ends_rules
  Bounded-check_result (err e) = search ends_rules

pub ruleset asks_rules = (ends_rules, Bounded-check_error, Bounded-check_result)

module _ {W : Type 0} (card : Card W) where
  Asks-init_with : (a b c : Value) → Asks (init_with card a b c)
  unfolding init_with
  Asks-init_with a b c = search asks_rules depth 16

  Asks-with_new_puk : (a : Value) (o : Option Value) → Asks (with_new_puk card a o)
  unfolding with_new_puk
  Asks-with_new_puk a none = search asks_rules
  Asks-with_new_puk a (some b) = search (asks_rules, Asks-init_with)

  Asks-with_new_pin : (o : Option Value) → Asks (with_new_pin card o)
  unfolding with_new_pin
  Asks-with_new_pin none = search asks_rules
  Asks-with_new_pin (some a) = search (asks_rules, Asks-with_new_puk)

  pub Bounded-init_card : Bounded (init_card card)
  unfolding init_card
  Bounded-init_card = search (asks_rules, Asks-with_new_pin)

  Asks-swap_puk : Asks (swap_puk card)
  unfolding swap_puk
  Asks-swap_puk = search asks_rules

  Asks-ask_secret : (b : Bool) (t : Text) → Asks (ask_secret card b t)
  unfolding ask_secret
  Asks-ask_secret b t = search asks_rules

  Asks-unless_blocked : (m : F W (Round (Unit {0}))) → Asks m → Asks (unless_blocked card m)
  unfolding unless_blocked
  Asks-unless_blocked m h = search asks_rules

  Asks-wrong_puk : (e : Error) (o : Option ℕ) → Asks (wrong_puk card e o)
  unfolding wrong_puk
  Asks-wrong_puk e none = search (asks_rules, Asks-unless_blocked)
  Asks-wrong_puk e (some n) = search (asks_rules, Asks-unless_blocked)

  Asks-unblocked : (a : Value) (e : Option Error) → Asks (unblocked card a e)
  unfolding unblocked
  Asks-unblocked a none = search asks_rules depth 16
  Asks-unblocked a (some e) = search (asks_rules, Asks-wrong_puk)

  Asks-with_secrets : (o p : Option Value) → Asks (with_secrets card o p)
  unfolding with_secrets
  Asks-with_secrets (some a) (some b) = search (asks_rules, Asks-unblocked) depth 12
  Asks-with_secrets none (some b) = search (asks_rules, Asks-unless_blocked)
  Asks-with_secrets none none = search (asks_rules, Asks-unless_blocked)
  Asks-with_secrets (some a) none = search (asks_rules, Asks-unless_blocked)

  Asks-unblock_round : Asks (unblock_round card)
  unfolding unblock_round
  Asks-unblock_round = search (asks_rules, Asks-with_secrets) depth 12

  Bounded-unblock : Bounded (unblock_flow card)
  unfolding unblock_flow
  Bounded-unblock = search (asks_rules, Asks-unblock_round)

  Asks-ask_pin : (t : Text) → Asks (ask_pin card t)
  unfolding ask_pin
  Asks-ask_pin t = search (asks_rules, Bounded-unblock)

  Bounded-note_wrong_pin : (o : Option ℕ) → Bounded (note_wrong_pin card o)
  unfolding note_wrong_pin
  Bounded-note_wrong_pin none = search asks_rules
  Bounded-note_wrong_pin (some n) = search asks_rules

  Asks-verified : (e : Option Error) → Asks (verified card e)
  unfolding verified
  Asks-verified none = search asks_rules
  Asks-verified (some e) = search (asks_rules, Bounded-note_wrong_pin, Asks-ask_pin)

  Asks-with_pin : (o : Option Value) → Asks (with_pin card o)
  unfolding with_pin
  Asks-with_pin none = search Asks-ask_pin
  Asks-with_pin (some v) = search (asks_rules, Asks-verified)

  Asks-authenticate_round : Asks (authenticate_round card)
  unfolding authenticate_round
  Asks-authenticate_round = search (asks_rules, Bounded-unblock, Asks-with_pin)

  pub Bounded-authenticate : Bounded (authenticate card)
  unfolding authenticate
  Bounded-authenticate = search (asks_rules, Asks-authenticate_round)

  Asks-change_with :
      (f : Text → W → Option Error × W) (a : Action) (o : Option Value)
      → Asks (change_with card f a o)
  unfolding change_with
  Asks-change_with f a none = search asks_rules
  Asks-change_with f a (some x) = search asks_rules depth 12

  pub Bounded-change_pin : Bounded (change_pin_flow card)
  unfolding change_pin_flow
  Bounded-change_pin = search (asks_rules, Asks-change_with)

  pub Bounded-change_puk : Bounded (change_puk_flow card)
  unfolding change_puk_flow
  Bounded-change_puk = search (asks_rules, Asks-change_with)

  pub Bounded-change_pairing : Bounded (change_pairing_flow card)
  unfolding change_pairing_flow
  Bounded-change_pairing = search (asks_rules, Asks-change_with)

module _ {W : Type 0} (card : Card W) (fs : FileSystem W) where
  Ends-saved :
      (r : Option ((Option Error × W) × Store)) (s : Session W)
      → Ends (AtMost (length s.answers)) (saved card fs r s)
  Ends-saved none s = tt
  Ends-saved (some ((e, w), p)) s = omega arith

  Bounded-store_pairing : (i : Info) → Bounded (store_pairing card fs i)
  unfolding store_pairing
  Bounded-store_pairing i = record { at = λ s. Ends-saved _ s }

  Asks-stored : (o : Option Error) → Asks (stored_or_failed card fs o)
  unfolding stored_or_failed
  Asks-stored none = search asks_rules
  Asks-stored (some e) = search asks_rules

  Asks-paired : (r : Result PairingInfo) → Asks (paired card fs r)
  unfolding paired
  Asks-paired (ok i) = search (asks_rules, Bounded-store_pairing, Asks-stored)
  Asks-paired (err e) = search asks_rules

  Asks-pair_round : Asks (pair_round card fs)
  unfolding pair_round
  Asks-pair_round = search (asks_rules, Asks-paired) depth 12

  pub Bounded-pair_card : Bounded (pair_card card fs)
  unfolding pair_card
  Bounded-pair_card = search (asks_rules, Asks-pair_round)
