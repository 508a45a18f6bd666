-- ===== src/Flow/Preservation.antt =====
-- Every function of pkg/flow/commands.go keeps an invariant of sessions.
pub mod Commands
pub mod Flows
pub mod Run
use status_keycard_go.Prelude.{ℕ, Bool, Option, none, some, List, [], ◌∷◌, Text, Bytes}
use status_keycard_go.Internal.Errors.{Error, Result, ok, err}
use status_keycard_go.Internal.Types.{CardInfo, CardStatus, PairingInfo, CardMetadata}
use status_keycard_go.Pairing.{Info, Store, FileSystem, store}
use status_keycard_go.Card.{Card}
use status_keycard_go.Flow.Values.{Value, text, array, int, float, boolean, other, Action}
use status_keycard_go.Flow.Session.{F, Session, Ended, value, panic, ◌>>=◌, Fault, Round}
use status_keycard_go.Flow.Session.Rules.{Holds, Invariant, Keeps, keeps_rules}
use status_keycard_go.Flow.Opening.{
  check_error, check_result, try_call, requires_keys, require_keys, unless_overwrite,
  require_no_keys, require_uid, required_uids, keycard_selected, reset_done, factory_reset_flow,
  select_keycard, init_with, with_new_puk, with_new_pin, init_card, identified, verify_authenticity,
  saved, store_pairing, stored_or_failed, paired, pair_round, pair_card, note_retries, status_read,
  pair_again, channel_opened, with_pairing, with_app_info, open_round, open_sc,
}
use status_keycard_go.Flow.Authentication.{
  swap_puk, ask_secret, unless_blocked, wrong_puk, unblocked, with_secrets, unblock_round,
  unblock_flow, ask_pin, note_wrong_pin, verified, with_pin, authenticate_round, authenticate,
  open_and_authenticate,
}

module _ {W : Type 0} {v : Invariant W} where
  pub Keeps-check_error : (e : Option Error) → Keeps v (check_error e)
  unfolding check_error
  Keeps-check_error none = search keeps_rules
  Keeps-check_error (some e) = search keeps_rules

  pub Keeps-check_result : {A : Type 0} (r : Result A) → Keeps v (check_result r)
  unfolding check_result
  Keeps-check_result (ok a) = search keeps_rules
  Keeps-check_result (err e) = search keeps_rules

  pub Keeps-try_call : {A : Type 0} (f : W → Option (A × W)) → Keeps v (try_call f)
  unfolding try_call
  Keeps-try_call {A} f = record { at = λ s h. tried s (f s.world) h }
    where
      tried :
          (s : Session W) (o : Option (A × W))
          → v.P s
          → Holds v.P v.Q (elim o as (λ _. Ended W A) [
            | none ↦ panic
            | some (a, w) ↦ value a (record s { world = w })
          ])
      tried s none h = tt
      tried s (some (a, w)) h = v.on_world s w h

  Keeps-requires_keys : (b : Bool) → Keeps v (requires_keys b)
  unfolding requires_keys
  Keeps-requires_keys b = search keeps_rules

  pub Keeps-require_keys : Keeps v require_keys
  unfolding require_keys
  Keeps-require_keys = search (keeps_rules, Keeps-requires_keys)

  Keeps-unless_overwrite : (b : Bool) → Keeps v (unless_overwrite b)
  unfolding unless_overwrite
  Keeps-unless_overwrite b = search keeps_rules

  pub Keeps-require_no_keys : Keeps v require_no_keys
  unfolding require_no_keys
  Keeps-require_no_keys = search (keeps_rules, Keeps-unless_overwrite)

  Keeps-require_uid : (k t : Text) (o : Option Value) → Keeps v (require_uid k t o)
  unfolding require_uid
  Keeps-require_uid k t none = search keeps_rules
  Keeps-require_uid k t (some x) = search keeps_rules

  Keeps-required_uids : Keeps v required_uids
  unfolding required_uids
  Keeps-required_uids = search (keeps_rules, Keeps-require_uid) depth 12

  pub Keeps-keycard_selected : (r : Option CardInfo × Option Error) → Keeps v (keycard_selected r)
  unfolding keycard_selected
  Keeps-keycard_selected (_, some e) = search keeps_rules
  Keeps-keycard_selected (none, none) = search keeps_rules
  Keeps-keycard_selected (some i, none) = search (keeps_rules, Keeps-required_uids) depth 12

pub ruleset opening_rules = (
  keeps_rules, Keeps-check_error, Keeps-check_result, Keeps-try_call, Keeps-require_keys,
  Keeps-require_no_keys, Keeps-keycard_selected,
)

module _ {W : Type 0} {v : Invariant W} (card : Card W) where
  Keeps-reset_done : (e : Option Error) → Keeps v (reset_done card e)
  unfolding reset_done
  Keeps-reset_done none = search opening_rules
  Keeps-reset_done (some e) = search opening_rules

  pub Keeps-factory_reset : Keeps v (factory_reset_flow card)
  unfolding factory_reset_flow
  Keeps-factory_reset = search (opening_rules, Keeps-reset_done)

  pub Keeps-select_keycard : Keeps v (select_keycard card)
  unfolding select_keycard
  Keeps-select_keycard = search opening_rules

  Keeps-init_with : (a b c : Value) → Keeps v (init_with card a b c)
  unfolding init_with
  Keeps-init_with a b c = search opening_rules depth 20

  Keeps-with_new_puk : (a : Value) (o : Option Value) → Keeps v (with_new_puk card a o)
  unfolding with_new_puk
  Keeps-with_new_puk a none = search opening_rules
  Keeps-with_new_puk a (some x) = search (opening_rules, Keeps-init_with)

  Keeps-with_new_pin : (o : Option Value) → Keeps v (with_new_pin card o)
  unfolding with_new_pin
  Keeps-with_new_pin none = search opening_rules
  Keeps-with_new_pin (some x) = search (opening_rules, Keeps-with_new_puk)

  Keeps-init_card : Keeps v (init_card card)
  unfolding init_card
  Keeps-init_card = search (opening_rules, Keeps-with_new_pin)

  Keeps-identified : (r : Result Text) → Keeps v (identified card r)
  unfolding identified
  Keeps-identified (ok a) = search opening_rules
  Keeps-identified (err e) = search opening_rules

  Keeps-verify_authenticity : Keeps v (verify_authenticity card)
  unfolding verify_authenticity
  Keeps-verify_authenticity = search (opening_rules, Keeps-identified)

module _ {W : Type 0} {v : Invariant W} (card : Card W) (fs : FileSystem W) where
  Keeps-store_pairing : (i : Info) → Keeps v (store_pairing card fs i)
  unfolding store_pairing
  Keeps-store_pairing i = record {
    at = λ s h. kept s (store fs s.card_info.instance_uid i s.pairings s.world) h;
  }
    where
      kept :
          (s : Session W) (o : Option ((Option Error × W) × Store))
          → v.P s
          → Holds v.P v.Q (saved card fs o s)
      kept s none h = tt
      kept s (some ((e, w), p)) h = v.on_store s w p h

  Keeps-stored_or_failed : (e : Option Error) → Keeps v (stored_or_failed card fs e)
  unfolding stored_or_failed
  Keeps-stored_or_failed none = search opening_rules
  Keeps-stored_or_failed (some e) = search opening_rules

  Keeps-paired : (r : Result PairingInfo) → Keeps v (paired card fs r)
  unfolding paired
  Keeps-paired (ok i) = search (opening_rules, Keeps-store_pairing, Keeps-stored_or_failed)
  Keeps-paired (err e) = search opening_rules depth 12

  Keeps-pair_card : Keeps v (pair_card card fs)
  unfolding pair_card pair_round
  Keeps-pair_card = search (opening_rules, Keeps-paired) depth 12

  Keeps-status_read : (r : Result (Option CardStatus)) → Keeps v (status_read card fs r)
  unfolding status_read note_retries
  Keeps-status_read (err e) = search opening_rules
  Keeps-status_read (ok none) = search opening_rules
  Keeps-status_read (ok (some t)) = search opening_rules

  Keeps-pair_again : (g : Bool) → Keeps v (pair_again card fs g)
  unfolding pair_again
  Keeps-pair_again g = search (opening_rules, Keeps-verify_authenticity card, Keeps-pair_card)

  Keeps-channel_opened : (g : Bool) (e : Option Error) → Keeps v (channel_opened card fs g e)
  unfolding channel_opened
  Keeps-channel_opened g none = search (opening_rules, Keeps-status_read)
  Keeps-channel_opened g (some e) = search (opening_rules, Keeps-pair_again) depth 12

  Keeps-with_pairing : (g : Bool) (i : Option Info) → Keeps v (with_pairing card fs g i)
  unfolding with_pairing
  Keeps-with_pairing g none = search Keeps-pair_again
  Keeps-with_pairing g (some i) = search (opening_rules, Keeps-channel_opened)

  Keeps-with_app_info : (g : Bool) (i : Option CardInfo) → Keeps v (with_app_info card fs g i)
  unfolding with_app_info
  Keeps-with_app_info g none = search opening_rules
  Keeps-with_app_info g (some i) = search (opening_rules, Keeps-init_card card, Keeps-with_pairing)

  Keeps-open_sc : (n : ℕ) (g : Bool) → Keeps v (open_sc card fs n g)
  unfolding open_sc open_round
  Keeps-open_sc n g = search (opening_rules, Keeps-with_app_info)

module _ {W : Type 0} {v : Invariant W} (card : Card W) where
  Keeps-ask_secret : (b : Bool) (t : Text) → Keeps v (ask_secret card b t)
  unfolding ask_secret
  Keeps-ask_secret b t = search keeps_rules

  Keeps-unless_blocked : (m : F W (Round (Unit {0}))) → Keeps v m → Keeps v (unless_blocked card m)
  unfolding unless_blocked swap_puk
  Keeps-unless_blocked m h = search keeps_rules

  Keeps-wrong_puk : (e : Error) (n : Option ℕ) → Keeps v (wrong_puk card e n)
  unfolding wrong_puk
  Keeps-wrong_puk e none = search (keeps_rules, Keeps-unless_blocked)
  Keeps-wrong_puk e (some n) = search (keeps_rules, Keeps-unless_blocked, Keeps-ask_secret) depth 12

  Keeps-unblocked : (x : Value) (e : Option Error) → Keeps v (unblocked card x e)
  unfolding unblocked
  Keeps-unblocked x none = search keeps_rules depth 12
  Keeps-unblocked x (some e) = search (keeps_rules, Keeps-wrong_puk)

  Keeps-with_secrets : (p k : Option Value) → Keeps v (with_secrets card p k)
  unfolding with_secrets
  Keeps-with_secrets (some p) (some k) = search (keeps_rules, Keeps-unblocked) depth 12
  Keeps-with_secrets none (some k) = search (keeps_rules, Keeps-unless_blocked, Keeps-ask_secret)
  Keeps-with_secrets (some p) none = search (keeps_rules, Keeps-unless_blocked, Keeps-ask_secret)
  Keeps-with_secrets none none = search (keeps_rules, Keeps-unless_blocked, Keeps-ask_secret)

  Keeps-unblock_flow : Keeps v (unblock_flow card)
  unfolding unblock_flow unblock_round swap_puk
  Keeps-unblock_flow = search (keeps_rules, Keeps-with_secrets) depth 12

  Keeps-ask_pin : (t : Text) → Keeps v (ask_pin card t)
  unfolding ask_pin
  Keeps-ask_pin t = search (keeps_rules, Keeps-unblock_flow)

  Keeps-note_wrong_pin : (n : Option ℕ) → Keeps v (note_wrong_pin card n)
  unfolding note_wrong_pin
  Keeps-note_wrong_pin none = search keeps_rules
  Keeps-note_wrong_pin (some n) = search keeps_rules

  Keeps-verified : (e : Option Error) → Keeps v (verified card e)
  unfolding verified
  Keeps-verified none = search keeps_rules
  Keeps-verified (some e) = search (keeps_rules, Keeps-note_wrong_pin, Keeps-ask_pin)

  Keeps-with_pin : (o : Option Value) → Keeps v (with_pin card o)
  unfolding with_pin
  Keeps-with_pin none = search Keeps-ask_pin
  Keeps-with_pin (some x) = search (keeps_rules, Keeps-verified)

  pub Keeps-authenticate : Keeps v (authenticate card)
  unfolding authenticate authenticate_round
  Keeps-authenticate = search (keeps_rules, Keeps-unblock_flow, Keeps-with_pin) depth 12

module _ {W : Type 0} {v : Invariant W} (card : Card W) (fs : FileSystem W) where
  pub Keeps-open_and_authenticate : (n : ℕ) (g : Bool) → Keeps v (open_and_authenticate card fs n g)
  unfolding open_and_authenticate
  Keeps-open_and_authenticate n g =
      search (keeps_rules, Keeps-open_sc card fs, Keeps-authenticate card)
