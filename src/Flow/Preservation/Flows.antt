-- ===== src/Flow/Preservation/Flows.antt =====
-- Every flow keeps an invariant of sessions.
use status_keycard_go.Prelude.{ℕ, Bool, true, false, Option, none, some, List, [], ◌∷◌}
use status_keycard_go.Internal.Types.{Wallet, Metadata}
use status_keycard_go.Pairing.{FileSystem}
use status_keycard_go.Card.{Card}
use status_keycard_go.Flow.Session.{
  F, Session, Ended, value, fault, waiting, panic, exhausted, pure, gets, Fault, continue, ◌>>=◌,
}
use status_keycard_go.Flow.Session.Rules.{
  Holds, Invariant, Keeps, Keeps-gets, Keeps-pure, Keeps-bind, Keeps-fail, keeps_rules,
}
use status_keycard_go.Flow.Exports.{export_key_flow}
use status_keycard_go.Flow.Kinds.{FlowStatus, FlowType}
use status_keycard_go.Flow.Flows.{
  or_panic, or_given_up, reply, app_info_flow, recovered, export_keys_flow, master_address,
  export_public_flow, load_keys_flow, sign_flow, authenticated, unpair_this_flow, unpair_unless,
  unpair_all, unpair_others_flow, delete_unpair_flow, resolve, resolved, metadata_flow, flow_of,
}
use status_keycard_go.Flow.Preservation.{opening_rules, Keeps-open_and_authenticate}
use status_keycard_go.Flow.Preservation.Commands.{
  Keeps-change_pin, Keeps-change_puk, Keeps-change_pairing, Keeps-unpair_current, Keeps-unpair,
  Keeps-remove_key, Keeps-export_key_extended, Keeps-export_key, Keeps-export_bip44,
  Keeps-load_keys, Keeps-sign, Keeps-get_metadata, Keeps-store_metadata,
}

-- A flow that returns may also have given up.
pub record Leaves {W A : Type 0} (v : Invariant W) (m : F W A) : Type 0 where
  pub at : (s : Session W) → v.P s → Holds v.Q v.Q (m s)

module _ {W : Type 0} (v : Invariant W) where
  Holds-Leaves : {A : Type 0} (r : Ended W A) → Holds v.P v.Q r → Holds v.Q v.Q r
  Holds-Leaves (value a t) h = v.weaker t h
  Holds-Leaves (fault e t) h = h
  Holds-Leaves (waiting t) h = h
  Holds-Leaves panic h = h
  Holds-Leaves exhausted h = h

module _ {W : Type 0} {v : Invariant W} where
  Keeps-Leaves : {A : Type 0} (m : F W A) → Keeps v m → Leaves v m
  Keeps-Leaves m h = record { at = λ s k. Holds-Leaves v (m s) (h.at s k) }

  pub Leaves-bind :
      {A B : Type 0} (m : F W A) (f : A → F W B)
      → Keeps v m
      → ((a : A) → Leaves v (f a))
      → Leaves v (m >>= f)
  unfolding ◌>>=◌
  Leaves-bind {A} {B} m f h k = record { at = λ s p. continued (m s) (h.at s p) }
    where
      continued : (r : Ended W A) → Holds v.P v.Q r → Holds v.Q v.Q (continue r f)
      continued (value a t) q = (k a).at t q
      continued (fault e t) q = q
      continued (waiting t) q = q
      continued panic q = q
      continued exhausted q = q

  Leaves-or_given_up :
      {A B : Type 0} (m : F W A) (f : A → F W B) (b : B)
      → Keeps v m
      → ((a : A) → Keeps v (f a))
      → Leaves v (or_given_up m f (pure b))
  unfolding or_given_up pure
  Leaves-or_given_up {A} {B} m f b h k = record { at = λ s p. caught (m s) (h.at s p) }
    where
      caught :
          (r : Ended W A)
          → Holds v.P v.Q r
          → Holds v.Q v.Q (elim r as (λ _. Ended W B) [
            | value a t ↦ f a t
            | fault e t ↦ elim e [ Fault.giveup ↦ value b t | e' ↦ fault e' t ]
            | waiting t ↦ waiting t
            | panic ↦ panic
            | exhausted ↦ exhausted
          ])
      caught (value a t) q = Holds-Leaves v (f a t) ((k a).at t q)
      caught (fault Fault.giveup t) q = q
      caught (fault Fault.restart t) q = q
      caught (fault Fault.authenticity t) q = q
      caught (fault (Fault.error e) t) q = q
      caught (waiting t) q = q
      caught panic q = q
      caught exhausted q = q

  Keeps-or_panic : {A : Type 0} (m : F W A) → Keeps v m → Keeps v (or_panic m)
  unfolding or_panic
  Keeps-or_panic {A} m h = record { at = λ s p. kept (m s) (h.at s p) }
    where
      kept :
          (r : Ended W A)
          → Holds v.P v.Q r
          → Holds v.P v.Q (elim r as (λ _. Ended W A) [
            | value a t ↦ value a t
            | fault e t ↦ panic
            | waiting t ↦ waiting t
            | panic ↦ panic
            | exhausted ↦ exhausted
          ])
      kept (value a t) q = q
      kept (fault e t) q = tt
      kept (waiting t) q = q
      kept panic q = q
      kept exhausted q = q

  Keeps-reply : (r : FlowStatus) → Keeps v (reply r)
  unfolding reply
  Keeps-reply r = search keeps_rules

ruleset command_rules = (
  opening_rules, Keeps-open_and_authenticate, Keeps-reply, Keeps-or_panic, Keeps-change_pin,
  Keeps-change_puk, Keeps-change_pairing, Keeps-unpair_current, Keeps-unpair, Keeps-remove_key,
  Keeps-export_key, Keeps-export_key_extended, Keeps-export_bip44, Keeps-load_keys, Keeps-sign,
  Keeps-get_metadata, Keeps-store_metadata,
)

module _ {W : Type 0} {v : Invariant W} (card : Card W) (fs : FileSystem W) (n : ℕ) where
  Leaves-app_info : Leaves v (app_info_flow card fs n)
  unfolding app_info_flow
  Leaves-app_info =
      Leaves-bind (gets _) _ (Keeps-gets _) λ i.
        Leaves-or_given_up _ _ _ (Keeps-open_and_authenticate card fs n true) (λ _. Keeps-gets _)

  Keeps-recovered : (r : FlowStatus) → Keeps v (recovered card fs n r)
  unfolding recovered
  Keeps-recovered r = search command_rules depth 14

  Keeps-export_keys_flow : (b : Bool) → Keeps v (export_keys_flow card fs n b)
  unfolding export_keys_flow
  Keeps-export_keys_flow b = search (command_rules, Keeps-recovered) depth 14

  Keeps-master_address : (r : FlowStatus) → Keeps v (master_address card fs n r)
  unfolding master_address
  Keeps-master_address r = search command_rules depth 8

  Keeps-export_public_flow : Keeps v (export_public_flow card fs n)
  unfolding export_public_flow
  Keeps-export_public_flow = search (command_rules, Keeps-master_address) depth 12

  Keeps-load_keys_flow : Keeps v (load_keys_flow card fs n)
  unfolding load_keys_flow
  Keeps-load_keys_flow = search command_rules depth 12

  Keeps-sign_flow : Keeps v (sign_flow card fs n)
  unfolding sign_flow
  Keeps-sign_flow = search command_rules depth 12

  Keeps-authenticated : (m : F W (Unit {0})) → Keeps v m → Keeps v (authenticated card fs n m)
  unfolding authenticated
  Keeps-authenticated m h = search command_rules depth 12

  Keeps-unpair_this : Keeps v (unpair_this_flow card fs n)
  unfolding unpair_this_flow
  Keeps-unpair_this = search command_rules depth 12

  Keeps-unpair_unless : (i : ℕ) (o : Option ℕ) → Keeps v (unpair_unless card fs n i o)
  unfolding unpair_unless
  Keeps-unpair_unless i none = search command_rules
  Keeps-unpair_unless i (some x) = search command_rules

  Keeps-unpair_all : (is : List ℕ) → Keeps v (unpair_all card fs n is)
  unfolding unpair_all
  Keeps-unpair_all [] = search command_rules
  Keeps-unpair_all (i ∷ is) = Keeps-bind (gets _) _ (Keeps-gets _) (λ index.
      Keeps-bind (unpair_unless card fs n i index) _ (Keeps-unpair_unless i index)
        (λ _. Keeps-unpair_all is))

  Keeps-unpair_others : Keeps v (unpair_others_flow card fs n)
  unfolding unpair_others_flow
  Keeps-unpair_others = search (command_rules, Keeps-unpair_all) depth 12

  Keeps-delete_unpair : Keeps v (delete_unpair_flow card fs n)
  unfolding delete_unpair_flow
  Keeps-delete_unpair = search command_rules depth 14

  Keeps-resolve : (ws : List Wallet) → Keeps v (resolve card fs n ws)
  unfolding resolve
  Keeps-resolve [] = search command_rules
  Keeps-resolve (w ∷ ws) =
      Keeps-bind (export_key_flow card w.path true) _ (Keeps-export_key card w.path true)
        (λ k. Keeps-bind (resolve card fs n ws) _ (Keeps-resolve ws) (λ done. Keeps-pure _))

  Keeps-resolved : (m : Metadata) → Keeps v (resolved card fs n m)
  unfolding resolved
  Keeps-resolved m = search (command_rules, Keeps-master_address, Keeps-resolve) depth 12

  Keeps-metadata_flow : Keeps v (metadata_flow card fs n)
  unfolding metadata_flow
  Keeps-metadata_flow = search (command_rules, Keeps-resolved) depth 12

  pub Leaves-flow_of : (t : Option FlowType) → Leaves v (flow_of card fs n t)
  unfolding flow_of
  Leaves-flow_of none = Keeps-Leaves _ (Keeps-fail _)
  Leaves-flow_of (some FlowType.get_app_info) = Leaves-app_info
  Leaves-flow_of (some FlowType.recover_account) = Keeps-Leaves _ (Keeps-export_keys_flow true)
  Leaves-flow_of (some FlowType.login) = Keeps-Leaves _ (Keeps-export_keys_flow false)
  Leaves-flow_of (some FlowType.export_public) = Keeps-Leaves _ Keeps-export_public_flow
  Leaves-flow_of (some FlowType.load_account) = Keeps-Leaves _ Keeps-load_keys_flow
  Leaves-flow_of (some FlowType.sign_tx) = Keeps-Leaves _ Keeps-sign_flow
  Leaves-flow_of (some FlowType.change_pin) =
      Keeps-Leaves _ (Keeps-authenticated _ (Keeps-change_pin card))
  Leaves-flow_of (some FlowType.change_puk) =
      Keeps-Leaves _ (Keeps-authenticated _ (Keeps-change_puk card))
  Leaves-flow_of (some FlowType.change_pairing) =
      Keeps-Leaves _ (Keeps-authenticated _ (Keeps-change_pairing card))
  Leaves-flow_of (some FlowType.unpair_this) = Keeps-Leaves _ Keeps-unpair_this
  Leaves-flow_of (some FlowType.unpair_others) = Keeps-Leaves _ Keeps-unpair_others
  Leaves-flow_of (some FlowType.delete_account_and_unpair) = Keeps-Leaves _ Keeps-delete_unpair
  Leaves-flow_of (some FlowType.store_metadata) =
      Keeps-Leaves _ (Keeps-authenticated _ (Keeps-store_metadata card))
  Leaves-flow_of (some FlowType.get_metadata) = Keeps-Leaves _ Keeps-metadata_flow
