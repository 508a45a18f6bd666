-- ===== src/Flow/Kinds.antt =====
-- The types of flows in pkg/flow/types.go, and the entries of a status that name the card.
use status_keycard_go.Prelude.{ℕ, zero, suc, ◌+◌, Option, none, some, [], ◌∷◌, if◌then◌else◌, ◌==◌}
use status_keycard_go.Prelude.Int.{ℤ, pos, negsuc}
use status_keycard_go.Prelude.Dict.{Dict}
use status_keycard_go.Flow.Values.{Value, text, int}
use status_keycard_go.Flow.Session.{CardState}
use status_keycard_go.Flow.Keys

-- `FlowStatus`
abbrev pub FlowStatus : Type 0
FlowStatus = Dict Value

-- The types of flows: the constants of pkg/flow/types.go.
pub data FlowType : Type 0 where
  get_app_info recover_account load_account login export_public sign_tx change_pin change_puk :
      FlowType
  change_pairing unpair_this unpair_others delete_account_and_unpair store_metadata get_metadata :
      FlowType

unfoldable pub flow_type_of : ℕ → Option FlowType
flow_type_of zero = some get_app_info
flow_type_of (suc zero) = some recover_account
flow_type_of (suc (suc zero)) = some load_account
flow_type_of (suc (suc (suc zero))) = some login
flow_type_of (suc (suc (suc (suc zero)))) = some export_public
flow_type_of n =
    if n == 5
    then some sign_tx
    else if n == 6
    then some change_pin
    else if n == 7
    then some change_puk
    else if n == 8
    then some change_pairing
    else if n == 9
    then some unpair_this
    else if n == 10
    then some unpair_others
    else if n == 11
    then some delete_account_and_unpair
    else if n == 12
    then some store_metadata
    else if n == 13
    then some get_metadata
    else none

-- `f.cardInfo.freeSlots++`
abbrev pub one_more : ℤ → ℤ
one_more (pos n) = pos (n + 1)
one_more (negsuc zero) = pos 0
one_more (negsuc (suc n)) = negsuc n

abbrev pub identity : CardState → FlowStatus
identity c = (Keys.instance_uid, text c.instance_uid) ∷ (Keys.key_uid, text c.key_uid) ∷ []

abbrev pub with_slots : CardState → FlowStatus
with_slots c = (Keys.free_slots, int c.free_slots) ∷ identity c

abbrev pub add_slot : CardState → CardState
add_slot c = record c { free_slots = one_more c.free_slots }
