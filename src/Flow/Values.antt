-- ===== src/Flow/Values.antt =====
-- The parameters of a flow and the values of its signals.
use status_keycard_go.Prelude.{ℕ, Bool, false, Option, some, List, Text, text_eq, codes}
use status_keycard_go.Prelude.Int.{ℤ}
use status_keycard_go.Internal.Types.{ApplicationInfo, KeyPair, Metadata, Signature}

-- An `interface{}`: what JSON gives, and what the flows put into a status.
pub data Value : Type 0 where
  text : Text → Value
  int : ℤ → Value
  float : ℤ → Value  -- a float64, of which only `int(t)` is read
  boolean : Bool → Value
  array : List (Option Text) → Value  -- `none` is an element that is not a string
  other : Value  -- null or an object
  app_info : ApplicationInfo → Value
  key : KeyPair → Value
  keys : List KeyPair → Value
  card_metadata : Metadata → Value
  tx_signature : Signature → Value
  indexes : List ℕ → Value

-- `t == v`, for a string and an interface; `none` is a missing key.
unfoldable pub is_text : Text → Option Value → Bool
is_text t (some (text u)) = text_eq t u
is_text t _ = false

-- The names of the signals.
pub data Action : Type 0 where
  insert_card card_inserted swap_card : Action
  enter_pairing enter_pin enter_puk enter_new_pair enter_new_pin enter_new_puk : Action
  enter_tx_hash enter_path enter_mnemonic enter_name enter_wallets : Action

unfoldable pub action_text : Action → Text
action_text insert_card = codes "keycard.action.insert-card"
action_text card_inserted = codes "keycard.action.card-inserted"
action_text swap_card = codes "keycard.action.swap-card"
action_text enter_pairing = codes "keycard.action.enter-pairing"
action_text enter_pin = codes "keycard.action.enter-pin"
action_text enter_puk = codes "keycard.action.enter-puk"
action_text enter_new_pair = codes "keycard.action.enter-new-pairing"
action_text enter_new_pin = codes "keycard.action.enter-new-pin"
action_text enter_new_puk = codes "keycard.action.enter-new-puk"
action_text enter_tx_hash = codes "keycard.action.enter-tx-hash"
action_text enter_path = codes "keycard.action.enter-bip44-path"
action_text enter_mnemonic = codes "keycard.action.enter-mnemonic"
action_text enter_name = codes "keycard.action.enter-cardname"
action_text enter_wallets = codes "keycard.action.enter-wallets"
