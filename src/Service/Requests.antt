-- ===== src/Service/Requests.antt =====
-- The state of `KeycardService`, its requests and their replies.
use status_keycard_go.Prelude.{Bool, Option, List, Text, ℕ}
use status_keycard_go.Prelude.Int.{ℤ}
use status_keycard_go.Internal.Errors.{Error}
use status_keycard_go.Internal.Types.{Metadata, LoginKeys, RecoverKeys}
use status_keycard_go.Internal.Status.{Status}
use status_keycard_go.Context.Machine.{Context}

-- `keycardContext`, with the outside world where there is none.
pub data Holder (W : Type 0) : Type 0 where
  absent : W → Holder W
  present : Context W → Holder W

pub record Service (W : Type 0) : Type 0 where
  pub holder : Holder W
  pub simulate : Option Error

pub data Request : Type 0 where
  start_service : Text → Request  -- the path of the pairing file
  stop_service read_status factory_reset read_metadata login_keys recover_keys : Request
  initialize : Text → Text → Text → Request
  authorize change_pin change_puk simulate_error : Text → Request
  unblock load_mnemonic : Text → Text → Request
  generate_mnemonic : ℤ → Request
  store_metadata : Text → List Text → Request

-- What a handler writes into its `reply`.
pub data Reply : Type 0 where
  empty : Reply
  status : Status → Reply
  authorized : Bool → Reply
  indexes : List ℕ → Reply
  key_uid : Text → Reply
  metadata : Option Metadata → Reply
  login : LoginKeys → Reply
  recover : RecoverKeys → Reply

-- How a call of the service ends.
pub data Served (W : Type 0) : Type 0 where
  served : Reply → Option Error → Service W → Served W
  crashed blocked : Served W
