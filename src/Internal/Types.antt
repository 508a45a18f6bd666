-- ===== src/Internal/Types.antt =====
-- internal/types.go, and the data of keycard-go that the program reads.
use status_keycard_go.Prelude.{ℕ, Bool, Option, List, Text, Bytes}

-- keycard-go's `types.ApplicationInfo`, as far as it is read here.
pub record CardInfo : Type 0 where
  pub installed : Bool
  pub initialized : Bool
  pub instance_uid : Bytes
  pub version : Bytes
  pub available_slots : Bytes
  pub key_uid : Bytes
  pub can_factory_reset : Bool  -- HasFactoryResetCapability()

-- keycard-go's `types.ApplicationStatus`
pub record CardStatus : Type 0 where
  pub pin_retry_count : ℕ
  pub puk_retry_count : ℕ
  pub key_initialized : Bool
  pub path : Text

-- keycard-go's `types.PairingInfo`
pub record PairingInfo : Type 0 where
  pub key : Bytes
  pub index : ℕ

-- keycard-go's `types.Metadata`: a name and the last components of the wallet paths
pub record CardMetadata : Type 0 where
  pub name : Text
  pub paths : List ℕ

-- keycard-go's `types.ExportedKey`; a nil key is `none`
pub record ExportedKey : Type 0 where
  pub pub_key : Option Bytes
  pub priv_key : Bytes
  pub chain_code : Bytes

pub record ApplicationInfo : Type 0 where
  pub initialized : Bool
  pub instance_uid : Bytes
  pub version : ℕ
  pub available_slots : ℕ
  pub key_uid : Bytes

pub record ApplicationInfoV2 : Type 0 where
  pub installed : Bool
  pub initialized : Bool
  pub instance_uid : Bytes
  pub version_raw : ℕ
  pub version : Text
  pub available_slots : ℕ
  pub key_uid : Bytes

pub record ApplicationStatus : Type 0 where
  pub remaining_attempts_pin : ℕ
  pub remaining_attempts_puk : ℕ
  pub key_initialized : Bool
  pub path : Text

pub record KeyPair : Type 0 where
  pub address : Text
  pub public_key : Option Bytes
  pub private_key : Bytes
  pub chain_code : Bytes

pub record Wallet : Type 0 where
  pub path : Text
  pub address : Text
  pub public_key : Option Bytes

pub record Metadata : Type 0 where
  pub name : Text
  pub wallets : List Wallet

pub record LoginKeys : Type 0 where
  pub encryption_private_key : KeyPair
  pub whisper_private_key : KeyPair

pub record RecoverKeys : Type 0 where
  pub login_keys : LoginKeys
  pub eip1581_key : KeyPair
  pub wallet_root_key : KeyPair
  pub wallet_key : KeyPair
  pub master_key : KeyPair

-- keycard-go's `types.Signature`, as far as it is read here.
pub record CardSignature : Type 0 where
  pub r : Bytes
  pub s : Bytes
  pub v : ℕ

pub record Signature : Type 0 where
  pub r : Bytes
  pub s : Bytes
  pub v : ℕ
