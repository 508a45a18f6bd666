-- ===== src/Card.antt =====
-- What the program calls and does not implement: PC/SC (scard), the command set of keycard-go, its
-- pure helpers and those of go-ethereum. Each is an operation on a world `W`, which is the card,
-- the readers and the rest of the outside. A Go result `(v, err)` is a pair, or a `Result` where
-- no caller reads the value beside an error.
use status_keycard_go.Prelude.{ℕ, Bool, Option, List, Text, Bytes}
use status_keycard_go.Prelude.Int.{ℤ}
use status_keycard_go.Internal.Errors.{Error, Result}
use status_keycard_go.Internal.Types.{
  CardInfo, CardStatus, PairingInfo, CardSignature, CardMetadata, ExportedKey,
}
use status_keycard_go.Internal.Readers.{ReadersStates}

pub record Card (W : Type 0) : Type 0 where
  -- scard
  pub establish : W → Option Error × W
  pub cancel : W → Option Error × W
  pub list_readers : W → (List Text × Option Error) × W
  pub get_status_change : ReadersStates → W → (ReadersStates × Option Error) × W
  pub connect : Text → W → Option Error × W
  pub card_status : W → Option Error × W  -- `card.Status()`, whose protocol is only logged
  pub release : W → Option Error × W
  pub disconnect : W → Option Error × W
  -- keycard.CommandSet
  pub select : W → (Option CardInfo × Option Error) × W  -- with the field `ApplicationInfo`
  pub init : Text → Text → Text → W → Option Error × W
  pub pair : Text → W → Result PairingInfo × W
  pub open_secure_channel : ℕ → Bytes → W → Option Error × W
  pub get_status_application : W → (Option CardStatus × Option Error) × W
  pub verify_pin : Text → W → Option Error × W
  pub change_pin : Text → W → Option Error × W
  pub change_puk : Text → W → Option Error × W
  pub unblock_pin : Text → Text → W → Option Error × W
  pub generate_mnemonic : ℤ → W → (List ℕ × Option Error) × W
  pub load_seed : Bytes → W → Result Bytes × W
  pub get_data : W → Result Bytes × W
  pub store_data : Bytes → W → Option Error × W
  pub export_key_extended : Bool → Bool → ℕ → Text → W → Result ExportedKey × W
  pub factory_reset : W → Option Error × W
  pub identify : W → Result Bytes × W
  pub generate_key : W → Result Bytes × W
  pub remove_key : W → Option Error × W
  pub derive_key : Text → W → Option Error × W
  pub sign_with_path : Bytes → Text → W → Result CardSignature × W
  pub unpair : ℕ → W → Option Error × W
  pub change_pairing_secret : Text → W → Option Error × W
  -- globalplatform.CommandSet
  pub isd_select : W → Option Error × W
  pub isd_open_secure_channel : W → Option Error × W
  pub delete_object : Bytes → W → Option Error × W
  pub install_keycard_applet : W → Option Error × W
  -- pure helpers
  pub instance_aid : Result Bytes  -- identifiers.KeycardInstanceAID(1)
  pub binary_seed : Text → Text → Bytes  -- PBKDF2 of the mnemonic and the password
  pub parse_metadata : Bytes → Result CardMetadata
  pub new_metadata : Text → List ℕ → Result CardMetadata
  pub serialize : CardMetadata → Bytes
  pub encode_path : List ℕ → Text  -- derivationpath.Encode
  pub decode_path : Text → Result (List ℕ)  -- derivationpath.Decode, the components
  pub address_of : Bytes → Result Text  -- crypto.UnmarshalPubkey, then PubkeyToAddress(...).Hex()
