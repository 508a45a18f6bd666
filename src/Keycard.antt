-- ===== src/Keycard.antt =====
-- internal/keycard_context.go: the first version of the card context, on which the flows run. A
-- method is a function on the world; the goroutine that passes bytes to the card is part of the
-- calls of `Card`, and log calls are left out.
pub mod Life
pub mod Reset
pub mod Waiting
use status_keycard_go.Prelude.{
  ℕ, ◌%◌, Bool, true, false, Option, none, some, List, [], Text, Bytes, if◌then◌else◌, ◌++◌,
}
use status_keycard_go.Prelude.Int.{ℤ}
use status_keycard_go.Hex.{btox}
use status_keycard_go.Internal.Errors.{Error, Result, ok, err, own, key_generated}
use status_keycard_go.Internal.Types.{
  CardInfo, CardStatus, PairingInfo, CardSignature, CardMetadata, ExportedKey, KeyPair,
}
use status_keycard_go.Card.{Card}
use status_keycard_go.Context.Base.{selected}

-- `if err != nil { return nil, err }`, for a value that is a pointer or a slice.
abbrev pub checked : {A : Type 0} → A × Option Error → Result A
checked (a, none) = ok a
checked (a, some e) = err e

module _ {W : Type 0} (card : Card W) where
  unfoldable pub select_applet : W → (Option CardInfo × Option Error) × W
  select_applet w = let (r, w') = card.select w in (selected r, w')

  -- The certificate authority of the card, in hex.
  unfoldable pub identify : W → Result Text × W
  identify w =
      let (r, w') = card.identify w in (elim r [ ok ca ↦ ok (btox ca) | err e ↦ err e ], w')

  abbrev pub pair : Text → W → Result PairingInfo × W
  pair pairing_password w = card.pair pairing_password w

  -- `SetPairingInfo` is part of the call.
  abbrev pub open_secure_channel : ℕ → Bytes → W → Option Error × W
  open_secure_channel index key w = card.open_secure_channel index key w

  abbrev pub verify_pin : Text → W → Option Error × W
  verify_pin pin w = card.verify_pin pin w

  abbrev pub unblock_pin : Text → Text → W → Option Error × W
  unblock_pin puk new_pin w = card.unblock_pin puk new_pin w

  -- A nil status is read, which is a panic: `none`.
  unfoldable pub generate_key : W → Option (Result Bytes × W)
  generate_key w =
      let (r, w') = card.get_status_application w in
      elim (checked r) [
        | err e ↦ some (err e, w')
        | ok s ↦ elim s [
          | none ↦ none
          | some t ↦
              if t.key_initialized
              then some (err (own key_generated), w')
              else some (card.generate_key w')
        ]
      ]

  unfoldable pub generate_mnemonic : ℤ → W → Result (List ℕ) × W
  generate_mnemonic checksum_size w =
      let (r, w') = card.generate_mnemonic checksum_size w in (checked r, w')

  abbrev pub remove_key : W → Option Error × W
  remove_key w = card.remove_key w

  abbrev pub derive_key : Text → W → Option Error × W
  derive_key path w = card.derive_key path w

  abbrev pub sign_with_path : Bytes → Text → W → Result CardSignature × W
  sign_with_path hash path w = card.sign_with_path hash path w

  -- The address of an exported key; a nil public key has the empty one.
  unfoldable pub address_of_key : Option Bytes → Result Text
  address_of_key none = ok []
  address_of_key (some k) = card.address_of k

  unfoldable pub to_key_pair : ExportedKey → Result Text → Result KeyPair
  to_key_pair key (err e) = err e
  to_key_pair key (ok address) = ok (record {
    address = address;
    public_key = key.pub_key;
    private_key = key.priv_key;
    chain_code = key.chain_code;
  })

  unfoldable pub exported : Result ExportedKey → Result KeyPair
  unfolding to_key_pair address_of_key
  exported (err e) = err e
  exported (ok key) = to_key_pair key (address_of_key key.pub_key)

  unfoldable pub export_key : Bool → Bool → ℕ → Text → W → Result KeyPair × W
  unfolding exported
  export_key derive make_current p2 path w =
      let (r, w') = card.export_key_extended derive make_current p2 path w in (exported r, w')

  abbrev pub load_seed : Bytes → W → Result Bytes × W
  load_seed seed w = card.load_seed seed w

  abbrev pub load_mnemonic : Text → Text → W → Result Bytes × W
  load_mnemonic mnemonic password w = load_seed (card.binary_seed mnemonic password) w

  abbrev pub init : Text → Text → Text → W → Option Error × W
  init pin puk pairing_password w = card.init pin puk pairing_password w

  abbrev pub unpair : ℕ → W → Option Error × W
  unpair index w = card.unpair index w

  -- `PairingInfo` is nil before a pairing or a channel, which is a panic: `none`.
  unfoldable pub unpair_current : Option ℕ → W → Option (Option Error × W)
  unpair_current none w = none
  unpair_current (some index) w = some (unpair (index % 256) w)

  unfoldable pub get_status_application : W → Result (Option CardStatus) × W
  get_status_application w = let (r, w') = card.get_status_application w in (checked r, w')

  abbrev pub change_pin : Text → W → Option Error × W
  change_pin pin w = card.change_pin pin w

  abbrev pub change_puk : Text → W → Option Error × W
  change_puk puk w = card.change_puk puk w

  abbrev pub change_pairing_password : Text → W → Option Error × W
  change_pairing_password password w = card.change_pairing_secret password w

  abbrev pub store_metadata : CardMetadata → W → Option Error × W
  store_metadata metadata w = card.store_data (card.serialize metadata) w

  unfoldable pub get_metadata : W → Result CardMetadata × W
  get_metadata w =
      let (r, w') = card.get_data w in (elim r [ ok d ↦ card.parse_metadata d | err e ↦ err e ], w')
