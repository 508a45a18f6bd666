-- ===== src/Flow/Keys.antt =====
-- The keys of the parameters and of the statuses of a flow: the constants of pkg/flow/types.go, used
-- qualified.
use status_keycard_go.Prelude.{Text, codes}

abbrev pub error : Text
error = codes "error"

abbrev pub app_info : Text
app_info = codes "application-info"

abbrev pub instance_uid : Text
instance_uid = codes "instance-uid"

abbrev pub factory_reset : Text
factory_reset = codes "factory reset"

abbrev pub key_uid : Text
key_uid = codes "key-uid"

abbrev pub free_slots : Text
free_slots = codes "free-pairing-slots"

abbrev pub pin_retries : Text
pin_retries = codes "pin-retries"

abbrev pub puk_retries : Text
puk_retries = codes "puk-retries"

abbrev pub pairing_pass : Text
pairing_pass = codes "pairing-pass"

abbrev pub paired : Text
paired = codes "paired"

abbrev pub new_pairing : Text
new_pairing = codes "new-pairing-pass"

abbrev pub pin : Text
pin = codes "pin"

abbrev pub new_pin : Text
new_pin = codes "new-pin"

abbrev pub puk : Text
puk = codes "puk"

abbrev pub new_puk : Text
new_puk = codes "new-puk"

abbrev pub master_key : Text
master_key = codes "master-key"

abbrev pub master_addr : Text
master_addr = codes "master-key-address"

abbrev pub walle_root_key : Text
walle_root_key = codes "wallet-root-key"

abbrev pub wallet_key : Text
wallet_key = codes "wallet-key"

abbrev pub eip1581_key : Text
eip1581_key = codes "eip1581-key"

abbrev pub whisper_key : Text
whisper_key = codes "whisper-key"

abbrev pub enc_key : Text
enc_key = codes "encryption-key"

abbrev pub exported_key : Text
exported_key = codes "exported-key"

abbrev pub mnemonic : Text
mnemonic = codes "mnemonic"

abbrev pub mnemonic_len : Text
mnemonic_len = codes "mnemonic-length"

abbrev pub mnemonic_idxs : Text
mnemonic_idxs = codes "mnemonic-indexes"

abbrev pub tx_hash : Text
tx_hash = codes "tx-hash"

abbrev pub bip44_path : Text
bip44_path = codes "bip44-path"

abbrev pub tx_signature : Text
tx_signature = codes "tx-signature"

abbrev pub overwrite : Text
overwrite = codes "overwrite"

abbrev pub resolve_addr : Text
resolve_addr = codes "resolve-addresses"

abbrev pub export_master : Text
export_master = codes "export-master-address"

abbrev pub export_priv : Text
export_priv = codes "export-private"

abbrev pub card_meta : Text
card_meta = codes "card-metadata"

abbrev pub card_name : Text
card_name = codes "card-name"

abbrev pub wallet_paths : Text
wallet_paths = codes "wallet-paths"

abbrev pub skip_auth_uid : Text
skip_auth_uid = codes "skip-auth-uid"
