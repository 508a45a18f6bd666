-- ===== src/Internal/Convert.antt =====
-- internal/utils.go: conversions of what the card library returns. The length of a byte slice is
-- below 2 ^ 31 and a byte is below 256, which Go's types say; here they are hypotheses.
pub mod Versions
use status_keycard_go.Prelude.{
  ℕ, ◌+◌, ◌*◌, ◌/◌, ◌%◌, ◌^◌, ◌++◌, Bool, false, true, Option, none, some, List, [], ◌∷◌, map, ltb,
  ◌==◌, if◌then◌else◌, Text, Bytes, codes, length, text_eq,
}
use status_keycard_go.Internal.Types.{
  CardSignature, Signature, CardInfo, CardStatus, CardMetadata, ApplicationInfo, ApplicationInfoV2,
  ApplicationStatus, Wallet, Metadata,
}

-- `binary.BigEndian.Uint32` of the four bytes that `copy(b[4-len(s):], s)` leaves; a longer slice
-- gives 0.
unfoldable pub bytes_to_int : Bytes → ℕ
bytes_to_int [] = 0
bytes_to_int (d ∷ []) = d
bytes_to_int (c ∷ d ∷ []) = c * 2 ^ 8 + d
bytes_to_int (b ∷ c ∷ d ∷ []) = b * 2 ^ 16 + c * 2 ^ 8 + d
bytes_to_int (a ∷ b ∷ c ∷ d ∷ []) = a * 2 ^ 24 + b * 2 ^ 16 + c * 2 ^ 8 + d
bytes_to_int (a ∷ b ∷ c ∷ d ∷ e ∷ s) = 0

unfoldable pub contains_string : Text → List Text → Bool
contains_string str [] = false
contains_string str (v ∷ s) = if text_eq v str then true else contains_string str s

-- `%d` of a byte
unfoldable pub print_byte : ℕ → Text
print_byte n =
    if ltb n 10
    then (b'0' + n) ∷ []
    else if ltb n 100
    then (b'0' + n / 10) ∷ (b'0' + n % 10) ∷ []
    else (b'0' + n / 100) ∷ (b'0' + n / 10 % 10) ∷ (b'0' + n % 10) ∷ []

unfoldable pub parse_version : Bytes → Text
unfolding print_byte
parse_version [] = []
parse_version (major ∷ minor ∷ []) = print_byte major ++ (codes "." ++ print_byte minor)
parse_version _ = codes "unexpected version format"

-- `ApplicationInfo{}`
abbrev pub zero_app_info : ApplicationInfo
zero_app_info = record {
  initialized = false;
  instance_uid = [];
  version = 0;
  available_slots = 0;
  key_uid = [];
}

unfoldable pub to_app_info : Option CardInfo → ApplicationInfo
to_app_info none = zero_app_info
to_app_info (some r) = record {
  initialized = r.initialized;
  instance_uid = r.instance_uid;
  version = bytes_to_int r.version;
  available_slots = bytes_to_int r.available_slots;
  key_uid = r.key_uid;
}

unfoldable pub to_app_info_v2 : Option CardInfo → Option ApplicationInfoV2
to_app_info_v2 none = none
to_app_info_v2 (some r) = some (record {
  installed = r.installed;
  initialized = r.initialized;
  instance_uid = r.instance_uid;
  version_raw = bytes_to_int r.version;
  version = parse_version r.version;
  available_slots = bytes_to_int r.available_slots;
  key_uid = r.key_uid;
})

unfoldable pub to_app_status : Option CardStatus → Option ApplicationStatus
to_app_status none = none
to_app_status (some r) = some (record {
  remaining_attempts_pin = r.pin_retry_count;
  remaining_attempts_puk = r.puk_retry_count;
  key_initialized = r.key_initialized;
  path = r.path;
})

-- A wallet's path is the common prefix m/44'/60'/0'/0 with the stored component behind it.
abbrev pub wallet_components : ℕ → List ℕ
wallet_components p = 0x8000002c ∷ 0x8000003c ∷ 0x80000000 ∷ 0 ∷ p ∷ []

-- `derivationpath.Encode` is the argument.
unfoldable pub to_metadata : (List ℕ → Text) → CardMetadata → Metadata
to_metadata encode r = record {
  name = r.name;
  wallets =
      map (λ p. record { path = encode (wallet_components p); address = []; public_key = none })
        r.paths;
}

unfoldable pub to_signature : CardSignature → Signature
to_signature x = record { r = x.r; s = x.s; v = x.v }
