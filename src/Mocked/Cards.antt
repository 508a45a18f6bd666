-- ===== src/Mocked/Cards.antt =====
-- pkg/flow/mocked/mocked_types.go: the cards of the mock. The numbers of a card are natural, so a
-- custom card with a negative number of attempts or slots is outside of the model.
use status_keycard_go.Prelude.{
  ℕ, zero, suc, ◌+◌, ◌-◌, ◌/◌, ◌%◌, ◌++◌, Bool, true, false, Option, none, some, [], ◌∷◌,
  if◌then◌else◌, ltb, length, Text, codes,
}
use status_keycard_go.Prelude.Dict.{Dict}
use status_keycard_go.Internal.Types.{KeyPair, Metadata}
use status_keycard_go.Pairing.{Info}
use status_keycard_go.Flow.Authentication.{max_pin_retries, max_puk_retries}

-- `MockedReaderState`; `unknown` is any other number.
pub data ReaderState : Type 0 where
  no_reader no_keycard keycard_inserted unknown : ReaderState

-- `MockedKeycardState`; `custom` is any other number.
pub data KeycardState : Type 0 where
  not_status_keycard empty_keycard max_pairing_slots_reached : KeycardState
  max_pin_retries_reached max_puk_retries_reached keycard_with_mnemonic_only : KeycardState
  keycard_with_mnemonic_and_metadata custom : KeycardState

-- `MockedKeycard`. `M` is what stands for its map of keys: a reference, or the map itself where
-- the card is stored; the nil map is `none`.
pub record MockedKeycard (M : Type 0) : Type 0 where
  pub pairing_info : Option Info
  pub not_status_keycard : Bool
  pub instance_uid : Text
  pub key_uid : Text
  pub free_pairing_slots : ℕ
  pub pin_retries : ℕ
  pub puk_retries : ℕ
  pub pin : Text
  pub puk : Text
  pub metadata : Metadata
  pub master_key_address : Text
  pub exported_key : Option M

-- A card in memory, with the address of its map.
abbrev pub Keycard : Type 0
Keycard = MockedKeycard ℕ

-- A card in a file.
abbrev pub Stored : Type 0
Stored = MockedKeycard (Dict KeyPair)

abbrev pub max_free_slots : ℕ
max_free_slots = 5

abbrev pub def_mnemo_len : ℕ
def_mnemo_len = 12

abbrev pub def_pin_len : ℕ
def_pin_len = 6

abbrev pub def_puk_len : ℕ
def_puk_len = 12

-- `s == ""`
abbrev pub is_blank : Text → Bool
is_blank [] = true
is_blank (_ ∷ _) = false

-- `strings.Repeat("0", n)`
unfoldable pub zeros : ℕ → Text
zeros zero = []
zeros (suc n) = b'0' ∷ zeros n

-- `strings.Repeat("0", n-len(s)) + s`, where the length of s is at most n.
unfoldable pub padded : ℕ → Text → Text
unfolding zeros
padded n s = zeros (n - length s) ++ s

-- `strconv.Itoa` of a number that is not negative: as many rounds as the number are enough.
unfoldable pub digits_of : ℕ → ℕ → Text → Text
digits_of zero n acc = acc
digits_of (suc rounds) n acc =
    let more = digits_of rounds (n / 10) ((b'0' + n % 10) ∷ acc) in
    if ltb n 10 then (b'0' + n) ∷ acc else more

unfoldable pub itoa : ℕ → Text
unfolding digits_of
itoa n = digits_of (suc n) n []

-- "0x" and the digits of a number, in 40 places.
unfoldable pub address_of : ℕ → Text
unfolding padded itoa
address_of n = codes "0x" ++ padded 40 (itoa n)

abbrev pub no_metadata : Metadata
no_metadata = record { name = []; wallets = [] }

-- `MockedKeycard{}`
abbrev pub blank_keycard : {M : Type 0} → MockedKeycard M
blank_keycard = record {
  pairing_info = none;
  not_status_keycard = false;
  instance_uid = [];
  key_uid = [];
  free_pairing_slots = 0;
  pin_retries = 0;
  puk_retries = 0;
  pin = [];
  puk = [];
  metadata = no_metadata;
  master_key_address = [];
  exported_key = none;
}

-- `KeyPair{}`
abbrev pub no_keys : KeyPair
no_keys = record { address = []; public_key = none; private_key = []; chain_code = [] }

abbrev pub first_path : Text
first_path = codes "m/44'/60'/0'/0/0"

abbrev pub second_path : Text
second_path = codes "m/44'/60'/0'/0/1"

-- The variable `mockedKeycard`.
unfoldable pub mocked_keycard : Keycard
unfolding address_of
mocked_keycard = record {
  pairing_info = some (record { key = padded 64 (codes "1111111111"); index = 0 });
  not_status_keycard = false;
  instance_uid = padded 32 (codes "1234567890");
  key_uid = padded 64 (codes "1234567890");
  free_pairing_slots = max_free_slots - 1;
  pin_retries = max_pin_retries;
  puk_retries = max_puk_retries;
  pin = codes "111111";
  puk = codes "111111111111";
  metadata = record {
    name = codes "Card-1 Name";
    wallets =
        record {
          path = first_path;
          address = address_of 1;
          public_key = some (padded 130 (itoa 1));
        }
        ∷ record {
          path = second_path;
          address = address_of 2;
          public_key = some (padded 130 (itoa 2));
        }
        ∷ [];
  };
  master_key_address = [];
  exported_key = none;
}

-- The address of the map of `mockedKeycardHelper`, which each copy of that variable shares.
abbrev pub helper_map : ℕ
helper_map = 0

-- The variable `mockedKeycardHelper`.
unfoldable pub mocked_keycard_helper : Keycard
unfolding mocked_keycard
mocked_keycard_helper = record mocked_keycard {
  master_key_address = address_of 100;
  exported_key = some helper_map;
}

-- What stands in that map at the start of the program.
unfoldable pub helper_keys : Dict KeyPair
unfolding address_of
helper_keys =
    (
      first_path,
      record {
        address = address_of 1;
        public_key = some (padded 130 (itoa 1));
        private_key = padded 64 (itoa 1);
        chain_code = [];
      },
    )
    ∷ (
      second_path,
      record {
        address = address_of 2;
        public_key = some (padded 130 (itoa 2));
        private_key = padded 64 (itoa 2);
        chain_code = [];
      },
    )
    ∷ []
