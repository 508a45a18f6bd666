-- ===== src/Tests/World.antt =====
-- A card whose world is the PIN that it holds, a desk with that card, and sessions with it.
use status_keycard_go.Prelude.{
  ℕ, refl, true, false, none, some, if◌then◌else◌, Text, text_eq, [], ◌∷◌, codes, Bytes,
}
use status_keycard_go.Internal.Errors.{foreign, scard, wrong_pin, ok, err}
use status_keycard_go.Internal.Types.{CardInfo, CardStatus, ApplicationInfoV2, ApplicationStatus}
use status_keycard_go.Internal.Status.{State}
use status_keycard_go.Pairing.{Info, Store, FileSystem, contents, parsed}
use status_keycard_go.Card.{Card}
use status_keycard_go.Context.Machine.{Context, made}
use status_keycard_go.Context.Logic.{Inv}

abbrev pub uid : Bytes
uid = 0xca ∷ 0xfe ∷ []

abbrev pub pin : Text
pin = codes "123456"

abbrev pub applet : CardInfo
applet = record {
  installed = true;
  initialized = true;
  instance_uid = uid;
  version = 3 ∷ 1 ∷ [];
  available_slots = 4 ∷ [];
  key_uid = 7 ∷ [];
  can_factory_reset = true;
}

abbrev pub card_status : CardStatus
card_status = record {
  pin_retry_count = 3;
  puk_retry_count = 5;
  key_initialized = true;
  path = codes "m";
}

abbrev pub small_card : Card Text
small_card = record {
  establish = λ w. (none, w);
  cancel = λ w. (none, w);
  list_readers = λ w. ((codes "reader" ∷ [], none), w);
  get_status_change = λ rs w. ((rs, none), w);
  connect = λ _ w. (none, w);
  disconnect = λ w. (none, w);
  select = λ w. ((some applet, none), w);
  init = λ p _ _ w. (none, p);
  pair = λ _ w. (ok (record { key = 9 ∷ []; index = 1 }), w);
  open_secure_channel = λ _ _ w. (none, w);
  get_status_application = λ w. ((some card_status, none), w);
  verify_pin = λ p w. (if text_eq p w then none else some (foreign (wrong_pin 2) []), w);
  change_pin = λ p w. (none, p);
  change_puk = λ _ w. (none, w);
  unblock_pin = λ _ p w. (none, p);
  generate_mnemonic = λ _ w. ((1 ∷ 2 ∷ [], none), w);
  load_seed = λ _ w. (ok (7 ∷ []), w);
  get_data = λ w. (ok [], w);
  store_data = λ _ w. (none, w);
  export_key_extended =
      λ _ _ _ _ w. (ok (record { pub_key = some (4 ∷ []); priv_key = []; chain_code = [] }), w);
  factory_reset = λ w. (none, []);
  identify = λ w. (ok (0xca ∷ []), w);
  generate_key = λ w. (ok (7 ∷ []), w);
  remove_key = λ w. (none, w);
  derive_key = λ _ w. (none, w);
  sign_with_path = λ d _ w. (ok (record { r = d; s = []; v = 0 }), w);
  unpair = λ _ w. (none, w);
  change_pairing_secret = λ _ w. (none, w);
  card_status = λ w. (none, w);
  release = λ w. (none, w);
  isd_select = λ w. (none, w);
  isd_open_secure_channel = λ w. (none, w);
  delete_object = λ _ w. (none, w);
  install_keycard_applet = λ w. (none, w);
  instance_aid = ok (0xa0 ∷ []);
  binary_seed = λ m _. m;
  parse_metadata = λ _. ok (record { name = codes "card"; paths = 0 ∷ 2 ∷ [] });
  new_metadata = λ n ps. ok (record { name = n; paths = ps });
  serialize = λ m. m.paths;
  encode_path = λ _. codes "m";
  decode_path = λ _. ok (44 ∷ 60 ∷ 0 ∷ 0 ∷ 2 ∷ []);
  address_of = λ _. ok (codes "0x1");
}

abbrev pub code : ℕ
code = 0x80100069

-- The same card, taken away before its metadata is read.
abbrev pub removed_card : Card Text
removed_card = record small_card { get_data = λ w. (err (foreign (scard code) []), w) }

abbrev pub app_info : ApplicationInfoV2
app_info = record {
  installed = true;
  initialized = true;
  instance_uid = uid;
  version_raw = 0x0301;
  version = codes "3.1";
  available_slots = 4;
  key_uid = 7 ∷ [];
}

abbrev pub app_status : ApplicationStatus
app_status = record {
  remaining_attempts_pin = 3;
  remaining_attempts_puk = 5;
  key_initialized = true;
  path = codes "m";
}

abbrev pub pair_info : Info
pair_info = record { key = 9 ∷ []; index = 1 }

abbrev pub known_pairings : Store
known_pairings = record { path = codes "p"; values = some ((codes "cafe", some pair_info) ∷ []) }

abbrev pub session : State → Context Text
session s = record {
  world = pin;
  status = record {
    state = s;
    app_info = some app_info;
    app_status = some app_status;
    metadata = none;
  };
  signals = [];
  pairings = known_pairings;
  simulated_error = none;
  has_context = true;
  has_card = true;
  connected = true;
  channel = made;
  watching = true;
  locked = false;
  running = true;
}

pub session-Inv : (s : State) → Inv false (session s)
session-Inv s = record {
  mutex = refl;
  heard = λ _. (refl, refl);
  usable = λ e. cc e;
  informed = λ _. refl;
  reported = λ _. refl;
}

-- The detection has chosen the card, and nobody watches its reader yet.
abbrev pub connecting : Context Text
connecting = record (session State.connecting_card) { watching = false }

abbrev pub no_files : FileSystem Text
no_files = record {
  read_file = λ _ _. contents [];
  mkdir_all = λ _ w. (none, w);
  write_file = λ _ _ w. (none, w);
  marshal = λ _. [];
  unmarshal = λ _. parsed (some []);
}
