-- ===== src/Tests/Mocks.antt =====
-- A mock with a card of two keys, its helper, and a new card, on a file system with one file.
use status_keycard_go.Prelude.{
  ℕ, ◌≡◌, ◌≢◌, inl, inr, ◌≤◌, map, refl, true, false, none, some, List, [], ◌∷◌, Text, codes, arith,
  text_eq, has_prefix,
}
use status_keycard_go.Prelude.Int.{ℤ, pos}
use status_keycard_go.Prelude.Dict.{Dict, lookup}
use status_keycard_go.Internal.Errors.{ok}
use status_keycard_go.Pairing.{save, new_store}
use status_keycard_go.Flow.Values.{Value, text, boolean, int, array}
use status_keycard_go.Flow.Keys
use status_keycard_go.Flow.Control.{idle, running}
use status_keycard_go.Mocked.Access.{Right, WrongPin}
use status_keycard_go.Mocked.Cards.{
  keycard_inserted, no_reader, empty_keycard, max_pin_retries_reached, Keycard, first_path,
  mocked_keycard, mocked_keycard_helper, blank_keycard,
}
use status_keycard_go.Mocked.Machine.{
  Heap, Cards, MockedFlow, Host, first_heap, done, string_param, bool_param, as_string, as_flag,
  param, pure, ◌>>=◌,
}
use status_keycard_go.Mocked.Credentials.{Entered, read_entered, lacks_keys}
use status_keycard_go.Mocked.Storing.{
  card_of, allocated, new_with, new_mocked_flow, cards_saved, store_registered, load_registered,
}
use status_keycard_go.Mocked.Running.{run_flow}
use status_keycard_go.Mocked.Control.{start, insert_keycard, register_keycard}
use status_keycard_go.Mocked.Accounts.{Account, words_of, read_account, handle_load_account}
use status_keycard_go.Mocked.Metadata.{handle_store_metadata}
use status_keycard_go.Mocked.Changes.{handle_change_pin}
use status_keycard_go.Mocked.Handlers.{handle_login, handle_recover_account}
use status_keycard_go.Mocked.Exports.{export_at}
use status_keycard_go.Mocked.Orders.{Reachable, opens, then_step, starts, inserts}
use status_keycard_go.Mocked.Safety.{Ends}
use status_keycard_go.Internal.Types.{KeyPair}
use status_keycard_go.Mocked.Runs.{Inv, run_flow-Ends}
use status_keycard_go.Mocked.Attempts.{Refusal, refuses, untouched, pin_guess, Guesses-bounded}
use status_keycard_go.Mocked.Answers.{Answers, login-Answers}
use status_keycard_go.Mocked.Unfinished.{Unending, change_pin-Unending}
use status_keycard_go.Mocked.Sharing.{MadeUp, register_keycard-MadeUp}
use status_keycard_go.Mocked.Wallets.{Given, store_metadata-Given}
use status_keycard_go.Mocked.Loading.{Loaded, Complete, load_account-Loaded}
use status_keycard_go.Mocked.Reading.{load_registered-store_registered}
use status_keycard_go.Tests.Files.{one_file, put}

-- The cards: one with keys at 0, its helper at 1, and a new one at 2.
abbrev three_cards : Heap
three_cards =
    allocated blank_keycard (allocated mocked_keycard_helper (allocated mocked_keycard first_heap))

-- The bytes of the cards stand for the pair of maps with the first card and its helper.
abbrev registered_cards : Cards ℕ
registered_cards = (pos 0, some 0) ∷ []

abbrev registered_helpers : Cards ℕ
registered_helpers = (pos 0, some 1) ∷ []

abbrev host : Host (List ℕ)
host = record {
  fs = one_file;
  rand_intn = λ n w. (0, w);
  marshal_cards = λ b. ok (7 ∷ []);
  unmarshal_cards = λ b. (
    (cards_saved three_cards registered_cards, cards_saved three_cards registered_helpers),
    none,
  );
  cards_path = λ dir. dir;
}

abbrev six : Text
six = codes "111111"

-- A flow that runs, with the card at an address and the helper, and with parameters.
abbrev mock : ℕ → Dict Value → MockedFlow (List ℕ)
mock p params = record {
  flow_type = 3;
  state = running;
  params = some params;
  pairings = record { path = codes "p"; values = some [] };
  store_file_path = codes "p";
  initial_reader_state = keycard_inserted;
  current_reader_state = keycard_inserted;
  registered_keycards = registered_cards;
  registered_keycard_helpers = registered_helpers;
  inserted_keycard = some p;
  inserted_keycard_helper = some 1;
  heap = three_cards;
  signals = [];
  runs = 0;
  world = [];
}

abbrev first_mock : MockedFlow (List ℕ)
first_mock = record (mock 0 []) {
  flow_type = 0;
  state = idle;
  params = none;
  pairings = record { path = codes "p"; values = some [] };
  initial_reader_state = no_reader;
  current_reader_state = no_reader;
  inserted_keycard = none;
  inserted_keycard_helper = none;
  world = put (some []);
  heap =
      (load_registered host (
        new_with host (codes "p") (record { path = codes "p"; values = some [] }) first_heap
          (put (some [])))).1.heap;
}

first_mock-Reachable : Reachable host first_mock
unfolding new_mocked_flow load_registered new_store cards_saved mocked_keycard mocked_keycard_helper
first_mock-Reachable = opens (codes "p") first_heap (put (some [])) refl refl

-- The flow of the login, on the first card.
abbrev started_mock : MockedFlow (List ℕ)
started_mock = (start 3 none (insert_keycard (pos 0) first_mock).1).1

run_flow-Ends_example : Ends Inv (run_flow host started_mock)
run_flow-Ends_example =
    run_flow-Ends host
      (then_step (then_step first_mock-Reachable (inserts (pos 0))) (starts 3 none))

abbrev wrong_entry : Entered
wrong_entry = record { pin = codes "222222"; new_pin = []; puk = [] }

wrong_entry-WrongPin : WrongPin wrong_entry mocked_keycard
unfolding mocked_keycard
wrong_entry-WrongPin = record {
  puk_left = omega arith;
  left = omega arith;
  alone = refl;
  long = refl;
  wrong = ground arith;
}

wrong_entry-Wrong : ¬ Right wrong_entry mocked_keycard
unfolding mocked_keycard
wrong_entry-Wrong (inl r) = ground (arith, r.equal)
wrong_entry-Wrong (inr r) = ground (arith, r.left, r.blocked)

mocked_status : mocked_keycard.not_status_keycard ≡ false
unfolding mocked_keycard
mocked_status = refl

mocked_keys : lacks_keys mocked_keycard ≡ false
unfolding mocked_keycard
mocked_keys = refl

abbrev wrong_mock : MockedFlow (List ℕ)
wrong_mock = mock 0 ((Keys.pin, text (codes "222222")) ∷ [])

wrongly_entered : read_entered wrong_mock ≡ done wrong_entry wrong_mock
unfolding read_entered string_param as_string param pure ◌>>=◌ lookup text_eq
wrongly_entered = refl

abbrev wrong_login : (d : Keycard) × Refusal (List ℕ) 0 wrong_entry mocked_keycard d
wrong_login =
    refuses wrong_mock wrong_entry 0 1 wrongly_entered refl refl mocked_status mocked_keys
      wrong_entry-Wrong

Guesses-bounded_example :
    (1 ≤ mocked_keycard.pin_retries)
    × (0 ≤ mocked_keycard.puk_retries)
    × (1 ≡ mocked_keycard.pin_retries
        → 0 ≡ mocked_keycard.puk_retries
        → (e : Entered) → ¬ Right e wrong_login.0)
Guesses-bounded_example =
    Guesses-bounded (pin_guess wrong_entry untouched wrong_login.1 wrong_entry-WrongPin)

abbrev entry : Entered
entry = record { pin = six; new_pin = six; puk = [] }

abbrev entered_mock : ℕ → MockedFlow (List ℕ)
entered_mock p =
    mock p ((Keys.pin, text six) ∷ (Keys.new_pin, text six) ∷ (Keys.overwrite, boolean true) ∷ [])

entered : read_entered (entered_mock 0) ≡ done entry (entered_mock 0)
unfolding read_entered string_param as_string param pure ◌>>=◌ lookup text_eq
entered = refl

overwritten : bool_param Keys.overwrite (entered_mock 0) ≡ done true (entered_mock 0)
unfolding bool_param as_flag param pure ◌>>=◌ lookup text_eq
overwritten = refl

login-Answers_example :
    Answers entry 0 (entered_mock 0) (handle_login (entered_mock 0))
    × Answers entry 0 (entered_mock 0) (handle_recover_account (entered_mock 0))
unfolding mocked_keycard
login-Answers_example = login-Answers (entered_mock 0) entry 0 1 entered refl refl refl refl

change_pin-Unending_example : Unending entry 0 (entered_mock 0) (handle_change_pin (entered_mock 0))
unfolding mocked_keycard
change_pin-Unending_example =
    change_pin-Unending (entered_mock 0) entry 0 entered overwritten refl refl refl (omega arith)
      refl refl (ground arith)

abbrev first_registered : MockedFlow (List ℕ)
first_registered = (register_keycard host (pos 1) no_reader empty_keycard none none first_mock).1

abbrev both_registered : MockedFlow (List ℕ)
both_registered =
    (register_keycard host (pos 2) no_reader max_pin_retries_reached none none first_registered).1

register_keycard-MadeUp_example :
    (a : ℕ) × (b : ℕ) × (a ≢ b)
    × (first_registered.inserted_keycard_helper ≡ some a)
    × (both_registered.inserted_keycard_helper ≡ some b)
    × ((n n' : ℕ) (path : Text)
        → (k : KeyPair) × (t : MockedFlow (List ℕ)) × (export_at n false path
              (record both_registered { inserted_keycard_helper = some a })
            ≡ done k t)
          × MadeUp b n' path t)
register_keycard-MadeUp_example =
    register_keycard-MadeUp host (pos 1) (pos 2) no_reader no_reader empty_keycard
      max_pin_retries_reached first_mock (λ e. cc e) (λ e. cc e)

abbrev one_path : List Text
one_path = first_path ∷ []

abbrev named_mock : MockedFlow (List ℕ)
named_mock = mock 0 (
    (Keys.pin, text six)
    ∷ (Keys.card_name, text (codes "n"))
    ∷ (Keys.wallet_paths, array (map some one_path))
    ∷ [])

store_metadata-Given_example :
    Given 0 (codes "n") one_path named_mock (handle_store_metadata named_mock)
unfolding mocked_keycard string_param as_string param pure ◌>>=◌ lookup text_eq has_prefix
store_metadata-Given_example =
    store_metadata-Given named_mock 0 1 six (codes "n") one_path refl refl (omega arith) refl refl
      refl refl refl (ground arith) refl (refl, tt)

abbrev account : Account
account = record {
  pin = six;
  new_pin = six;
  new_puk = codes "222222222222";
  mnemonic = codes "a";
  overwrite = false;
  factory_reset = false;
  mnemonic_length = pos 1;
}

abbrev account_mock : MockedFlow (List ℕ)
account_mock = mock 2 (
    (Keys.pin, text six)
    ∷ (Keys.new_pin, text six)
    ∷ (Keys.new_puk, text (codes "222222222222"))
    ∷ (Keys.mnemonic, text (codes "a"))
    ∷ (Keys.mnemonic_len, int (pos 1))
    ∷ [])

account_read : read_account account_mock ≡ done account account_mock
unfolding read_account bool_param string_param param pure ◌>>=◌ lookup text_eq
account_read = refl

account-Complete : Complete account
unfolding words_of
account-Complete = record {
  kept = refl;
  long = refl;
  twice = refl;
  puk_long = refl;
  given = ground arith;
  words = refl;
}

load_account-Loaded_example :
    Loaded account 2 1 account_mock (handle_load_account host account_mock)
unfolding save
load_account-Loaded_example =
    load_account-Loaded host account_mock account 2 1 [] refl refl refl refl account_read
      account-Complete refl refl

-- A new mock with the file of the first.
abbrev reading_mock : MockedFlow (List ℕ)
reading_mock = record (store_registered host (mock 0 [])).1 {
  registered_keycards = [];
  registered_keycard_helpers = [];
}

load_registered-store_registered_example :
    ((load_registered host reading_mock).0 ≡ none)
    × ((i : ℤ)
        → card_of i (
            cards_saved
              (load_registered host reading_mock).1.heap
              (load_registered host reading_mock).1.registered_keycards)
          ≡ card_of i (cards_saved three_cards registered_cards))
    × ((i : ℤ)
        → card_of i (
            cards_saved
              (load_registered host reading_mock).1.heap
              (load_registered host reading_mock).1.registered_keycard_helpers)
          ≡ card_of i (cards_saved three_cards registered_helpers))
unfolding store_registered
load_registered-store_registered_example =
    load_registered-store_registered host (mock 0 []) reading_mock (λ x e. refl)
      (λ path b w e. refl) refl refl refl refl refl
