-- ===== src/Tests/Runs.antt =====
-- Flows run on a small card, and the theorems on them there.
use status_keycard_go.Prelude.{
  ◌≡◌, ◌≢◌, refl, Bool, true, false, Option, none, some, [], ◌∷◌, map, Text, text_eq, codes,
}
use status_keycard_go.Prelude.Int.{pos}
use status_keycard_go.Prelude.Dict.{lookup}
use status_keycard_go.Internal.Errors.{Error, foreign, wrong_pin}
use status_keycard_go.Internal.Readers.{ReaderState}
use status_keycard_go.Pairing.{to_pair_info, get, store, save}
use status_keycard_go.Card.{Card}
use status_keycard_go.Keycard.Life.{connected, panicked}
use status_keycard_go.Keycard.Life
use status_keycard_go.Keycard.Waiting.{run_in_range, length-map}
use status_keycard_go.Flow.Values.{text}
use status_keycard_go.Flow.Control.{running, working, connecting, cancelling, returned, cancel}
use status_keycard_go.Flow.Session.{
  Fault, Session, resumed, value, fault, timer_fired, plugged, cancelled_there,
}
use status_keycard_go.Flow.Session.Rules.{Holds}
use status_keycard_go.Flow.Opening.{init_card, pair_card}
use status_keycard_go.Flow.Authentication.{authenticate, open_and_authenticate}
use status_keycard_go.Flow.Changes.{change_pin_flow, change_puk_flow, change_pairing_flow}
use status_keycard_go.Flow.Exports.{export_bip44_key, load_keys, sign}
use status_keycard_go.Flow.Metadata.{store_metadata_flow}
use status_keycard_go.Flow.Run.{with_card, connect_loop}
use status_keycard_go.Flow.Refinement.{Stepped, with_card-Steps}
use status_keycard_go.Flow.Termination.{questions_end}
use status_keycard_go.Flow.Termination.Answers.{Ends, AtMost}
use status_keycard_go.Flow.Access.{Opens, Passed, open_and_authenticate-Passed}
use status_keycard_go.Flow.Blocked.{Stuck, authenticate-Stuck}
use status_keycard_go.Flow.Connecting.{Announced, connect-Announced, connect-Uncancelled}
use status_keycard_go.Flow.Renewal.{Renewed, init_card-Renewed}
use status_keycard_go.Flow.Paired.{pair_card-Stored}
use status_keycard_go.Flow.Keys
use status_keycard_go.Tests.World.{pin, small_card, no_files, known_pairings, applet}

-- The login flow (type 3) of a known card. The user gives a wrong PIN first, and then the right one.
abbrev login : Session Text
login = record {
  world = pin;
  flow = record {
    flow_type = 3;
    state = running;
    params = some [];
    position = working;
    signals = [];
  };
  card_info = record {
    instance_uid = codes "cafe";
    key_uid = codes "07";
    free_slots = pos 4;
    pin_retries = pos 3;
    puk_retries = pos 5;
    version = 0x0301;
  };
  pairings = known_pairings;
  known_ca = [];
  app_info = some applet;
  paired_at = none;
  answers =
      resumed ((Keys.pin, text (codes "000000")) ∷ [])
      ∷ resumed ((Keys.pin, text (codes "123456")) ∷ [])
      ∷ [];
  arrivals = [];
}

with_card-Steps_example :
    Holds (Stepped login.flow) (Stepped login.flow) (with_card small_card no_files 2 login)
with_card-Steps_example = with_card-Steps small_card no_files 2 login refl

questions_end_example :
    Ends (AtMost 2) (authenticate small_card login)
    × Ends (AtMost 2) (init_card small_card login)
    × Ends (AtMost 2) (pair_card small_card no_files login)
    × Ends (AtMost 2) (change_pin_flow small_card login)
    × Ends (AtMost 2) (change_puk_flow small_card login)
    × Ends (AtMost 2) (change_pairing_flow small_card login)
    × Ends (AtMost 2) (export_bip44_key small_card login)
    × Ends (AtMost 2) (load_keys small_card login)
    × Ends (AtMost 2) (sign small_card login)
    × Ends (AtMost 2) (store_metadata_flow small_card login)
questions_end_example = questions_end small_card no_files login

-- A card that notes that it was opened.
abbrev opened : Text
opened = codes "opened"

abbrev tried : Bool → Text → Option Error × Text
tried true w = (none, opened)
tried false w = (some (foreign (wrong_pin 2) []), w)

abbrev guarded : Card Text
guarded = record small_card {
  verify_pin = λ p w. tried (text_eq p pin) w;
  unblock_pin = λ _ _ w. (none, opened);
}

Opened : Text → Type 0
Opened w = w ≡ opened

guarded-Opens : Opens guarded Opened
unfolding Opened
guarded-Opens = record { by_pin = λ p w h. by_test w (text_eq p pin) h; by_puk = λ puk p w h. refl }
  where
    by_test : (w : Text) (b : Bool) → (tried b w).0 ≡ none → (tried b w).1 ≡ opened
    by_test w true h = refl
    by_test w false h = cc h

open_and_authenticate-Passed_example :
    Passed Opened (open_and_authenticate guarded no_files 2 false login)
open_and_authenticate-Passed_example =
    open_and_authenticate-Passed guarded Opened guarded-Opens no_files 2 false login

abbrev blocked_login : Session Text
blocked_login = record login {
  card_info = record login.card_info { pin_retries = pos 0; puk_retries = pos 0 };
}

authenticate-Stuck_example : Stuck pin (authenticate small_card blocked_login)
authenticate-Stuck_example = authenticate-Stuck small_card blocked_login refl refl

abbrev waiting_login : Session Text
waiting_login = record login { flow = record login.flow { position = connecting } }

-- A card that is in every reader.
abbrev present_card : Card Text
present_card = record small_card {
  get_status_change =
      λ rs w. ((map (λ (r : ReaderState). record r { event_state = 0x20 }) rs, none), w);
}

connect-Announced_example : Announced [] (
    connect_loop present_card 3
      (codes "reader" ∷ [])
      (timer_fired ∷ plugged ∷ [])
      true
      waiting_login)
connect-Announced_example =
    connect-Announced present_card 3 (codes "reader" ∷ []) (timer_fired ∷ plugged ∷ [])
      waiting_login (λ q. cc q)

connect-Uncancelled_example :
    (cancel waiting_login.flow ≡ returned none (record waiting_login.flow { state = cancelling }))
    × ((t : Session Text) × (connect_loop present_card 3
            (codes "reader" ∷ [])
            (cancelled_there ∷ timer_fired ∷ plugged ∷ [])
            true
            waiting_login
          ≡ value tt t)
        × (t.flow.state ≡ running))
unfolding Life.run Life.connect Life.wait_for_card Life.wait_rounds Life.present_from
connect-Uncancelled_example =
    connect-Uncancelled present_card 3 (codes "reader" ∷ []) [] waiting_login refl refl

run_in_range_example : (Life.run present_card 3 (codes "reader" ∷ []) pin).0 ≢ panicked
run_in_range_example =
    run_in_range present_card (λ rs w. length-map _ rs) 3 (codes "reader" ∷ []) pin

-- A new card, whose PIN and PUK the user has chosen, and whose pairing password is the default.
abbrev new_login : Session Text
new_login = record login {
  flow = record login.flow {
    params =
        some (
          (Keys.new_pin, text (codes "654321")) ∷ (Keys.new_puk, text (codes "123456123456")) ∷ []);
  };
}

init_card-Renewed_example :
    (t : Session Text) × (init_card small_card new_login ≡ fault Fault.restart t)
    × (t.world ≡ codes "654321")
    × Renewed (codes "654321") (codes "KeycardDefaultPairing") t.flow.params
unfolding lookup text_eq
init_card-Renewed_example =
    init_card-Renewed small_card new_login _ (codes "654321") (codes "123456123456")
      (codes "KeycardDefaultPairing") (codes "654321") refl refl refl refl refl

pair_card-Stored_example :
    (t : Session Text) × (pair_card small_card no_files login ≡ value tt t)
    × (t.world ≡ pin)
    × (t.paired_at ≡ some 1)
    × (get (codes "cafe") t.pairings ≡ some (to_pair_info (record { key = 9 ∷ []; index = 1 })))
unfolding store save lookup
pair_card-Stored_example =
    pair_card-Stored small_card no_files login (codes "KeycardDefaultPairing")
      (record { key = 9 ∷ []; index = 1 }) pin pin _ refl refl refl refl
