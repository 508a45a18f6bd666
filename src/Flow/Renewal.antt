-- ===== src/Flow/Renewal.antt =====
-- The initialization of a card within a flow: what the flow knows when it starts again.
use status_keycard_go.Prelude.{◌≡◌, refl, Option, none, some, Text, text_eq, text_eq_refl}
use status_keycard_go.Prelude.Dict.{Dict, lookup, insert, erase, lookup-insert, lookup-erase}
use status_keycard_go.Card.{Card}
use status_keycard_go.Flow.Values.{Value, text}
use status_keycard_go.Flow.Session.{
  Fault, Session, fault, found, ask, repeat, ◌>>=◌, call, param, set_param, delete_param, as_text,
  fail, pure,
}
use status_keycard_go.Flow.Opening.{
  init_card, with_new_pin, with_new_puk, init_with, or_default, check_error,
}
use status_keycard_go.Flow.Keys

renewed : Value → Value → Dict Value → Dict Value
renewed pin pairing m = erase Keys.new_pairing (
    erase Keys.new_puk
      (erase Keys.new_pin (insert Keys.pairing_pass pairing (insert Keys.pin pin m))))

erased : (k : Text) (m : Dict Value) → lookup k (erase k m) ≡ none
erased k m = simp (lookup-erase, text_eq_refl)

-- The secrets that the rest of the flow needs are there, and the new ones are gone.
pub record Renewed (pin pairing : Text) (m : Option (Dict Value)) : Type 0 where
  pub has_pin : found Keys.pin m ≡ some (text pin)
  pub has_pairing : found Keys.pairing_pass m ≡ some (text pairing)
  pub no_new_pin : found Keys.new_pin m ≡ none
  pub no_new_puk : found Keys.new_puk m ≡ none
  pub no_new_pairing : found Keys.new_pairing m ≡ none

renewed-Renewed :
    (pin pairing : Text) (m : Dict Value)
    → Renewed pin pairing (some (renewed (text pin) (text pairing) m))
unfolding renewed text_eq
renewed-Renewed pin pairing m = record {
  has_pin = simp (lookup-erase, lookup-insert);
  has_pairing = simp (lookup-erase, lookup-insert);
  no_new_pin = simp lookup-erase;
  no_new_puk = simp lookup-erase;
  no_new_pairing = erased _ _;
}

module _ {W : Type 0} (card : Card W) where
  -- If the user has given a new PIN, a new PUK and, unless the default is meant, a pairing password,
  -- and the card accepts the initialization with them, then initCard restarts the flow with the new
  -- PIN and the pairing password as the parameters that it uses from then on, and without the three
  -- new secrets.
  pub init_card-Renewed :
      (s : Session W) (m : Dict Value) (pin puk pairing : Text) (w : W)
      → s.flow.params ≡ some m
      → lookup Keys.new_pin m ≡ some (text pin)
      → lookup Keys.new_puk m ≡ some (text puk)
      → or_default (lookup Keys.new_pairing m) ≡ text pairing
      → card.init pin puk pairing s.world ≡ (none, w)
      → (t : Session W) × (init_card card s ≡ fault Fault.restart t)
        × (t.world ≡ w)
        × Renewed pin pairing t.flow.params
  unfolding init_card ask repeat ◌>>=◌ param with_new_pin with_new_puk init_with call check_error
      set_param delete_param fail as_text pure renewed
  init_card-Renewed s m pin puk pairing w e h k l i = (
    record s {
      world = w;
      flow = record s.flow { params = some (renewed (text pin) (text pairing) m) };
    },
    rw (e, h, k, l, i) refl,
    refl,
    renewed-Renewed pin pairing m,
  )
