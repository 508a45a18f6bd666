-- ===== src/Mocked/Accounts.antt =====
-- pkg/flow/mocked: the handler that loads an account.
use status_keycard_go.Prelude.{
  ℕ, zero, suc, ◌-◌, Bool, false, ◌&&◌, ◌==◌, Option, none, some, List, [], ◌∷◌, if◌then◌else◌,
  Text, text_eq,
}
use status_keycard_go.Prelude.Int.{ℤ, pos, negsuc}
use status_keycard_go.Prelude.Dict.{insert}
use status_keycard_go.Internal.Errors.{Error}
use status_keycard_go.Flow.Authentication.{max_pin_retries, max_puk_retries}
use status_keycard_go.Flow.Values.{
  Value, text, int, float, indexes, swap_card, enter_new_pin, enter_mnemonic,
}
use status_keycard_go.Flow.Keys
use status_keycard_go.Flow.Messages
use status_keycard_go.Mocked.Cards.{is_blank, Keycard, blank_keycard, max_free_slots, def_mnemo_len}
use status_keycard_go.Mocked.Machine.{
  Host, M, pure, ◌>>=◌, ◌>>◌, inserted, put_inserted, helper, param, string_param, bool_param, ask,
  finish, rand_intn, store_pairing,
}
use status_keycard_go.Mocked.Credentials.{
  FlowStatus, with_error, with_slots, with_counters, identity, lacks_keys, is_pin, is_puk,
  swap_foreign,
}

-- The parameters of `handleLoadAccountFlow`.
pub record Account : Type 0 where
  pub factory_reset : Bool
  pub overwrite : Bool
  pub mnemonic_length : ℤ
  pub mnemonic : Text
  pub new_puk : Text
  pub pin : Text
  pub new_pin : Text

unfoldable pub mnemonic_length_of : Option Value → ℤ
mnemonic_length_of none = pos def_mnemo_len
mnemonic_length_of (some (int t)) = t
mnemonic_length_of (some (float t)) = t
mnemonic_length_of (some v) = pos def_mnemo_len

-- `len(strings.Split(s, " "))`
unfoldable pub words_of : Text → ℕ
words_of [] = 1
words_of (c ∷ s) = if c == b' ' then suc (words_of s) else words_of s

-- A length, which is not negative, against a number that may be.
unfoldable pub is_length : ℤ → ℕ → Bool
is_length (pos n) k = n == k
is_length (negsuc n) k = false

-- How often `for len(indexes) < n` runs.
unfoldable pub rounds_of : ℤ → ℕ
rounds_of (pos n) = n
rounds_of (negsuc n) = 0

-- The card with the instance and the pairing of its helper.
unfoldable pub named_as : Keycard → Keycard → Keycard
named_as h c = record c { instance_uid = h.instance_uid; pairing_info = h.pairing_info }

unfoldable pub loaded_with : Account → Keycard → Keycard → Keycard
loaded_with a h c = record c {
  instance_uid = h.instance_uid;
  pairing_info = h.pairing_info;
  key_uid = h.key_uid;
  pin = a.pin;
  puk = a.new_puk;
  pin_retries = max_pin_retries;
  puk_retries = max_puk_retries;
  free_pairing_slots = max_free_slots - 1;
}

module _ {W : Type 0} where
  unfoldable pub read_account : M W Account
  unfolding mnemonic_length_of
  read_account = do
    factory_reset ← bool_param Keys.factory_reset
    overwrite ← bool_param Keys.overwrite
    len ← param Keys.mnemonic_len
    mnemonic ← string_param Keys.mnemonic
    new_puk ← string_param Keys.new_puk
    pin ← string_param Keys.pin
    new_pin ← string_param Keys.new_pin
    pure (record {
      factory_reset = factory_reset;
      overwrite = overwrite;
      mnemonic_length = mnemonic_length_of len;
      mnemonic = mnemonic;
      new_puk = new_puk;
      pin = pin;
      new_pin = new_pin;
    })

module _ {W : Type 0} (host : Host W) where
  unfoldable pub draw : ℕ → M W (List ℕ)
  draw zero = pure []
  draw (suc n) = let rest = draw n in rand_intn host 2048 >>= λ i. rest >>= λ is. pure (i ∷ is)

  -- The answer when the card has been given its instance; an error of the pairings ends the handler.
  unfoldable pub offer_mnemonic : ℤ → FlowStatus → Keycard → Option Error → M W (Unit {0})
  unfolding draw rounds_of
  offer_mnemonic len status c (some e) = pure tt
  offer_mnemonic len status c none = do
    is ← draw (rounds_of len)
    ask enter_mnemonic (
        with_counters c (
          insert Keys.instance_uid (text c.instance_uid)
            (insert Keys.mnemonic_idxs (indexes is) (with_error Messages.error_loading status))))

  unfoldable pub prepare_card : Account → FlowStatus → M W (Unit {0})
  unfolding named_as offer_mnemonic
  prepare_card a status = do
    c ← inserted
    if is_blank c.instance_uid then (helper >>= λ h. put_inserted (named_as h c)) else pure tt
    c' ← inserted
    e ← store_pairing host c'.instance_uid c'.pairing_info
    offer_mnemonic a.mnemonic_length status c' e

  unfoldable pub account_loaded : FlowStatus → Keycard → Option Error → M W (Unit {0})
  account_loaded status c (some e) = pure tt
  account_loaded status c none =
      finish (
        insert Keys.key_uid (text c.key_uid)
          (insert Keys.instance_uid (text c.instance_uid) status))

  unfoldable pub load_card : Account → FlowStatus → M W (Unit {0})
  unfolding loaded_with account_loaded
  load_card a status = do
    h ← helper
    c ← inserted
    put_inserted (loaded_with a h c)
    c' ← inserted
    e ← store_pairing host c'.instance_uid c'.pairing_info
    account_loaded status c' e

  unfoldable pub require_init : FlowStatus → M W (Unit {0})
  require_init status = ask enter_new_pin (with_error Messages.error_require_init status)

  unfoldable pub load_with : Account → FlowStatus → M W (Unit {0})
  unfolding prepare_card load_card require_init is_length words_of
  load_with a status =
      if is_pin a.pin && text_eq a.pin a.new_pin && is_puk a.new_puk
      then (if a.overwrite && is_blank a.mnemonic
          then prepare_card a status
          else if is_length a.mnemonic_length (words_of a.mnemonic)
          then load_card a status
          else require_init status)
      else require_init status

  -- The rest of `handleLoadAccountFlow` behind the test of the card.
  unfoldable pub load_account_of : Keycard → M W (Unit {0})
  unfolding read_account load_with
  load_account_of c = do
    a ← read_account
    if a.factory_reset then put_inserted blank_keycard else pure tt
    c' ← inserted
    if lacks_keys c'
        then load_with a (identity c)
        else ask swap_card
            (with_slots c'.free_pairing_slots (with_error Messages.error_has_keys (identity c)))

  -- `handleLoadAccountFlow`
  unfoldable pub handle_load_account : M W (Unit {0})
  unfolding swap_foreign load_account_of
  handle_load_account = do
    c ← inserted
    if c.not_status_keycard then swap_foreign else load_account_of c
