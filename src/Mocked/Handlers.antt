-- ===== src/Mocked/Handlers.antt =====
-- pkg/flow/mocked: the handlers of the flows that read the card, log in or recover an account.
use status_keycard_go.Prelude.{false, not, ◌&&◌, ◌||◌, [], ◌∷◌, if◌then◌else◌, text_eq}
use status_keycard_go.Prelude.Dict.{insert}
use status_keycard_go.Internal.Types.{ApplicationInfo}
use status_keycard_go.Internal.Convert.{zero_app_info}
use status_keycard_go.Context.Data.{wallet_root_path}
use status_keycard_go.Context.Export.{
  master_path, wallet_path, eip1581_path, whisper_path, encryption_path,
}
use status_keycard_go.Flow.Values.{text, boolean, key, app_info, enter_pin}
use status_keycard_go.Flow.Keys
use status_keycard_go.Flow.Messages
use status_keycard_go.Mocked.Cards.{Keycard, blank_keycard}
use status_keycard_go.Mocked.Machine.{
  M, pure, ◌>>=◌, ◌>>◌, inserted, put_inserted, helper, string_param, bool_param, ask, finish,
  exported,
}
use status_keycard_go.Mocked.Credentials.{
  FlowStatus, number, with_error, with_slots, identity, lacks_keys, is_pin, Entered, Tried, renewed,
  with_tried_error, swap_foreign, swap_empty, authenticated,
}

abbrev pub paired_info : Keycard → ApplicationInfo
paired_info c = record {
  initialized = not (lacks_keys c);
  instance_uid = c.instance_uid;
  version = 123;
  available_slots = c.free_pairing_slots;
  key_uid = c.key_uid;
}

module _ {W : Type 0} where
  -- The rest of `handleGetAppInfoFlow` behind the tests of the card.
  unfoldable pub app_info_of : Keycard → FlowStatus → M W (Unit {0})
  app_info_of c status = do
    entered_pin ← string_param Keys.pin
    factory_reset ← bool_param Keys.factory_reset
    if factory_reset
        then (put_inserted blank_keycard
            >> finish (
                (Keys.error, text Messages.error_ok)
                ∷ (Keys.paired, boolean false)
                ∷ (Keys.app_info, app_info zero_app_info)
                ∷ []))
        else if (is_pin entered_pin && text_eq entered_pin c.pin) || lacks_keys c
        then finish (
            insert Keys.app_info (app_info (paired_info c)) (
              insert Keys.paired (boolean (not (lacks_keys c)))
                (with_error Messages.error_ok status)))
        else ask enter_pin (
            insert Keys.key_uid (text c.key_uid) (
              insert Keys.instance_uid (text c.instance_uid)
                (with_slots c.free_pairing_slots status)))

  -- `handleGetAppInfoFlow`
  unfoldable pub handle_app_info : M W (Unit {0})
  unfolding swap_foreign swap_empty app_info_of
  handle_app_info = do
    c ← inserted
    let status : FlowStatus =
        (Keys.pin_retries, number c.pin_retries) ∷ (Keys.puk_retries, number c.puk_retries) ∷ []
    if c.not_status_keycard
        then swap_foreign
        else if lacks_keys c
        then swap_empty status
        else app_info_of c status

  -- What `handleLoginFlow` does behind the tests.
  unfoldable pub deliver_login : FlowStatus → Unit {0} → Entered → Tried → M W (Unit {0})
  deliver_login status _ e t = do
    put_inserted (renewed e t.card)
    h ← helper
    whisper ← exported h whisper_path
    encryption ← exported h encryption_path
    finish (
        insert Keys.enc_key (key encryption)
          (insert Keys.whisper_key (key whisper) (with_error [] (with_tried_error t.error status))))

  -- `handleLoginFlow`
  unfoldable pub handle_login : M W (Unit {0})
  unfolding swap_foreign swap_empty deliver_login
  handle_login = do
    c ← inserted
    if c.not_status_keycard
        then swap_foreign
        else if lacks_keys c
        then swap_empty (identity c)
        else authenticated (pure tt) (deliver_login (identity c)) (identity c)

  -- What `handleRecoverAccountFlow` does behind the tests.
  unfoldable pub deliver_recovery : FlowStatus → Unit {0} → Entered → Tried → M W (Unit {0})
  deliver_recovery status _ e t = do
    put_inserted (renewed e t.card)
    h ← helper
    master ← exported h master_path
    wallet_root ← exported h wallet_root_path
    wallet ← exported h wallet_path
    eip1581 ← exported h eip1581_path
    whisper ← exported h whisper_path
    encryption ← exported h encryption_path
    finish (
        insert Keys.enc_key (key encryption) (
          insert Keys.whisper_key (key whisper) (
            insert Keys.eip1581_key (key eip1581) (
              insert Keys.wallet_key (key wallet) (
                insert Keys.walle_root_key (key wallet_root) (
                  insert Keys.master_key (key master)
                    (with_error [] (with_tried_error t.error status))))))))

  -- `handleRecoverAccountFlow`
  unfoldable pub handle_recover_account : M W (Unit {0})
  unfolding swap_foreign swap_empty deliver_recovery
  handle_recover_account = do
    c ← inserted
    if c.not_status_keycard
        then swap_foreign
        else if lacks_keys c
        then swap_empty (identity c)
        else authenticated (pure tt) (deliver_recovery (identity c)) (identity c)
