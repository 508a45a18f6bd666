-- ===== src/Mocked/Running.antt =====
-- pkg/flow/mocked/mocked_flow.go: `runFlow`. The methods start it as a goroutine; a run of it is one
-- step, and `runs` counts those that are still to come.
use status_keycard_go.Prelude.{◌-◌, not, ◌&&◌, Option, some, is_some, [], ◌∷◌, if◌then◌else◌}
use status_keycard_go.Pairing.{get}
use status_keycard_go.Flow.Values.{Value, text, insert_card, action_text}
use status_keycard_go.Flow.Control.{Signal, action, flow_result}
use status_keycard_go.Flow.Kinds.{
  FlowType, flow_type_of, get_app_info, recover_account, load_account, login, export_public,
  change_pin, change_puk, store_metadata, get_metadata,
}
use status_keycard_go.Flow.Keys
use status_keycard_go.Flow.Messages
use status_keycard_go.Mocked.Cards.{is_blank, ReaderState, no_reader, no_keycard}
use status_keycard_go.Mocked.Machine.{
  MockedFlow, Host, done, M, pure, ◌>>=◌, ◌>>◌, inserted, gets, store_pairing,
}
use status_keycard_go.Mocked.Handlers.{handle_app_info, handle_login, handle_recover_account}
use status_keycard_go.Mocked.Changes.{handle_change_pin, handle_change_puk}
use status_keycard_go.Mocked.Exports.{handle_export_public, handle_get_metadata}
use status_keycard_go.Mocked.Accounts.{handle_load_account}
use status_keycard_go.Mocked.Metadata.{handle_store_metadata}
use status_keycard_go.Mocked.Storing.{store_registered}

module _ {W : Type 0} (host : Host W) where
  -- The flows that the mock knows; any other does nothing.
  unfoldable pub handle : Option FlowType → M W (Unit {0})
  handle (some get_app_info) = handle_app_info
  handle (some recover_account) = handle_recover_account
  handle (some load_account) = handle_load_account host
  handle (some login) = handle_login
  handle (some export_public) = handle_export_public host
  handle (some change_pin) = handle_change_pin
  handle (some change_puk) = handle_change_puk
  handle (some store_metadata) = handle_store_metadata
  handle (some get_metadata) = handle_get_metadata host
  handle t = pure tt

  -- Behind the handler: a pairing that is not known is stored; its error is only logged.
  unfoldable pub remember_pairing : M W (Unit {0})
  remember_pairing = do
    c ← inserted
    p ← gets (λ s. get c.instance_uid s.pairings)
    if not (is_blank c.instance_uid) && not (is_some p)
        then (store_pairing host c.instance_uid c.pairing_info >>= λ _. pure tt)
        else pure tt

  unfoldable pub save_cards : M W (Unit {0})
  unfolding store_registered
  save_cards s = let (e, t) = store_registered host s in done tt t

  abbrev pub sent : Signal Value → MockedFlow W → MockedFlow W
  sent x s = record s { signals = x ∷ s.signals }

  unfoldable pub run_at : ReaderState → M W (Unit {0})
  unfolding handle remember_pairing save_cards
  run_at no_reader s =
      done tt (sent (flow_result ((Keys.error, text Messages.error_no_reader) ∷ [])) s)
  run_at no_keycard s = done tt (
      sent (action (action_text insert_card) ((Keys.error, text Messages.error_connection) ∷ [])) s)
  run_at r s = (handle (flow_type_of s.flow_type) >> remember_pairing >> save_cards) s

  -- `runFlow`, as one of the goroutines that are still to run.
  unfoldable pub run_flow : M W (Unit {0})
  unfolding run_at
  run_flow s = run_at s.current_reader_state (record s { runs = s.runs - 1 })
