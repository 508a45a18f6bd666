-- ===== src/Mocked/Safety/Handlers.antt =====
-- Each handler of the mock is safe, but for those of keys and metadata, which are in Exports.
use status_keycard_go.Prelude.{Bool, Text}
use status_keycard_go.Flow.Values.{Action}
use status_keycard_go.Mocked.Cards.{ReaderState, Keycard}
use status_keycard_go.Mocked.Machine.{M}
use status_keycard_go.Mocked.Credentials.{
  FlowStatus, Entered, Tried, read_entered, ask_again, authenticated,
}
use status_keycard_go.Mocked.Handlers.{
  app_info_of, handle_app_info, deliver_login, handle_login, deliver_recovery,
  handle_recover_account,
}
use status_keycard_go.Mocked.Changes.{
  on_paired_card, ask_new_pin, set_new_pin, change_pin_of, handle_change_pin, set_new_puk,
  deliver_puk, puk_flags, change_puk_of, handle_change_puk,
}
use status_keycard_go.Mocked.Safety.{Held, Safe, Safe-bind, safe_rules}

module _ {W : Type 0} {r : ReaderState} where
  Safe-read_entered : Safe {W = W} (Held r) read_entered
  unfolding read_entered
  Safe-read_entered = search safe_rules depth 8

  pub Safe-ask_again : (a : Action) (m : FlowStatus) → Safe {W = W} (Held r) (ask_again a m)
  unfolding ask_again
  Safe-ask_again a m = search safe_rules

  pub Safe-authenticated :
      {A : Type 0} (flags : M W A) (f : A → Entered → Tried → M W (Unit {0})) (m : FlowStatus)
      → Safe (Held r) flags
      → ((a : A) (e : Entered) (t : Tried) → Safe (Held r) (f a e t))
      → Safe (Held r) (authenticated flags f m)
  unfolding authenticated
  Safe-authenticated flags f m h k =
      Safe-bind read_entered _ Safe-read_entered
        λ e. Safe-bind flags _ h λ a. search (safe_rules, Safe-ask_again, k)

  Safe-app_info_of : (c : Keycard) (m : FlowStatus) → Safe {W = W} (Held r) (app_info_of c m)
  unfolding app_info_of
  Safe-app_info_of c m = search safe_rules depth 10

  pub Safe-app_info : Safe {W = W} (Held r) handle_app_info
  unfolding handle_app_info
  Safe-app_info = search (safe_rules, Safe-app_info_of) depth 8

  Safe-deliver_login :
      (m : FlowStatus) (a : Unit {0}) (e : Entered) (t : Tried)
      → Safe {W = W} (Held r) (deliver_login m a e t)
  unfolding deliver_login
  Safe-deliver_login m a e t = search safe_rules depth 10

  pub Safe-login : Safe {W = W} (Held r) handle_login
  unfolding handle_login
  Safe-login = search (safe_rules, Safe-authenticated, Safe-deliver_login) depth 8

  Safe-deliver_recovery :
      (m : FlowStatus) (a : Unit {0}) (e : Entered) (t : Tried)
      → Safe {W = W} (Held r) (deliver_recovery m a e t)
  unfolding deliver_recovery
  Safe-deliver_recovery m a e t = search safe_rules depth 20

  pub Safe-recover_account : Safe {W = W} (Held r) handle_recover_account
  unfolding handle_recover_account
  Safe-recover_account = search (safe_rules, Safe-authenticated, Safe-deliver_recovery) depth 8

  Safe-on_paired_card :
      (k : Keycard → M W (Unit {0}))
      → ((c : Keycard) → Safe (Held r) (k c))
      → Safe (Held r) (on_paired_card k)
  unfolding on_paired_card
  Safe-on_paired_card k h = search (safe_rules, h) depth 8

  Safe-ask_new_pin :
      (m : FlowStatus) (e : Entered) (t : Tried) → Safe {W = W} (Held r) (ask_new_pin m e t)
  unfolding ask_new_pin
  Safe-ask_new_pin m e t = search (safe_rules, Safe-ask_again)

  Safe-set_new_pin :
      (m : FlowStatus) (b : Bool) (e : Entered) (t : Tried)
      → Safe {W = W} (Held r) (set_new_pin m b e t)
  unfolding set_new_pin
  Safe-set_new_pin m b e t = search (safe_rules, Safe-ask_again)

  Safe-change_pin_of : (c : Keycard) → Safe {W = W} (Held r) (change_pin_of c)
  unfolding change_pin_of
  Safe-change_pin_of c =
      search (safe_rules, Safe-read_entered, Safe-ask_new_pin, Safe-set_new_pin) depth 12

  pub Safe-change_pin : Safe {W = W} (Held r) handle_change_pin
  unfolding handle_change_pin
  Safe-change_pin = Safe-on_paired_card change_pin_of Safe-change_pin_of

  Safe-set_new_puk :
      (m : FlowStatus) (e : Entered) (c : Keycard) → Safe {W = W} (Held r) (set_new_puk m e c)
  unfolding set_new_puk
  Safe-set_new_puk m e c = search safe_rules

  Safe-deliver_puk :
      (m : FlowStatus) (f : Text × Bool) (e : Entered) (t : Tried)
      → Safe {W = W} (Held r) (deliver_puk m f e t)
  unfolding deliver_puk
  Safe-deliver_puk m (n, b) e t = search (safe_rules, Safe-ask_again, Safe-set_new_puk) depth 8

  Safe-puk_flags : Safe {W = W} (Held r) puk_flags
  unfolding puk_flags
  Safe-puk_flags = search safe_rules

  Safe-change_puk_of : (c : Keycard) → Safe {W = W} (Held r) (change_puk_of c)
  unfolding change_puk_of
  Safe-change_puk_of c = search (Safe-authenticated, Safe-puk_flags, Safe-deliver_puk)

  pub Safe-change_puk : Safe {W = W} (Held r) handle_change_puk
  unfolding handle_change_puk
  Safe-change_puk = Safe-on_paired_card change_puk_of Safe-change_puk_of
