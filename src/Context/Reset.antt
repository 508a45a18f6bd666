-- ===== src/Context/Reset.antt =====
-- `FactoryReset` of both contexts: the applet's own command, or delete and install it again.
use status_keycard_go.Prelude.{Bool, true, false, not, Option, none, some, if◌then◌else◌, Bytes}
use status_keycard_go.Internal.Errors.{Error, Result, ok, err, own, not_connected}
use status_keycard_go.Internal.Types.{CardInfo}
use status_keycard_go.Internal.Status.{reset, factory_resetting}
use status_keycard_go.Card.{Card}
use status_keycard_go.Context.Machine.{
  M, pure, ◌>>=◌, ◌>>◌, update_status, crash, command, with_mutex, force_scan, publish_status,
}
use status_keycard_go.Context.Base.{keycard_connected, reset_card_connection, select_applet_v1}

module _ {W : Type 0} (card : Card W) where
  -- `KeycardContext.factoryResetFallback`; `again` is `kc.FactoryReset(false)`.
  unfoldable pub after_delete : M W (Option Error) → Bool → Option Error → M W (Option Error)
  after_delete again retry none c = command card.install_keycard_applet c
  after_delete again retry (some e) c = if retry then again c else pure (some e) c

  unfoldable pub delete_instance : M W (Option Error) → Bool → Result Bytes → M W (Option Error)
  unfolding after_delete
  delete_instance again retry (err e) = pure (some e)
  delete_instance again retry (ok aid) =
      command (card.delete_object aid) >>= after_delete again retry

  unfoldable pub or_else : Option Error → M W (Option Error) → M W (Option Error)
  or_else none m = m
  or_else (some e) m = pure (some e)

  unfoldable pub factory_reset_fallback : M W (Option Error) → Bool → M W (Option Error)
  unfolding delete_instance or_else
  factory_reset_fallback again retry = do
    selected ← command card.isd_select
    or_else selected (do
      opened ← command card.isd_open_secure_channel
      or_else opened (delete_instance again retry card.instance_aid))

  unfoldable pub unless_done : M W (Option Error) → Option Error → M W (Option Error)
  unless_done fallback none = pure none
  unless_done fallback (some _) = fallback

  -- `KeycardContext.FactoryReset` behind its `SelectApplet`. A nil `appInfo` is a panic.
  unfoldable pub after_select :
      M W (Option Error) → Option CardInfo × Option Error → M W (Option Error)
  unfolding unless_done
  after_select fallback (info, some e) c = fallback c
  after_select fallback (none, none) c = crash c
  after_select fallback (some info, none) c =
      if not info.can_factory_reset
      then fallback c
      else (command card.factory_reset >>= unless_done fallback) c

  -- `FactoryReset(false)`, whose fallback makes no further attempt.
  unfoldable pub factory_reset_once : M W (Option Error)
  unfolding factory_reset_fallback after_select
  factory_reset_once =
      select_applet_v1 card >>= after_select (factory_reset_fallback (pure none) false)

  unfoldable pub factory_reset_v1 : Bool → M W (Option Error)
  unfolding factory_reset_once factory_reset_fallback after_select
  factory_reset_v1 false = factory_reset_once
  factory_reset_v1 true =
      select_applet_v1 card >>= after_select (factory_reset_fallback factory_reset_once true)

  unfoldable pub reset_locked : M W (Option Error)
  reset_locked = do e ← factory_reset_v1 true; reset_card_connection card; force_scan; pure e

  unfoldable pub factory_reset : M W (Option Error)
  unfolding reset reset_locked
  factory_reset c =
      if not (keycard_connected c)
      then pure (some (own not_connected)) c
      else (do update_status (reset factory_resetting); publish_status; with_mutex reset_locked) c
