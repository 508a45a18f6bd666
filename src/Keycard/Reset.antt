-- ===== src/Keycard/Reset.antt =====
-- `FactoryReset` and its fallback, as functions on the world.
use status_keycard_go.Prelude.{Bool, true, false, not, Option, none, some, if◌then◌else◌, Bytes}
use status_keycard_go.Internal.Errors.{Error, Result, ok, err}
use status_keycard_go.Internal.Types.{CardInfo}
use status_keycard_go.Card.{Card}
use status_keycard_go.Keycard.{select_applet}

-- A call that may panic, by a nil pointer: `none`.
abbrev pub Reset : Type 0 → Type 0
Reset W = W → Option (Option Error × W)

module _ {W : Type 0} (card : Card W) where
  -- `if err := ...; err != nil { return err }`
  abbrev pub unless_failed : Option Error × W → Reset W → Option (Option Error × W)
  unless_failed (none, w) k = k w
  unless_failed (some e, w) k = some (some e, w)

  abbrev pub deleted : Reset W → Bool → Option Error × W → Option (Option Error × W)
  deleted again retry (none, w) = some (card.install_keycard_applet w)
  deleted again retry (some e, w) = if retry then again w else some (some e, w)

  abbrev pub delete_instance : Reset W → Bool → Result Bytes → Reset W
  delete_instance again retry (err e) w = some (some e, w)
  delete_instance again retry (ok aid) w = deleted again retry (card.delete_object aid w)

  unfoldable pub fallback : Reset W → Bool → Reset W
  fallback again retry w = unless_failed (card.isd_select w) λ w₁.
      unless_failed (card.isd_open_secure_channel w₁)
        (delete_instance again retry card.instance_aid)

  abbrev pub or_fallback : Reset W → Option Error × W → Option (Option Error × W)
  or_fallback other (none, w) = some (none, w)
  or_fallback other (some e, w) = other w

  unfoldable pub with_info :
      Reset W → (Option CardInfo × Option Error) × W → Option (Option Error × W)
  with_info other ((info, some e), w) = other w
  with_info other ((none, none), w) = none
  with_info other ((some info, none), w) =
      if not info.can_factory_reset then other w else or_fallback other (card.factory_reset w)

  unfoldable pub factory_reset_once : Reset W
  unfolding with_info fallback select_applet
  factory_reset_once w = with_info (fallback (λ x. some (none, x)) false) (select_applet card w)

  unfoldable pub factory_reset : Bool → Reset W
  unfolding factory_reset_once with_info fallback select_applet
  factory_reset false w = factory_reset_once w
  factory_reset true w = with_info (fallback factory_reset_once true) (select_applet card w)
