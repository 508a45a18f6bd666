-- ===== src/Internal/Status.antt =====
-- internal/keycard_context_v2_state.go: the status that is published.
use status_keycard_go.Prelude.{Bool, false, Option, none, some, leb, Text, codes}
use status_keycard_go.Internal.Types.{ApplicationInfoV2, ApplicationStatus, Metadata}

pub data State : Type 0 where
  unknown_reader_state no_pcsc internal_error waiting_for_reader waiting_for_card : State
  connecting_card connection_error not_keycard empty_keycard : State
  no_available_pairing_slots pairing_error blocked_pin blocked_puk : State
  ready authorized factory_resetting : State

pub State-discrete : Discrete State
State-discrete = hlevel

-- The word that is published for each state.
unfoldable pub state_text : State → Text
state_text unknown_reader_state = codes "unknown"
state_text no_pcsc = codes "no-pcsc"
state_text internal_error = codes "internal-error"
state_text waiting_for_reader = codes "waiting-for-reader"
state_text waiting_for_card = codes "waiting-for-card"
state_text connecting_card = codes "connecting-card"
state_text connection_error = codes "connection-error"
state_text not_keycard = codes "not-keycard"
state_text empty_keycard = codes "empty-keycard"
state_text no_available_pairing_slots = codes "no-available-pairing-slots"
state_text pairing_error = codes "pairing-error"
state_text blocked_pin = codes "blocked-pin"
state_text blocked_puk = codes "blocked-puk"
state_text ready = codes "ready"
state_text authorized = codes "authorized"
state_text factory_resetting = codes "factory-resetting"

pub record Status : Type 0 where
  pub state : State
  pub app_info : Option ApplicationInfoV2
  pub app_status : Option ApplicationStatus
  pub metadata : Option Metadata

-- `Reset`
unfoldable pub reset : State → Status → Status
reset new_state s = record s {
  state = new_state;
  app_info = none;
  app_status = none;
  metadata = none;
}

unfoldable pub new_status : Status
unfolding reset
new_status =
    reset unknown_reader_state
      (record { state = unknown_reader_state; app_info = none; app_status = none; metadata = none })

-- `KeycardSupportsExtendedKeys`
unfoldable pub supports_extended_keys : Status → Bool
supports_extended_keys s = elim s.app_info [ none ↦ false | some i ↦ leb 0x0310 i.version_raw ]
