-- ===== src/Service/Validation.antt =====
-- `validateRequest`: the rules on the requests are struct tags, which the validator package reads.
use status_keycard_go.Prelude.{ℕ, ◌≡◌, Option, none, List, Text}
use status_keycard_go.Internal.Errors.{Error}

-- `validate.Struct` at each request that is validated; nil is `none`.
pub record Validator : Type 0 where
  pub initialize : Text → Text → Text → Option Error
  pub change_pin : Text → Option Error
  pub change_puk : Text → Option Error
  pub unblock : Text → Text → Option Error
  pub load_mnemonic : Text → Text → Option Error
  pub store_metadata : Text → List Text → Option Error
  pub simulate_error : Text → Option Error

-- What the tags `len=6` and `len=12` promise, which count the runes of a text, as
-- `utf8.RuneCountInString` does.
pub record Checks (runes : Text → ℕ) (v : Validator) : Type 0 where
  pub initialize_lengths :
      (pin puk pairing : Text)
      → v.initialize pin puk pairing ≡ none
      → (runes pin ≡ 6) × (runes puk ≡ 12)
  pub pin_length : (pin : Text) → v.change_pin pin ≡ none → runes pin ≡ 6
  pub puk_length : (puk : Text) → v.change_puk puk ≡ none → runes puk ≡ 12
  pub unblock_lengths :
      (puk pin : Text) → v.unblock puk pin ≡ none → (runes pin ≡ 6) × (runes puk ≡ 12)
