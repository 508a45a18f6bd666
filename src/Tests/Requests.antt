-- ===== src/Tests/Requests.antt =====
-- Requests that a validator refuses, which tests the lengths.
use status_keycard_go.Prelude.{◌&&◌, ◌==◌, arith, none, some, [], length, if◌then◌else◌, codes, inr}
use status_keycard_go.Internal.Errors.{Error, foreign, other}
use status_keycard_go.Internal.Status.{State}
use status_keycard_go.Service.Validation.{Validator, Checks}
use status_keycard_go.Service.Requests.{Request, present}
use status_keycard_go.Service.Handlers.{serve}
use status_keycard_go.Service.Lengths.{Refused, bad_initialize, serve-Refused}
use status_keycard_go.Tests.World.{pin, small_card, session, no_files}

abbrev invalid : Error
invalid = foreign other (codes "invalid")

abbrev by_length : Validator
by_length = record {
  initialize = λ p k _. if (length p == 6) && (length k == 12) then none else some invalid;
  change_pin = λ p. if length p == 6 then none else some invalid;
  change_puk = λ k. if length k == 12 then none else some invalid;
  unblock = λ k p. if (length p == 6) && (length k == 12) then none else some invalid;
  load_mnemonic = λ _ _. none;
  store_metadata = λ _ _. none;
  simulate_error = λ _. none;
}

by_length-Checks : Checks length by_length
by_length-Checks = record {
  initialize_lengths = λ p k q e. ground arith;
  pin_length = λ p e. ground arith;
  puk_length = λ k e. ground arith;
  unblock_lengths = λ k p e. ground arith;
}

serve-Refused_example :
    Refused
      (serve small_card no_files by_length
        (Request.initialize pin (codes "12345") [])
        (record { holder = present (session State.empty_keycard); simulate = none }))
      (record { holder = present (session State.empty_keycard); simulate = none })
serve-Refused_example =
    serve-Refused small_card no_files length by_length by_length-Checks
      (Request.initialize pin (codes "12345") [])
      (record { holder = present (session State.empty_keycard); simulate = none })
      (bad_initialize pin (codes "12345") [] (inr (λ e. omega (arith, e))))
