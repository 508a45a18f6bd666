-- ===== src/Service/Lengths.antt =====
-- PINs and PUKs of a wrong length, at the methods that validate their request.
use status_keycard_go.Prelude.{ℕ, ◌≡◌, ◌≢◌, ◌⊎◌, refl, Option, none, some, Text, inl, inr}
use status_keycard_go.Internal.Errors.{Error}
use status_keycard_go.Pairing.{FileSystem}
use status_keycard_go.Card.{Card}
use status_keycard_go.Context.Machine.{M}
use status_keycard_go.Service.Validation.{Validator, Checks}
use status_keycard_go.Service.Requests.{
  Holder, absent, present, Service, Request, empty, Served, served,
}
use status_keycard_go.Service.Handlers.{only_error, with_context, validated, serve, finish}

-- The request ends with an error, and the service and the card are as they were.
abbrev pub Refused : {W : Type 0} → Served W → Service W → Type 0
Refused r s = (e : Error) × (r ≡ served empty (some e) s)

-- A PIN or a PUK of a wrong length, in a request that is validated.
pub data BadLength (runes : Text → ℕ) : Request → Type 0 where
  bad_initialize :
      (pin puk pairing : Text)
      → (runes pin ≢ 6) ⊎ (runes puk ≢ 12)
      → BadLength runes (Request.initialize pin puk pairing)
  bad_pin : (pin : Text) → runes pin ≢ 6 → BadLength runes (Request.change_pin pin)
  bad_puk : (puk : Text) → runes puk ≢ 12 → BadLength runes (Request.change_puk puk)
  bad_unblock :
      (puk pin : Text)
      → (runes pin ≢ 6) ⊎ (runes puk ≢ 12)
      → BadLength runes (Request.unblock puk pin)

not_both : {A B : Type 0} {e : Option Error} → (e ≡ none → A × B) → (A → ⊥) ⊎ (B → ⊥) → e ≢ none
not_both f (inl n) = λ q. n ((f q).0)
not_both f (inr n) = λ q. n ((f q).1)

module _ {W : Type 0} where
  with_context-Refused :
      (e : Option Error) (m : M W (Option Error)) (h : Holder W) (sim : Option Error)
      → e ≢ none
      → Refused
          (with_context only_error (validated e m) (record { holder = h; simulate = sim }))
          (record { holder = h; simulate = sim })
  unfolding with_context validated finish
  with_context-Refused e m (absent w) sim n = (_, refl)
  with_context-Refused none m (present c) sim n = absurd (n refl)
  with_context-Refused (some e) m (present c) sim n = (e, refl)

module _ {W : Type 0} (card : Card W) (fs : FileSystem W) (runes : Text → ℕ) (v : Validator) where
  -- If validateRequest accepts a request only with a PIN of 6 runes and a PUK of 12 runes, however
  -- runes are counted, then Initialize, ChangePIN, ChangePUK and Unblock with a PIN or a PUK of another
  -- number of runes end with an error, with an empty reply, and with the service, its context and the
  -- card as they were.
  pub serve-Refused :
      Checks runes v
      → (r : Request) (s : Service W) → BadLength runes r
      → Refused (serve card fs v r s) s
  unfolding serve
  serve-Refused checks _ s (bad_initialize pin puk pairing bad) =
      with_context-Refused (v.initialize pin puk pairing) _ s.holder s.simulate
        (not_both (checks.initialize_lengths pin puk pairing) bad)
  serve-Refused checks _ s (bad_pin pin bad) =
      with_context-Refused (v.change_pin pin) _ s.holder s.simulate
        (λ e. bad (checks.pin_length pin e))
  serve-Refused checks _ s (bad_puk puk bad) =
      with_context-Refused (v.change_puk puk) _ s.holder s.simulate
        (λ e. bad (checks.puk_length puk e))
  serve-Refused checks _ s (bad_unblock puk pin bad) =
      with_context-Refused (v.unblock puk pin) _ s.holder s.simulate
        (not_both (checks.unblock_lengths puk pin) bad)
