-- ===== src/Context/Invariant/Keys.antt =====
-- The exports return, from every state of the invariant, and keep it: a series of keys goes on
-- only while the card is connected.
use mathlib.Core.Path.{subst}
use status_keycard_go.Prelude.{
  sym, ℕ, ◌≡◌, Bool, true, false, Option, none, some, inr, arith, Text, is_some, text_eq,
}
use status_keycard_go.Internal.Errors.{Error, Result, ok, err}
use status_keycard_go.Internal.Types.{ExportedKey, KeyPair, LoginKeys}
use status_keycard_go.Card.{Card}
use status_keycard_go.Context.Machine.{Context, M, ◌>>=◌, command}
use status_keycard_go.Context.Base.{keycard_authorized, check_scard_error, keycard_has_keys}
use status_keycard_go.Context.Data.{wallet_root_path}
use status_keycard_go.Context.Export.{
  master_path, after_export, export_key, on_key, and_then, export_both, or_fail, export_login_keys,
  export_others, recover_from, export_recover_keys, private_and_public, public_only,
  encryption_path, whisper_path, eip1581_path, wallet_path, root_option, login_ready, recover_ready,
  failed_with, key_pair, exported_key_to_address,
}
use status_keycard_go.Context.Logic.{
  Ends, Inv, Keeps, Returns, guarded-Ends, guarded-Returns, bind-Ends, command-Ends, with_mutex_any,
  Ends-mono,
}
use status_keycard_go.Context.Invariant.{keycard_authorized_lem, check_scard_error-Ends}

-- A result without an error was reached with the card connected.
abbrev Alive : {W A : Type 0} → Bool → Result A → Context W → Type 0
Alive held (ok _) d = Inv held d × (d.connected ≡ true)
Alive held (err _) d = Inv held d

abbrev Exports : {W A : Type 0} → M W (Result A) → Type 0
Exports m = (c : Context _) → Inv false c → c.connected ≡ true → Ends (Alive false) (m c)

module _ {W : Type 0} (card : Card W) where
  unlock_Alive :
      (r : Result KeyPair) (d : Context W)
      → Alive true r d
      → Alive false r (record d { locked = false })
  unlock_Alive (ok k) d h = ground arith
  unlock_Alive (err e) d h = ground arith

  failed_Alive :
      (o : Option Error) (e : Error) (d : Context W)
      → Inv true d
      → Alive true (failed_with card {A = KeyPair} o e) d
  unfolding failed_with
  failed_Alive none e d v = v
  failed_Alive (some x) e d v = v

  key_pair-Alive :
      (key : ExportedKey) (a : Result Text) (d : Context W)
      → Inv true d
      → d.connected ≡ true
      → Alive true (key_pair card key a) d
  unfolding key_pair
  key_pair-Alive key (ok a) d v h = (v, h)
  key_pair-Alive key (err e) d v h = v

  after_export-Ends :
      (r : Result ExportedKey) (c : Context W)
      → Inv true c
      → c.connected ≡ true
      → Ends (Alive true) (after_export card r c)
  unfolding after_export
  after_export-Ends (err e) c v h =
      bind-Ends _ (Alive true) (check_scard_error card (some e)) _ c
        (check_scard_error-Ends card (some e) c v h) (λ r d x. failed_Alive r e d x.0)
  after_export-Ends (ok key) c v h = key_pair-Alive key (exported_key_to_address card key) c v h

  export_key-Exports : (path : Text) (option : ℕ) → Exports (export_key card path option)
  unfolding export_key
  export_key-Exports path option c v h =
      with_mutex_any (Alive true) (Alive false)
        (command (card.export_key_extended true (text_eq path master_path) option path)
          >>= after_export card)
        c v.mutex unlock_Alive
        (command-Ends (Alive true)
          (card.export_key_extended true (text_eq path master_path) option path) (after_export card)
          (record c { locked = true }) h
          (after_export-Ends _
            (record c {
              locked = true;
              world =
                  (card.export_key_extended true (text_eq path master_path) option path c.world).1;
            })
            (ground arith) h))

  and_then-Exports :
      {A : Type 0} (m : M W (Result KeyPair)) (f : KeyPair → M W (Result A))
      → Exports m
      → ((k : KeyPair) → Exports (f k))
      → Exports (and_then card m f)
  unfolding and_then on_key
  and_then-Exports m f h k c v e =
      bind-Ends (Alive false) (Alive false) m (on_key card f) c (h c v e) next
    where
      next :
          (r : Result KeyPair) (d : Context W)
          → Alive false r d
          → Ends (Alive false) (on_key card f r d)
      next (ok key) d x = k key d x.0 x.1
      next (err e) d x = x

  export_both-Exports : Exports (export_both card)
  unfolding export_both
  export_both-Exports =
      and_then-Exports (export_key card encryption_path private_and_public) _
        (export_key-Exports encryption_path private_and_public)
        λ e.
          and_then-Exports (export_key card whisper_path private_and_public) _
            (export_key-Exports whisper_path private_and_public) λ w c v h. (v, h)

  export_others-Exports : (keys : LoginKeys) → Exports (export_others card keys)
  unfolding export_others
  export_others-Exports keys =
      and_then-Exports (export_key card eip1581_path public_only) _
        (export_key-Exports eip1581_path public_only)
        λ e c v h.
          and_then-Exports (export_key card wallet_root_path (root_option card c)) _
            (export_key-Exports wallet_root_path (root_option card c))
            (λ r.
              and_then-Exports (export_key card wallet_path public_only) _
                (export_key-Exports wallet_path public_only)
                λ w.
                  and_then-Exports (export_key card master_path public_only) _
                    (export_key-Exports master_path public_only) λ m c v h. (v, h))
            c v h

  -- `keycardHasKeys` reads a status that is there, and changes nothing.
  has_keys-Ends :
      (c : Context W)
      → is_some c.status.app_status ≡ true
      → Ends (λ _ d. d ≡ c) (keycard_has_keys c)
  unfolding keycard_has_keys
  has_keys-Ends c h = ground arith

  or_fail-Exports :
      {A : Type 0} (o : Option Error) (m : M W (Result A)) → Exports m → Exports (or_fail card o m)
  unfolding or_fail
  or_fail-Exports none m h c v e = h c v e
  or_fail-Exports (some x) m h c v e = v

  login_ready-Ends :
      (c : Context W)
      → Inv false c
      → keycard_authorized c ≡ none
      → Ends (Alive false) (login_ready card c)
  unfolding login_ready
  login_ready-Ends c v pass =
      let (h, a) = keycard_authorized_lem c pass in
      bind-Ends (λ _ d. d ≡ c) (Alive false) keycard_has_keys _ c
        (has_keys-Ends c (v.reported (inr a)))
        (λ o d e.
          or_fail-Exports o (export_both card) export_both-Exports d (subst (Inv false) (sym e) v)
            (rw e h))

  export_login_keys-Ends :
      (c : Context W) → Inv false c → Ends (Alive false) (export_login_keys card c)
  unfolding export_login_keys
  export_login_keys-Ends c v =
      guarded-Ends (Alive false) keycard_authorized err (login_ready card) c (login_ready-Ends c v)
        (λ e _. v)

  Alive-Inv : {A : Type 0} (r : Result A) (d : Context W) → Alive false r d → Inv false d
  Alive-Inv (ok _) d h = h.0
  Alive-Inv (err _) d h = h

  pub export_login_keys-Keeps : Keeps false (export_login_keys card)
  export_login_keys-Keeps c v =
      Ends-mono (Alive false) (λ _ d. Inv false d) (export_login_keys card c)
        (export_login_keys-Ends c v) Alive-Inv

  recover_from-Returns :
      (r : Result LoginKeys) (d : Context W)
      → Alive false r d
      → Returns false (recover_from card r d)
  unfolding recover_from
  recover_from-Returns (ok keys) d h =
      Ends-mono (Alive false) (λ _ x. Inv false x) (export_others card keys d)
        (export_others-Exports keys d h.0 h.1) Alive-Inv
  recover_from-Returns (err e) d h = h

  -- ExportRecoverKeys returns from every state of the invariant, whichever of its exports fails, and
  -- leaves a state of the invariant; no nil pointer is read.
  pub export_recover_keys-Keeps : Keeps false (export_recover_keys card)
  unfolding export_recover_keys recover_ready
  export_recover_keys-Keeps c v =
      guarded-Returns keycard_authorized err (recover_ready card) c v λ pass.
        bind-Ends (Alive false) (λ _ d. Inv false d) (export_login_keys card) (recover_from card) c
          (export_login_keys-Ends c v) recover_from-Returns
