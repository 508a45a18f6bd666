-- ===== src/Flow/Exports.antt =====
-- pkg/flow/commands.go: keys that are exported or loaded, and signatures.
use status_keycard_go.Prelude.{
  ℕ, Bool, true, not, Option, none, some, List, [], ◌∷◌, if◌then◌else◌, Text, text_eq, Bytes,
}
use status_keycard_go.Prelude.Int.{ℤ, pos, quot}
use status_keycard_go.Hex.{btox, xtob}
use status_keycard_go.Internal.Types.{KeyPair, Signature}
use status_keycard_go.Internal.Convert.{to_signature}
use status_keycard_go.Card.{Card}
use status_keycard_go.Context.Export.{master_path, public_only, private_and_public}
use status_keycard_go.Keycard.{export_key, load_mnemonic, generate_mnemonic, sign_with_path}
use status_keycard_go.Flow.Values.{Value, text, int, float, array, key, keys, indexes, Action}
use status_keycard_go.Flow.Session.{
  F, pure, crash, ◌>>=◌, ◌>>◌, call, set_card, param, delete_param, as_text, as_bool,
  pause_and_wait, pause_and_wait_with_status, Round, finished, again, ask,
}
use status_keycard_go.Flow.Opening.{check_result}
use status_keycard_go.Flow.Keys
use status_keycard_go.Flow.Messages

-- `mnemonicLength`, by default `DefMnemoLen`
unfoldable pub mnemonic_length : Option Value → ℤ
mnemonic_length (some (int t)) = t
mnemonic_length (some (float t)) = t
mnemonic_length _ = pos 12

-- `hash`, if it is there and is hex
unfoldable pub hash_bytes : Option Text → Option Bytes
hash_bytes none = none
hash_bytes (some h) = xtob h

module _ {W : Type 0} (card : Card W) where
  unfoldable pub export_key_extended : Text → ℕ → F W KeyPair
  export_key_extended path p2 =
      call (export_key card true (text_eq path master_path) p2 path) >>= check_result

  unfoldable pub export_key_flow : Text → Bool → F W KeyPair
  unfolding export_key_extended
  export_key_flow path only_public =
      export_key_extended path (if only_public then public_only else private_and_public)

  -- The loop over the paths; an element that is not a string is a panic.
  unfoldable pub export_keys : List (Option Text) → Bool → F W (List KeyPair)
  unfolding export_key_flow
  export_keys [] only_public = pure []
  export_keys (none ∷ paths) only_public = crash
  export_keys (some path ∷ paths) only_public =
      let rest = export_keys paths only_public in
      export_key_flow path only_public >>= λ k. rest >>= λ ks. pure (k ∷ ks)

  abbrev pub only_public_of : Option Value → F W Bool
  only_public_of none = pure true
  only_public_of (some v) = as_bool v >>= λ b. pure (not b)

  unfoldable pub ask_path : Text → F W (Round Value)
  ask_path message = pause_and_wait Action.enter_path message >> pure again

  -- A path of another type is deleted, and the call behind it finds none.
  unfoldable pub export_at : Value → Bool → F W (Round Value)
  unfolding export_key_flow export_keys ask_path
  export_at (text path) only_public =
      export_key_flow path only_public >>= λ k. pure (finished (key k))
  export_at (array paths) only_public =
      export_keys paths only_public >>= λ ks. pure (finished (keys ks))
  export_at _ only_public = delete_param Keys.bip44_path >> ask_path Messages.error_exporting

  unfoldable pub with_path : Option Value → F W (Round Value)
  unfolding export_at ask_path
  with_path none = ask_path Messages.error_exporting
  with_path (some path) = do
    p ← param Keys.export_priv
    only_public ← only_public_of p
    export_at path only_public

  -- `exportBIP44Key`
  unfoldable pub export_bip44_key : F W Value
  unfolding with_path
  export_bip44_key = ask (param Keys.bip44_path >>= with_path)

  unfoldable pub with_mnemonic : Option Value → F W (Round (Unit {0}))
  unfolding mnemonic_length
  with_mnemonic (some v) = do
    mnemonic ← as_text v
    r ← call (load_mnemonic card mnemonic [])
    key_uid ← check_result r
    set_card (λ c. record c { key_uid = btox key_uid })
    pure (finished tt)
  with_mnemonic none = do
    len ← param Keys.mnemonic_len
    r ← call (generate_mnemonic card (quot (mnemonic_length len) 3))
    xs ← check_result r
    pause_and_wait_with_status Action.enter_mnemonic Messages.error_loading
        ((Keys.mnemonic_idxs, indexes xs) ∷ [])
    pure again

  -- `loadKeys`
  unfoldable pub load_keys : F W (Unit {0})
  unfolding with_mnemonic
  load_keys = ask (param Keys.mnemonic >>= with_mnemonic)

  unfoldable pub sign_hash : Value → Option Bytes → F W (Round Signature)
  sign_hash path none = pause_and_wait Action.enter_tx_hash Messages.error_signing >> pure again
  sign_hash path (some hash) = do
    path_text ← as_text path
    r ← call (sign_with_path card hash path_text)
    signature ← check_result r
    pure (finished (to_signature signature))

  abbrev pub text_of : Option Value → F W (Option Text)
  text_of none = pure none
  text_of (some v) = as_text v >>= λ t. pure (some t)

  unfoldable pub sign_at : Option Value → F W (Round Signature)
  unfolding sign_hash hash_bytes
  sign_at none = pause_and_wait Action.enter_path Messages.error_signing >> pure again
  sign_at (some path) = do p ← param Keys.tx_hash; h ← text_of p; sign_hash path (hash_bytes h)

  -- `sign`
  unfoldable pub sign : F W Signature
  unfolding sign_at
  sign = ask (param Keys.bip44_path >>= sign_at)
