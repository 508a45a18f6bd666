-- ===== src/Context/Export.antt =====
-- The exported keys, and the simulated error.
use status_keycard_go.Prelude.{
  ℕ, Bool, true, Option, none, some, [], if◌then◌else◌, Text, codes, text_eq, is_some,
}
use status_keycard_go.Internal.Errors.{
  Error, Result, ok, err, own, wrap, unknown_simulation, unmarshalling_key, converting_key,
  error_text, get_simulated_error,
}
use status_keycard_go.Internal.Types.{ExportedKey, KeyPair, LoginKeys, RecoverKeys}
use status_keycard_go.Internal.Status.{supports_extended_keys}
use status_keycard_go.Card.{Card}
use status_keycard_go.Context.Machine.{done, Context, M, pure, ◌>>=◌, gets, command, with_mutex}
use status_keycard_go.Context.Base.{keycard_authorized, keycard_has_keys, check_scard_error}
use status_keycard_go.Context.Base.{guarded}
use status_keycard_go.Context.Data.{wallet_root_path}

-- internal/const.go
abbrev pub master_path : Text
master_path = codes "m"

abbrev pub wallet_path : Text
wallet_path = codes "m/44'/60'/0'/0/0"

abbrev pub eip1581_path : Text
eip1581_path = codes "m/43'/60'/1581'"

abbrev pub whisper_path : Text
whisper_path = codes "m/43'/60'/1581'/0'/0"

abbrev pub encryption_path : Text
encryption_path = codes "m/43'/60'/1581'/1'/0"

-- The values of `P2` of keycard-go's export command.
abbrev pub private_and_public : ℕ
private_and_public = 0

abbrev pub public_only : ℕ
public_only = 1

abbrev pub extended_public : ℕ
extended_public = 2

module _ {W : Type 0} (card : Card W) where
  -- `exportedKeyToAddress`; a nil public key has the empty address.
  unfoldable pub exported_key_to_address : ExportedKey → Result Text
  exported_key_to_address key = elim key.pub_key [
    | none ↦ ok []
    | some k ↦ elim (card.address_of k) [ ok a ↦ ok a | err e ↦ err (wrap unmarshalling_key e) ]
  ]

  unfoldable pub key_pair : ExportedKey → Result Text → Result KeyPair
  key_pair key (err e) = err (wrap converting_key e)
  key_pair key (ok address) = ok (record {
    address = address;
    public_key = key.pub_key;
    private_key = key.priv_key;
    chain_code = key.chain_code;
  })

  -- `if err != nil { return nil, kc.checkSCardError(err, ...) }`, for an error that is there.
  unfoldable pub failed_with : {A : Type 0} → Option Error → Error → Result A
  failed_with none e = err e
  failed_with (some e) _ = err e

  unfoldable pub after_export : Result ExportedKey → M W (Result KeyPair)
  unfolding key_pair failed_with
  after_export (err e) = check_scard_error card (some e) >>= λ r. pure (failed_with r e)
  after_export (ok key) = pure (key_pair key (exported_key_to_address key))

  unfoldable pub export_key : Text → ℕ → M W (Result KeyPair)
  unfolding after_export
  export_key path export_option = with_mutex (
      command (card.export_key_extended true (text_eq path master_path) export_option path)
      >>= after_export)

  unfoldable pub on_key :
      {A : Type 0} → (KeyPair → M W (Result A)) → Result KeyPair → M W (Result A)
  on_key f (ok k) = f k
  on_key f (err e) = pure (err e)

  -- The next key of a series, which ends at the first error.
  unfoldable pub and_then :
      {A : Type 0} → M W (Result KeyPair) → (KeyPair → M W (Result A)) → M W (Result A)
  unfolding on_key
  and_then m f = m >>= on_key f

  unfoldable pub login_keys : KeyPair → KeyPair → LoginKeys
  login_keys e w = record { encryption_private_key = e; whisper_private_key = w }

  unfoldable pub export_both : M W (Result LoginKeys)
  unfolding and_then login_keys
  export_both =
      and_then (export_key encryption_path private_and_public)
        λ e. and_then (export_key whisper_path private_and_public) λ w. pure (ok (login_keys e w))

  unfoldable pub or_fail : {A : Type 0} → Option Error → M W (Result A) → M W (Result A)
  or_fail none m = m
  or_fail (some e) m = pure (err e)

  unfoldable pub login_ready : M W (Result LoginKeys)
  unfolding export_both or_fail
  login_ready = do e ← keycard_has_keys; or_fail e export_both

  unfoldable pub export_login_keys : M W (Result LoginKeys)
  unfolding login_ready
  export_login_keys = guarded keycard_authorized err login_ready

  -- `rootExportOptions`
  unfoldable pub root_option : Context W → ℕ
  root_option c = if supports_extended_keys c.status then extended_public else public_only

  unfoldable pub export_others : LoginKeys → M W (Result RecoverKeys)
  unfolding and_then root_option
  export_others keys = and_then (export_key eip1581_path public_only) λ e. do
    option ← gets root_option
    and_then (export_key wallet_root_path option) λ r.
        and_then (export_key wallet_path public_only) λ w.
          and_then (export_key master_path public_only) λ m. pure (
            ok (record {
              login_keys = keys;
              eip1581_key = e;
              wallet_root_key = r;
              wallet_key = w;
              master_key = m;
            }))

  unfoldable pub recover_from : Result LoginKeys → M W (Result RecoverKeys)
  unfolding export_others
  recover_from (ok keys) = export_others keys
  recover_from (err e) = pure (err e)

  unfoldable pub recover_ready : M W (Result RecoverKeys)
  unfolding recover_from
  recover_ready = export_login_keys >>= recover_from

  unfoldable pub export_recover_keys : M W (Result RecoverKeys)
  unfolding recover_ready
  export_recover_keys = guarded keycard_authorized err recover_ready

unfoldable pub known_simulation : Option Error → Bool
known_simulation none = true
known_simulation (some e) = is_some (get_simulated_error (error_text e))

-- `SimulateError`, which sets the error
unfoldable pub set_simulated_error : {W : Type 0} → Option Error → M W (Option Error)
unfolding known_simulation
set_simulated_error e c =
    if known_simulation e
    then done none (record c { simulated_error = e })
    else done (some (own unknown_simulation)) c
