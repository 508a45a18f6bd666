-- ===== src/Pairing/Opening.antt =====
-- `NewStore` on each answer of the file system.
use status_keycard_go.Prelude.{◌≢◌, Option, none, some, Text, []}
use status_keycard_go.Internal.Errors.{Error}
use status_keycard_go.Pairing.{
  Store, FileSystem, ReadResult, contents, not_exist, failed, Parsed, parsed, malformed, load,
  new_store,
}

module _ {W : Type 0} (fs : FileSystem W) where
  made_or_failed :
      (path : Text) (e : Option Error) (w : W)
      → (elim e as (λ _. (Option Store × Option Error) × W) [
        | some err ↦ ((none, some err), w)
        | none ↦ ((some (record { path = path; values = some [] }), none), w)
      ]).0
        ≢ (none, none)
  made_or_failed path none w = λ q. cc
  made_or_failed path (some err) w = λ q. cc

  parsed_or_failed :
      (path : Text) (r : Parsed) (w : W)
      → (elim r as (λ _. (Option Store × Option Error) × W) [
        | parsed v ↦ ((some (record { path = path; values = v }), none), w)
        | malformed e ↦ ((none, some e), w)
      ]).0
        ≢ (none, none)
  parsed_or_failed path (parsed v) w = λ q. cc
  parsed_or_failed path (malformed e) w = λ q. cc

  load_answers : (path : Text) (r : ReadResult) (w : W) → (load fs path r w).0 ≢ (none, none)
  unfolding load
  load_answers path (contents b) w = parsed_or_failed path (fs.unmarshal b) w
  load_answers path (not_exist e) w =
      made_or_failed path (fs.mkdir_all path w).0 (fs.mkdir_all path w).1
  load_answers path (failed e) w = λ q. cc

  -- NewStore returns a store or an error, never neither.
  pub new_store_answers : (path : Text) (w : W) → (new_store fs path w).0 ≢ (none, none)
  unfolding new_store
  new_store_answers path w = load_answers path (fs.read_file path w) w
