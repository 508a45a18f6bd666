-- ===== src/Pairing.antt =====
-- pkg/pairing: the pairings of this host, by the instance of the card, in memory and in a file.
pub mod Laws
pub mod Opening
use status_keycard_go.Prelude.{ℕ, ◌≡◌, Bool, Option, none, some, [], Text, Bytes}
use status_keycard_go.Prelude.Dict.{Dict, lookup, insert, erase}
use status_keycard_go.Internal.Errors.{Error}
use status_keycard_go.Internal.Types.{PairingInfo}

pub record Info : Type 0 where
  pub key : Bytes
  pub index : ℕ

-- `ToPairInfo`
unfoldable pub to_pair_info : PairingInfo → Info
to_pair_info r = record { key = r.key; index = r.index }

-- A Go map of pointers: `none` is the nil map, which is read as empty and cannot be written.
abbrev pub Values : Type 0
Values = Option (Dict (Option Info))

pub record Store : Type 0 where
  pub path : Text
  pub values : Values

-- `os.ReadFile`
pub data ReadResult : Type 0 where
  contents : Bytes → ReadResult
  not_exist : Error → ReadResult
  failed : Error → ReadResult

-- `json.Unmarshal` of the file
pub data Parsed : Type 0 where
  parsed : Values → Parsed
  malformed : Error → Parsed

-- The operating system and the JSON encoding, over a world `W`.
pub record FileSystem (W : Type 0) : Type 0 where
  pub read_file : Text → W → ReadResult
  pub mkdir_all : Text → W → Option Error × W  -- of `filepath.Dir` of the path
  pub write_file : Text → Bytes → W → Option Error × W
  pub marshal : Values → Bytes
  pub unmarshal : Bytes → Parsed

module _ {W : Type 0} (fs : FileSystem W) where
  -- The rest of `NewStore` behind `os.ReadFile`.
  load : Text → ReadResult → W → (Option Store × Option Error) × W
  load path (contents b) w = elim (fs.unmarshal b) [
    | parsed v ↦ ((some (record { path = path; values = v }), none), w)
    | malformed e ↦ ((none, some e), w)
  ]
  load path (not_exist _) w =
      let (e, w') = fs.mkdir_all path w in
      elim e [
        | some err ↦ ((none, some err), w')
        | none ↦ ((some (record { path = path; values = some [] }), none), w')
      ]
  load path (failed e) w = ((none, some e), w)

  unfoldable pub new_store : Text → W → (Option Store × Option Error) × W
  unfolding load
  new_store path w = load path (fs.read_file path w) w

  unfoldable pub save : Store → W → Option Error × W
  save p w = fs.write_file p.path (fs.marshal p.values) w

  -- `Store.Store`; `none` is the panic of an assignment to a nil map.
  unfoldable pub store : Text → Info → Store → W → Option ((Option Error × W) × Store)
  store instance_uid pairing p w = elim p.values [
    | none ↦ none
    | some m ↦
        let p' : Store = record p { values = some (insert instance_uid (some pairing) m) } in
        some (save p' w, p')
  ]

-- `Store.Get`; a missing key and a nil value both read as nil.
abbrev flat : Option (Option Info) → Option Info
flat none = none
flat (some i) = i

unfoldable pub find : Text → Values → Option Info
find instance_uid none = none
find instance_uid (some m) = flat (lookup instance_uid m)

unfoldable pub get : Text → Store → Option Info
unfolding find
get instance_uid p = find instance_uid p.values

-- `Store.Delete`: of the map only, the file keeps the entry.
unfoldable pub delete : Text → Store → Store
delete instance_uid p = elim p.values [
  | none ↦ p
  | some m ↦ record p { values = some (erase instance_uid m) }
]
