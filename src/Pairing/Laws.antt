-- ===== src/Pairing/Laws.antt =====
-- The store as a map, and as a file.
use status_keycard_go.Prelude.{
  ◌≡◌, Option, none, some, arith, Text, text_eq, text_eq_refl, refl, if◌then◌else◌, Bytes,
}
use status_keycard_go.Prelude.Dict.{lookup-insert, lookup-erase}
use status_keycard_go.Internal.Errors.{Error}
use status_keycard_go.Pairing.{
  Info, Store, Values, contents, parsed, FileSystem, load, new_store, store, save, find, get,
  delete,
}

find-delete :
    (k j : Text) (v : Values) (path : Text)
    → find j (delete k (record { path = path; values = v })).values
      ≡ (if text_eq k j then none else find j v)
unfolding find delete
find-delete k j none path = ground arith
find-delete k j (some m) path = ground (arith, lookup-erase k j m)

-- After a Delete of one instance a Get of it finds nothing, and a Get of any other instance finds
-- what it found before.
pub get-delete :
    (k j : Text) (p : Store) → get j (delete k p) ≡ (if text_eq k j then none else get j p)
unfolding get
get-delete k j p = find-delete k j p.values p.path

module _ {W : Type 0} (fs : FileSystem W) where
  store_by :
      (k j : Text) (i : Info) (v : Values) (path : Text) (w : W) {r : Option Error × W} {p' : Store}
      → store fs k i (record { path = path; values = v }) w ≡ some (r, p')
      → (p'.path ≡ path)
        × (find j p'.values ≡ (if text_eq k j then some i else find j v))
        × (r ≡ save fs p' w)
  unfolding store find
  store_by k j i none path w h = cc
  store_by k j i (some m) path w h = ground (arith, lookup-insert k j (some i) m)

  -- If a Store of a pairing returns no error, a NewStore on the same path succeeds then and finds
  -- the new pairing under its instance and every other pairing as it was. The encoding has to give
  -- the values back, and a file that was written with no error has to be read back.
  pub store-new_store :
      ((v : Values)
        → (v' : Values) × (fs.unmarshal (fs.marshal v) ≡ parsed v')
          × ((k : Text) → find k v' ≡ find k v))
      → ((path : Text) (b : Bytes) (w : W)
          → (fs.write_file path b w).0 ≡ none
          → fs.read_file path (fs.write_file path b w).1 ≡ contents b)
      → (k : Text) (i : Info) (p : Store) (w w' : W) {p' : Store}
      → store fs k i p w ≡ some ((none, w'), p')
      → (q : Store) × (new_store fs p.path w' ≡ ((some q, none), w'))
        × ((j : Text) → get j q ≡ (if text_eq k j then some i else get j p))
  unfolding new_store load get save
  store-new_store codec written k i p w w' {p'} h =
      let (v, parses, same) = codec p'.values in
      let (at_path, _, saved) = store_by k k i p.values p.path w h in
      let b = fs.marshal p'.values in
      let reads : fs.read_file p.path w' ≡ contents b =
        cc (written p'.path b w (cc saved), at_path, saved) in
      (
        record { path = p.path; values = v },
        rw (reads, load, parses),
        λ j. rw (same j) ((store_by k j i p.values p.path w h).1),
      )

  -- A Get of the instance that was stored finds the pairing, whatever became of the file.
  pub get-store :
      (k : Text) (i : Info) (p : Store) (w : W) {r : Option Error × W} {p' : Store}
      → store fs k i p w ≡ some (r, p')
      → get k p' ≡ some i
  unfolding get
  get-store k i p w h = rw ((store_by k k i p.values p.path w h).1, text_eq_refl k) refl
