-- ===== src/Tests/Files.antt =====
-- A file system with one file, which holds the pairings in an encoding that is read from the right.
use status_keycard_go.Prelude.{
  ℕ, ◌++◌, ◌≡◌, ap, refl, Option, none, some, List, [], ◌∷◌, zero, suc, Text, Bytes, codes, text_eq,
  if◌then◌else◌,
}
use status_keycard_go.Prelude.Dict.{Dict, insert}
use status_keycard_go.Pairing.{
  Info, Store, Values, FileSystem, contents, parsed, get, new_store, store, save,
}
use status_keycard_go.Pairing.Laws.{store-new_store}
use status_keycard_go.Tests.World.{known_pairings, pair_info}

-- What has been read behind a place: the rest of a text, the texts of an entry, the entries.
pub record Read : Type 0 where
  pub text : Text
  pub texts : List Text
  pub entries : Dict (Option Info)
  pub any : Values

abbrev pub entry_of : List Text → Text × Option Info
entry_of (k ∷ i ∷ (n ∷ []) ∷ []) = (k, some (record { key = i; index = n }))
entry_of (k ∷ _) = (k, none)
entry_of [] = ([], none)

abbrev pub token : ℕ → Read → Read
token zero r = record r { text = []; texts = r.text ∷ r.texts }
token (suc zero) r = record r { texts = []; entries = entry_of r.texts ∷ r.entries }
token (suc (suc zero)) r = record r { any = some r.entries }
token (suc (suc (suc c))) r = record r { text = c ∷ r.text }

abbrev pub read_back : Bytes → Read
read_back [] = record { text = []; texts = []; entries = []; any = none }
read_back (b ∷ bs) = token b (read_back bs)

abbrev pub put_text : Text → Bytes → Bytes
put_text [] rest = rest
put_text (c ∷ cs) rest = suc (suc (suc c)) ∷ put_text cs rest

abbrev pub put_entry : Text × Option Info → Bytes → Bytes
put_entry (k, none) rest = 1 ∷ 0 ∷ put_text k rest
put_entry (k, some i) rest =
    1 ∷ 0 ∷ put_text k (0 ∷ put_text i.key (0 ∷ put_text (i.index ∷ []) rest))

abbrev pub put_entries : Dict (Option Info) → Bytes
put_entries [] = []
put_entries (e ∷ es) = put_entry e (put_entries es)

abbrev pub put : Values → Bytes
put none = []
put (some m) = 2 ∷ put_entries m

read_text :
    (t : Text) (rest : Bytes)
    → read_back (put_text t rest) ≡ record (read_back rest) { text = t ++ (read_back rest).text }
read_text [] rest = refl
read_text (c ∷ cs) rest = rw (read_text cs rest) refl

abbrev clean : Dict (Option Info) → Read
clean m = record { text = []; texts = []; entries = m; any = none }

++-nil : (t : Text) → t ++ [] ≡ t
++-nil [] = refl
++-nil (c ∷ t) = rw (++-nil t) refl

read_entries : (m : Dict (Option Info)) → read_back (put_entries m) ≡ clean m
read_entries [] = refl
read_entries ((k, none) ∷ m) = simp (read_text k (put_entries m), read_entries m, ++-nil k) refl
read_entries ((k, some i) ∷ m) =
    simp
      (
        read_text k (0 ∷ put_text i.key (0 ∷ put_text (i.index ∷ []) (put_entries m))),
        read_text i.key (0 ∷ put_text (i.index ∷ []) (put_entries m)),
        read_entries m,
        ++-nil k,
        ++-nil i.key,
      )
      refl

read_put : (v : Values) → (read_back (put v)).any ≡ v
read_put none = refl
read_put (some m) = rw (read_entries m) refl

-- The world is the content of the file.
abbrev pub one_file : FileSystem Bytes
one_file = record {
  read_file = λ _ w. contents w;
  mkdir_all = λ _ w. (none, w);
  write_file = λ _ b w. (none, b);
  marshal = put;
  unmarshal = λ b. parsed (read_back b).any;
}

abbrev grown : Store
grown = record known_pairings {
  values = some ((codes "cafe", some pair_info) ∷ (codes "beef", some pair_info) ∷ []);
}

stored :
    store one_file (codes "beef") pair_info known_pairings []
    ≡ some ((none, put grown.values), grown)
unfolding store save insert text_eq
stored = refl

store-new_store_example :
    (q : Store) × (new_store one_file (codes "p") (put grown.values)
      ≡ ((some q, none), put grown.values))
    × ((j : Text)
        → get j q ≡ (if text_eq (codes "beef") j then some pair_info else get j known_pairings))
store-new_store_example =
    store-new_store one_file (λ v. (v, ap parsed (read_put v), λ k. refl)) (λ path b w h. refl)
      (codes "beef") pair_info known_pairings [] (put grown.values) stored
