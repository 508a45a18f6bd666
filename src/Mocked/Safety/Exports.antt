-- ===== src/Mocked/Safety/Exports.antt =====
-- The handlers of keys and of the metadata are safe: before a key is written, the helper has a map.
use status_keycard_go.Prelude.{
  ℕ, ◌+◌, ◌≡◌, Bool, true, false, Option, none, some, is_some, List, [], ◌∷◌, arith, Text,
}
use status_keycard_go.Flow.Values.{Value, text, array}
use status_keycard_go.Mocked.Cards.{ReaderState, Keycard}
use status_keycard_go.Mocked.Machine.{
  MockedFlow, Host, Outcome, done, panics, pure, load, write, exported, put_exported, make_map,
  ◌>>=◌,
}
use status_keycard_go.Mocked.Credentials.{FlowStatus, Entered, Tried}
use status_keycard_go.Mocked.Exports.{
  export_at, export_place, export_all, ensure_map, export_value, export_paths, with_master,
  export_flags, deliver_export, handle_export_public, deliver_metadata, metadata_of,
  handle_get_metadata,
}
use status_keycard_go.Mocked.Safety.{
  Held, Safe, Ends, Ends-continue, Safe-pure, Safe-bind, Safe-bad_type, safe_rules,
}
use status_keycard_go.Mocked.Safety.Handlers.{Safe-authenticated}

abbrev has_map : Option ℕ → (ℕ → Keycard) → Bool
has_map none cards = false
has_map (some p) cards = is_some (cards p).exported_key

-- The card of the helper has a map of keys.
record Mapped {W : Type 0} (r : ReaderState) (s : MockedFlow W) : Type 0 where
  held : Held r s
  map : has_map s.inserted_keycard_helper s.heap.cards ≡ true

Ends-Held : {W A : Type 0} (r : ReaderState) (o : Outcome W A) → Ends (Mapped r) o → Ends (Held r) o
Ends-Held r (done a t) h = h.held
Ends-Held r (panics p) h = h

module _ {W : Type 0} {r : ReaderState} where
  Safe-export_at : (n : ℕ) (b : Bool) (p : Text) → Safe {W = W} (Mapped r) (export_at n b p)
  unfolding export_at load exported put_exported ◌>>=◌ pure
  Safe-export_at n b p = record { at = λ s h. ground arith }

  Ends-ensure_map : (s : MockedFlow W) → Held r s → Ends (Mapped r) (ensure_map s)
  unfolding ensure_map load write make_map ◌>>=◌ pure
  Ends-ensure_map s h = ground arith

  Safe-export_place :
      (n : ℕ) (b : Bool) (p : Option Text) → Safe {W = W} (Mapped r) (export_place n b p)
  unfolding export_place
  Safe-export_place n b none = Safe-bad_type
  Safe-export_place n b (some p) = Safe-export_at n b p

  Safe-export_all :
      (n : ℕ) (b : Bool) (ps : List (Option Text)) → Safe {W = W} (Mapped r) (export_all n b ps)
  unfolding export_all
  Safe-export_all n b [] = Safe-pure []
  Safe-export_all n b (p ∷ ps) = Safe-bind (export_place n b p) _ (Safe-export_place n b p) (λ k.
      Safe-bind (export_all (n + 1) b ps) _ (Safe-export_all (n + 1) b ps)
        (λ ks. Safe-pure (k ∷ ks)))

  Safe-export_value :
      (b : Bool) (m : FlowStatus) (v : Value) → Safe {W = W} (Mapped r) (export_value b m v)
  unfolding export_value
  Safe-export_value b m (text p) = search (safe_rules, Safe-export_at)
  Safe-export_value b m (array ps) = search (safe_rules, Safe-export_all)
  Safe-export_value b m _ = search safe_rules

  Safe-export_paths :
      (b : Bool) (m : FlowStatus) (v : Option Value) → Safe {W = W} (Held r) (export_paths b m v)
  unfolding export_paths ◌>>=◌
  Safe-export_paths b m none = search safe_rules
  Safe-export_paths b m (some v) = record {
    at = λ s h.
        Ends-continue (Mapped r) (Held r) (ensure_map s) (λ _. export_value b m v)
          (Ends-ensure_map s h)
          (λ _ t k. Ends-Held r (export_value b m v t) ((Safe-export_value b m v).at t k));
  }

module _ {W : Type 0} (host : Host W) {r : ReaderState} where
  Safe-with_master : (b : Bool) (m : FlowStatus) → Safe {W = W} (Held r) (with_master host b m)
  unfolding with_master
  Safe-with_master b m = search safe_rules depth 12

  Safe-deliver_export :
      (m : FlowStatus) (f : Bool × Bool) (e : Entered) (t : Tried)
      → Safe {W = W} (Held r) (deliver_export host m f e t)
  unfolding deliver_export
  Safe-deliver_export m (a, b) e t =
      search (safe_rules, Safe-with_master, Safe-export_paths) depth 8

  Safe-export_flags : Safe {W = W} (Held r) (export_flags host)
  unfolding export_flags
  Safe-export_flags = search safe_rules

  pub Safe-export_public : Safe {W = W} (Held r) (handle_export_public host)
  unfolding handle_export_public
  Safe-export_public =
      search (safe_rules, Safe-authenticated, Safe-export_flags, Safe-deliver_export) depth 8

  Safe-deliver_metadata :
      (m : FlowStatus) (b : Bool) (e : Entered) (t : Tried)
      → Safe {W = W} (Held r) (deliver_metadata host m b e t)
  unfolding deliver_metadata
  Safe-deliver_metadata m b e t = search (safe_rules, Safe-with_master) depth 8

  Safe-metadata_of : (c : Keycard) (b : Bool) → Safe {W = W} (Held r) (metadata_of host c b)
  unfolding metadata_of
  Safe-metadata_of c b = search (safe_rules, Safe-authenticated, Safe-deliver_metadata) depth 8

  pub Safe-get_metadata : Safe {W = W} (Held r) (handle_get_metadata host)
  unfolding handle_get_metadata
  Safe-get_metadata = search (safe_rules, Safe-metadata_of) depth 8
