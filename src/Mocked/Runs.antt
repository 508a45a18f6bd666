-- ===== src/Mocked/Runs.antt =====
-- Any calls of the mock's interface and any runs of its goroutines, in any order.
use status_keycard_go.Prelude.{
  ℕ, ◌+◌, ◌≡◌, refl, Bool, true, Option, none, some, is_some, List, arith, Text,
}
use status_keycard_go.Prelude.Int.{ℤ}
use status_keycard_go.Internal.Errors.{Error, Result, ok, err}
use status_keycard_go.Flow.Kinds.{
  FlowType, flow_type_of, get_app_info, recover_account, load_account, login, export_public,
  change_pin, change_puk, store_metadata, get_metadata,
}
use status_keycard_go.Mocked.Cards.{
  ReaderState, KeycardState, mocked_keycard_helper, custom, no_reader, no_keycard, keycard_inserted,
  unknown,
}
use status_keycard_go.Mocked.Machine.{MockedFlow, Heap, Host, Outcome, done, panics, ◌>>◌}
use status_keycard_go.Mocked.Storing.{allocated, new_mocked_flow, store_registered, saved_as}
use status_keycard_go.Mocked.Running.{handle, remember_pairing, save_cards, run_at, run_flow}
use status_keycard_go.Mocked.Control.{
  start, resume, cancel, reader_plugged_in, reader_unplugged, insert_keycard, remove_keycard,
  register_keycard, register_custom, with_inserted, with_registered, registered, reset_run,
  prepared,
}
use status_keycard_go.Mocked.Safety.{Held, Ends, Safe, Safe-pure, safe_rules}
use status_keycard_go.Mocked.Safety.Handlers.{
  Safe-app_info, Safe-login, Safe-recover_account, Safe-change_pin, Safe-change_puk,
}
use status_keycard_go.Mocked.Safety.Accounts.{Safe-store_metadata, Safe-load_account}
use status_keycard_go.Mocked.Safety.Exports.{Safe-export_public, Safe-get_metadata}
use status_keycard_go.Pairing.{Store, ReadResult, contents, not_exist, failed, new_store}
use status_keycard_go.Mocked.Storing.{loaded_from, load_registered, opened}
use status_keycard_go.Mocked.Orders.{
  Step, starts, resumes, cancels, plugs_in, unplugs, inserts, removes, registers, edits, runs,
  Reachable, opens, then_step,
}

-- What a run needs in a state of the reader: with a card in it, both cards are there.
abbrev pub Ready : ReaderState → Bool → Bool → Type 0
Ready no_reader card helper = Unit
Ready no_keycard card helper = Unit
Ready keycard_inserted card helper = (card ≡ true) × (helper ≡ true)
Ready unknown card helper = (card ≡ true) × (helper ≡ true)

pub record Inv {W : Type 0} (s : MockedFlow W) : Type 0 where
  pub ready :
      Ready s.current_reader_state (is_some s.inserted_keycard) (is_some s.inserted_keycard_helper)
  pub values : is_some s.pairings.values ≡ true

Ready-all : (r : ReaderState) → Ready r true true
Ready-all no_reader = tt
Ready-all no_keycard = tt
Ready-all keycard_inserted = (refl, refl)
Ready-all unknown = (refl, refl)

module _ {W : Type 0} where
  Held-Inv :
      {r : ReaderState} (o : Outcome W (Unit {0}))
      → ((s : MockedFlow W) → Held r s → Inv s)
      → Ends (Held r) o
      → Ends Inv o
  Held-Inv (done a t) k h = k t h
  Held-Inv (panics p) k h = h

  Held-inserted : (s : MockedFlow W) → Held keycard_inserted s → Inv s
  Held-inserted s h = record { ready = rw h.reader (h.card, h.helper); values = h.values }

  Held-unknown : (s : MockedFlow W) → Held unknown s → Inv s
  Held-unknown s h = record { ready = rw h.reader (h.card, h.helper); values = h.values }

  insert-Inv : (p q : Option ℕ) (s : MockedFlow W) → Inv s → Inv (with_inserted p q s).1
  insert-Inv (some p) (some q) s v = ground arith
  insert-Inv (some p) none s v = v
  insert-Inv none q s v = v

module _ {W : Type 0} (host : Host W) where
  Safe-handle : {r : ReaderState} (t : Option FlowType) → Safe {W = W} (Held r) (handle host t)
  unfolding handle
  Safe-handle (some get_app_info) = Safe-app_info
  Safe-handle (some recover_account) = Safe-recover_account
  Safe-handle (some load_account) = Safe-load_account host
  Safe-handle (some login) = Safe-login
  Safe-handle (some export_public) = Safe-export_public host
  Safe-handle (some change_pin) = Safe-change_pin
  Safe-handle (some change_puk) = Safe-change_puk
  Safe-handle (some store_metadata) = Safe-store_metadata
  Safe-handle (some get_metadata) = Safe-get_metadata host
  Safe-handle _ = Safe-pure tt

  Safe-remember_pairing : {r : ReaderState} → Safe {W = W} (Held r) (remember_pairing host)
  unfolding remember_pairing
  Safe-remember_pairing = search safe_rules depth 8

  Safe-save_cards : {r : ReaderState} → Safe {W = W} (Held r) (save_cards host)
  unfolding save_cards
  Safe-save_cards = record { at = λ s h. ground arith }

  Safe-run :
      {r : ReaderState} (t : Option FlowType)
      → Safe {W = W} (Held r) (handle host t >> remember_pairing host >> save_cards host)
  Safe-run t = search (safe_rules, Safe-handle, Safe-remember_pairing, Safe-save_cards)

  run_at-Inv :
      (r : ReaderState) (s : MockedFlow W)
      → s.current_reader_state ≡ r
      → Inv s
      → Ends Inv (run_at host r s)
  unfolding run_at
  run_at-Inv no_reader s e v = record { ready = v.ready; values = v.values }
  run_at-Inv no_keycard s e v = record { ready = v.ready; values = v.values }
  run_at-Inv keycard_inserted s e v =
      let k : (is_some s.inserted_keycard ≡ true) × (is_some s.inserted_keycard_helper ≡ true) =
        rw e at v.ready in
      Held-Inv _ Held-inserted (
        (Safe-run (flow_type_of s.flow_type)).at s
          (record { reader = e; card = k.0; helper = k.1; values = v.values }))
  run_at-Inv unknown s e v =
      let k : (is_some s.inserted_keycard ≡ true) × (is_some s.inserted_keycard_helper ≡ true) =
        rw e at v.ready in
      Held-Inv _ Held-unknown (
        (Safe-run (flow_type_of s.flow_type)).at s
          (record { reader = e; card = k.0; helper = k.1; values = v.values }))

  run_flow-Inv : (s : MockedFlow W) → Inv s → Ends Inv (run_flow host s)
  unfolding run_flow
  run_flow-Inv s v =
      run_at-Inv s.current_reader_state _ refl (record { ready = v.ready; values = v.values })

  saved-Inv : (b : Result (List ℕ)) (s : MockedFlow W) → Inv s → Inv (saved_as host b s).1
  saved-Inv (ok b) s v = record { ready = v.ready; values = v.values }
  saved-Inv (err e) s v = v

  store-Inv : (s : MockedFlow W) → Inv s → Inv (store_registered host s).1
  unfolding store_registered
  store-Inv s v = search saved-Inv

  registered-Inv : (p : Option Error × MockedFlow W) → Inv p.1 → Inv (registered host p).1
  registered-Inv (none, s) v = v
  registered-Inv (some e, s) v = v

  stored-Inv :
      (i : ℤ) (r : ReaderState) (p q : ℕ) (s : MockedFlow W)
      → is_some s.pairings.values ≡ true
      → Inv (registered host (store_registered host (with_registered i r p q s))).1
  stored-Inv i r p q s v =
      registered-Inv (store_registered host (with_registered i r p q s))
        (store-Inv (with_registered i r p q s) (record { ready = Ready-all r; values = v }))

  custom-Inv :
      (i : ℤ) (r : ReaderState) (p q : Option ℕ) (s : MockedFlow W)
      → Inv s
      → Inv (register_custom host i r p q s).1
  unfolding register_custom
  custom-Inv i r (some p) (some q) s v = stored-Inv i r p q s v.values
  custom-Inv i r (some p) none s v = v
  custom-Inv i r none q s v = v

  register-Inv :
      (i : ℤ) (r : ReaderState) (c : KeycardState) (p q : Option ℕ) (s : MockedFlow W)
      → Inv s
      → Inv (register_keycard host i r c p q s).1
  unfolding register_keycard
  register-Inv i r custom p q s v =
      custom-Inv i r p q (reset_run s) (record { ready = v.ready; values = v.values })
  register-Inv i r c p q s v =
      stored-Inv i r s.heap.next_card (s.heap.next_card + 1)
        (record (reset_run s) {
          heap = allocated mocked_keycard_helper (allocated (prepared c) s.heap);
        })
        v.values

  Step-Inv : {s t : MockedFlow W} → Step host s t → Inv s → Inv t
  unfolding start resume cancel reader_plugged_in reader_unplugged insert_keycard remove_keycard
  Step-Inv (starts t m {s}) v = ground arith
  Step-Inv (resumes m {s}) v = ground arith
  Step-Inv (cancels {s}) v = ground arith
  Step-Inv (plugs_in {s}) v = ground arith
  Step-Inv (unplugs {s}) v = ground arith
  Step-Inv (inserts i {s}) v = insert-Inv _ _ s v
  Step-Inv (removes {s}) v = ground arith
  Step-Inv (registers i r c p q {s}) v = register-Inv i r c p q s v
  Step-Inv (edits h {s}) v = record { ready = v.ready; values = v.values }
  Step-Inv (runs {s} {t} {a} some_left e) v = rw e at (run_flow-Inv s v)

  loaded-reader :
      (r : ReadResult) (s : MockedFlow W)
      → (loaded_from host r s).1.current_reader_state ≡ s.current_reader_state
  unfolding loaded_from
  loaded-reader (contents b) s = refl
  loaded-reader (not_exist e) s = refl
  loaded-reader (failed e) s = refl

  -- A flow that was opened has no card in its reader.
  Opened : (Option (MockedFlow W) × Option Error) × W → Type 0
  Opened ((none, e), w) = Unit
  Opened ((some s, e), w) = s.current_reader_state ≡ no_reader

  opened-Opened :
      (dir : Text) (p : (Option Store × Option Error) × W) (h : Heap) → Opened (opened host dir p h)
  unfolding Opened load_registered
  opened-Opened dir ((none, e), w) h = tt
  opened-Opened dir ((some p, some e), w) h = tt
  opened-Opened dir ((some p, none), w) h = loaded-reader _ _

  -- In every state that is reached in any order, with a card in the reader both cards are there, and
  -- the pairings are not a nil map.
  pub Reachable-Inv : {s : MockedFlow W} → Reachable host s → Inv s
  unfolding new_mocked_flow Opened
  Reachable-Inv (opens dir h w {w'} {e} {s} p v) =
      let k : Opened ((some s, e), w') = rw p at (opened-Opened dir (new_store host.fs dir w) h) in
      record { ready = rw k tt; values = v }
  Reachable-Inv (then_step r s) = Step-Inv s (Reachable-Inv r)

  -- In every state that the calls of the mock, the runs of its goroutines and changes of its cards by
  -- the caller can reach in any order, from a map of pairings that is not nil, a further run returns
  -- or panics because of a parameter: one of the wrong type, or a path outside of the wallet root. It
  -- never reads a nil pointer and never writes to a nil map.
  pub run_flow-Ends : {s : MockedFlow W} → Reachable host s → Ends Inv (run_flow host s)
  run_flow-Ends {s} r = run_flow-Inv s (Reachable-Inv r)
