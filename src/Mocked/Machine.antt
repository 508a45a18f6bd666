-- ===== src/Mocked/Machine.antt =====
-- pkg/flow/mocked/mocked_flow.go: the struct MockedKeycardFlow, the cards and maps in memory that
-- its pointers lead to, and the monad in which its handlers run: a handler returns or panics.
use status_keycard_go.Prelude.{
  ℕ, ◌+◌, Bool, false, Option, none, some, List, [], ◌∷◌, if◌then◌else◌, ◌==◌, Text,
}
use status_keycard_go.Prelude.Int.{ℤ}
use status_keycard_go.Prelude.Dict.{Dict, lookup, insert}
use status_keycard_go.Internal.Errors.{Error, Result}
use status_keycard_go.Internal.Types.{KeyPair}
use status_keycard_go.Pairing.{Store, Info, FileSystem, save}
use status_keycard_go.Flow.Values.{Value, text, boolean, Action, action_text}
use status_keycard_go.Flow.Control.{RunState, idle, paused, Signal, action, flow_result}
use status_keycard_go.Flow.Session.{found}
use status_keycard_go.Mocked.Cards.{
  ReaderState, Keycard, Stored, blank_keycard, no_keys, helper_keys,
}

-- What the pointers lead to: an address is the number of the allocation.
pub record Heap : Type 0 where
  pub cards : ℕ → Keycard
  pub next_card : ℕ
  pub maps : ℕ → Dict KeyPair
  pub next_map : ℕ

abbrev pub update : {A : Type 0} → (ℕ → A) → ℕ → A → ℕ → A
update f p a q = if p == q then a else f q

-- At the start of the program there is the map of `mockedKeycardHelper`, at the address 0.
abbrev pub first_heap : Heap
first_heap = record {
  cards = λ _. blank_keycard;
  next_card = 0;
  maps = λ _. helper_keys;
  next_map = 1;
}

-- A `map[int]*MockedKeycard`
abbrev pub Cards : Type 0 → Type 0
Cards A = List (ℤ × Option A)

pub record MockedFlow (W : Type 0) : Type 0 where
  pub flow_type : ℕ
  pub state : RunState
  pub params : Option (Dict Value)
  pub pairings : Store
  pub store_file_path : Text
  pub initial_reader_state : ReaderState
  pub current_reader_state : ReaderState
  pub registered_keycards : Cards ℕ
  pub registered_keycard_helpers : Cards ℕ
  pub inserted_keycard : Option ℕ
  pub inserted_keycard_helper : Option ℕ
  pub heap : Heap
  pub signals : List (Signal Value)
  pub runs : ℕ  -- the goroutines of `runFlow` that have not run yet
  pub world : W

-- What the mock uses of the world besides the files: math/rand and the encoding of its cards.
-- Decoding gives what could be read before the first error.
pub record Host (W : Type 0) : Type 0 where
  pub fs : FileSystem W
  pub rand_intn : ℕ → W → ℕ × W
  pub marshal_cards : Cards Stored × Cards Stored → Result (List ℕ)
  pub unmarshal_cards : List ℕ → (Cards Stored × Cards Stored) × Option Error
  pub cards_path : Text → Text  -- filepath.Join(filepath.Dir(dir), "mocked_keycards.json")

pub data Panic : Type 0 where
  nil_pointer nil_map bad_type bad_path : Panic

pub data Outcome (W A : Type 0) : Type 0 where
  done : A → MockedFlow W → Outcome W A
  panics : Panic → Outcome W A

abbrev pub M : Type 0 → Type 0 → Type 0
M W A = MockedFlow W → Outcome W A

abbrev pub key_at : Option KeyPair → KeyPair
key_at none = no_keys
key_at (some k) = k

abbrev pub key_in : Option ℕ → Text → Heap → KeyPair
key_in none path h = no_keys
key_in (some m) path h = key_at (lookup path (h.maps m))

module _ {W : Type 0} where
  unfoldable pub pure : {A : Type 0} → A → M W A
  pure a s = done a s

  unfoldable pub crash : {A : Type 0} → Panic → M W A
  crash p s = panics p

  unfoldable pub gets : {A : Type 0} → (MockedFlow W → A) → M W A
  gets f s = done (f s) s

  abbrev pub continue : {A B : Type 0} → Outcome W A → (A → M W B) → Outcome W B
  continue (done a t) f = f a t
  continue (panics p) f = panics p

  infixl 5 ◌>>=◌ ◌>>◌
  unfoldable pub ◌>>=◌ : {A B : Type 0} → M W A → (A → M W B) → M W B
  (m >>= f) s = continue (m s) f

  abbrev pub ◌>>◌ : {B : Type 0} → M W (Unit {0}) → M W B → M W B
  m >> k = m >>= λ _. k

  -- `*p`
  unfoldable pub load : (MockedFlow W → Option ℕ) → M W Keycard
  load place s = elim (place s) [ none ↦ panics nil_pointer | some p ↦ done (s.heap.cards p) s ]

  abbrev pub with_card : ℕ → Keycard → MockedFlow W → MockedFlow W
  with_card p c s = record s { heap = record s.heap { cards = update s.heap.cards p c } }

  -- `*p = c`
  unfoldable pub write : (MockedFlow W → Option ℕ) → Keycard → M W (Unit {0})
  write place c s = elim (place s) [
    | none ↦ panics nil_pointer
    | some p ↦ done tt (with_card p c s)
  ]

  abbrev pub inserted : M W Keycard
  inserted = load (λ s. s.inserted_keycard)

  abbrev pub put_inserted : Keycard → M W (Unit {0})
  put_inserted = write (λ s. s.inserted_keycard)

  abbrev pub helper : M W Keycard
  helper = load (λ s. s.inserted_keycard_helper)

  abbrev pub put_helper : Keycard → M W (Unit {0})
  put_helper = write (λ s. s.inserted_keycard_helper)

  -- `v, ok := mkf.params[k]`
  unfoldable pub param : Text → M W (Option Value)
  param k s = done (found k s.params) s

  -- `if v, ok := mkf.params[k]; ok { x = v.(string) }`
  unfoldable pub as_string : Option Value → M W Text
  as_string none = pure []
  as_string (some (text t)) = pure t
  as_string (some v) = crash bad_type

  unfoldable pub string_param : Text → M W Text
  unfolding as_string
  string_param k = param k >>= as_string

  unfoldable pub as_flag : Option Value → M W Bool
  as_flag none = pure false
  as_flag (some (boolean b)) = pure b
  as_flag (some v) = crash bad_type

  unfoldable pub bool_param : Text → M W Bool
  unfolding as_flag
  bool_param k = param k >>= as_flag

  -- `mkf.state = flow.Paused; signal.Send(action, status)`
  unfoldable pub ask : Action → Dict Value → M W (Unit {0})
  ask a status s =
      done tt (record s { state = paused; signals = action (action_text a) status ∷ s.signals })

  -- `signal.Send(flow.FlowResult, status)`
  unfoldable pub send_result : Dict Value → M W (Unit {0})
  send_result status s = done tt (record s { signals = flow_result status ∷ s.signals })

  -- `mkf.state = flow.Idle; signal.Send(flow.FlowResult, status)`
  unfoldable pub finish : Dict Value → M W (Unit {0})
  finish status s = done tt (record s { state = idle; signals = flow_result status ∷ s.signals })

  -- `c.ExportedKey[path]`; a nil map is read as empty.
  unfoldable pub exported : Keycard → Text → M W KeyPair
  exported c path s = done (key_in c.exported_key path s.heap) s

  abbrev pub with_key : ℕ → Text → KeyPair → MockedFlow W → MockedFlow W
  with_key m path k s = record s {
    heap = record s.heap { maps = update s.heap.maps m (insert path k (s.heap.maps m)) };
  }

  -- `c.ExportedKey[path] = k`
  unfoldable pub put_exported : Keycard → Text → KeyPair → M W (Unit {0})
  put_exported c path k s = elim c.exported_key [
    | none ↦ panics nil_map
    | some m ↦ done tt (with_key m path k s)
  ]

  -- `make(map[string]internal.KeyPair)`
  unfoldable pub make_map : M W ℕ
  make_map s = done s.heap.next_map (record s {
    heap = record s.heap {
      maps = update s.heap.maps s.heap.next_map [];
      next_map = s.heap.next_map + 1;
    };
  })

module _ {W : Type 0} (host : Host W) where
  unfoldable pub rand_intn : ℕ → M W ℕ
  rand_intn n s = let (i, w) = host.rand_intn n s.world in done i (record s { world = w })

  -- `mkf.pairings.Store(uid, info)`, where the pointer may be nil.
  unfoldable pub store_pairing : Text → Option Info → M W (Option Error)
  store_pairing uid info s = elim s.pairings.values [
    | none ↦ panics nil_map
    | some m ↦
        let p : Store = record s.pairings { values = some (insert uid info m) } in
        let (e, w) = save host.fs p s.world in done e (record s { pairings = p; world = w })
  ]
