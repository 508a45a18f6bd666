-- ===== src/Context/Machine.antt =====
-- The state of `KeycardContextV2`, and the way its methods run: a method ends with a value, or
-- panics, or blocks for ever. The mutex and the scan channel are part of the state, so a second
-- `Lock` and a send that nobody receives are seen.
use status_keycard_go.Prelude.{Bool, true, false, Option, List, ◌∷◌, if◌then◌else◌}
use status_keycard_go.Internal.Errors.{Error}
use status_keycard_go.Internal.Status.{Status, State}
use status_keycard_go.Pairing.{Store}

-- `forceScanC`: nil, made, or closed by `Stop`.
pub data Channel : Type 0 where
  unmade made shut : Channel

pub record Context (W : Type 0) : Type 0 where
  pub world : W
  pub status : Status
  pub signals : List Status  -- what `publishStatus` sent, the last one first
  pub pairings : Store
  pub simulated_error : Option Error
  pub has_context : Bool  -- cardCtx != nil
  pub has_card : Bool  -- card != nil
  pub connected : Bool  -- cmdSet != nil; `c` is set and cleared with it
  pub channel : Channel  -- forceScanC
  pub watching : Bool  -- a `watchActiveReader` is there to receive from forceScanC
  pub locked : Bool  -- cmdSetMutex
  pub running : Bool  -- shutdown != nil

pub data Outcome (W : Type 0) (A : Type 0) : Type 0 where
  done : A → Context W → Outcome W A
  panic : Outcome W A
  stuck : Outcome W A

abbrev pub M : Type 0 → Type 0 → Type 0
M W A = Context W → Outcome W A

module _ {W : Type 0} where
  abbrev pub pure : {A : Type 0} → A → M W A
  pure a c = done a c

  infixl 5 ◌>>=◌ ◌>>◌
  abbrev pub ◌>>=◌ : {A B : Type 0} → M W A → (A → M W B) → M W B
  ◌>>=◌ m f c = elim (m c) [ done a c' ↦ f a c' | panic ↦ panic | stuck ↦ stuck ]

  abbrev pub ◌>>◌ : {B : Type 0} → M W (Unit {0}) → M W B → M W B
  m >> k = m >>= λ _. k

  abbrev pub gets : {A : Type 0} → (Context W → A) → M W A
  gets f c = done (f c) c

  abbrev pub modify : (Context W → Context W) → M W (Unit {0})
  modify f c = done tt (f c)

  abbrev pub update_status : (Status → Status) → M W (Unit {0})
  update_status f = modify (λ c. record c { status = f c.status })

  abbrev pub set_state : State → M W (Unit {0})
  set_state s = update_status (λ t. record t { state = s })

  abbrev pub crash : {A : Type 0} → M W A
  crash _ = panic

  -- A call to the outside world.
  abbrev pub call : {A : Type 0} → (W → A × W) → M W A
  call f c = let (a, w) = f c.world in done a (record c { world = w })

  -- A call of `kc.cmdSet`, which is a nil pointer while no card is connected.
  unfoldable pub command : {A : Type 0} → (W → A × W) → M W A
  command f c = if c.connected then call f c else panic

  -- `defer kc.cmdSetMutex.Unlock()`
  unfoldable pub unlocked : {A : Type 0} → Outcome W A → Outcome W A
  unlocked (done a c) = done a (record c { locked = false })
  unlocked panic = panic
  unlocked stuck = stuck

  -- `kc.cmdSetMutex.Lock()`, and the rest of a method: the mutex is not reentrant.
  unfoldable pub with_mutex : {A : Type 0} → M W A → M W A
  unfolding unlocked
  with_mutex m c = elim c.locked [
    | true ↦ stuck
    | false ↦ unlocked (m (record c { locked = true }))
  ]

  send : Channel → Bool → M W (Unit {0})
  send made true c = done tt (record c { watching = false })
  send made false _ = stuck
  send unmade _ _ = stuck
  send shut _ _ = panic

  -- `forceScan`: an unbuffered send, received by the watcher, which then starts a new detection.
  unfoldable pub force_scan : M W (Unit {0})
  unfolding send
  force_scan c = send c.channel c.watching c

  unfoldable pub publish_status : M W (Unit {0})
  publish_status = modify (λ c. record c { signals = c.status ∷ c.signals })
