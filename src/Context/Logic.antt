-- ===== src/Context/Logic.antt =====
-- A logic for methods: total correctness of each combinator.
use status_keycard_go.Prelude.{
  if◌then◌else◌, ◌≡◌, ◌≢◌, refl, Bool, true, false, Option, none, some, ◌⊎◌, is_some,
}
use status_keycard_go.Internal.Errors.{Error}
use status_keycard_go.Internal.Status.{State, Status}
use status_keycard_go.Context.Machine.{
  Context, Outcome, done, panic, stuck, M, ◌>>=◌, made, shut, command, with_mutex, unlocked,
}
use status_keycard_go.Context.Base.{guarded}

-- The method returns, with `P` of its value and of the state that it leaves.
abbrev pub Ends : {W A : Type 0} → (A → Context W → Type 0) → Outcome W A → Type 0
Ends P (done a c) = P a c
Ends P panic = ⊥
Ends P stuck = ⊥

-- `held` says whether the mutex is held.
pub record Inv {W : Type 0} (held : Bool) (c : Context W) : Type 0 where
  pub mutex : c.locked ≡ held
  -- While a card is connected somebody receives from the scan channel.
  pub heard : c.connected ≡ true → (c.channel ≡ made) × (c.watching ≡ true)
  -- `Stop` has not been called.
  pub usable : c.channel ≢ shut
  -- The pointers that the methods read through.
  pub informed : c.connected ≡ true → is_some c.status.app_info ≡ true
  pub reported :
      (c.status.state ≡ State.ready) ⊎ (c.status.state ≡ State.authorized)
      → is_some c.status.app_status ≡ true

-- The invariant, and a fact about the value and the status.
abbrev pub Post : {W A : Type 0} → Bool → (A → Status → Type 0) → A → Context W → Type 0
Post held P a c = Inv held c × P a c.status

-- A method that returns from every state of the invariant, and keeps it.
abbrev pub Keeps : {W A : Type 0} → Bool → M W A → Type 0
Keeps held m = (c : Context _) → Inv held c → Ends (λ _ d. Inv held d) (m c)

module _ {W A : Type 0} where
  pub Ends-mono :
      (P Q : A → Context W → Type 0) (r : Outcome W A)
      → Ends P r
      → ((a : A) (c : Context W) → P a c → Q a c)
      → Ends Q r
  Ends-mono P Q (done a c) h k = k a c h
  Ends-mono P Q panic h k = h
  Ends-mono P Q stuck h k = h

  bind_outcome :
      {B : Type 0} (P : A → Context W → Type 0) (Q : B → Context W → Type 0) (f : A → M W B)
      (r : Outcome W A)
      → Ends P r
      → ((a : A) (c : Context W) → P a c → Ends Q (f a c))
      → Ends Q (elim r as (λ _. Outcome W B) [ done a c ↦ f a c | panic ↦ panic | stuck ↦ stuck ])
  bind_outcome P Q f (done a c) h k = k a c h
  bind_outcome P Q f panic h k = h
  bind_outcome P Q f stuck h k = h

  pub bind-Ends :
      {B : Type 0} (P : A → Context W → Type 0) (Q : B → Context W → Type 0) (m : M W A)
      (f : A → M W B) (c : Context W)
      → Ends P (m c)
      → ((a : A) (d : Context W) → P a d → Ends Q (f a d))
      → Ends Q ((m >>= f) c)
  bind-Ends P Q m f c h k = bind_outcome P Q f (m c) h k

  guarded_by :
      (Q : A → Context W → Type 0) (fail : Error → A) (m : M W A) (c : Context W) (o : Option Error)
      → (o ≡ none → Ends Q (m c))
      → ((e : Error) → o ≡ some e → Q (fail e) c)
      → Ends Q (elim o as (λ _. Outcome W A) [ some e ↦ done (fail e) c | none ↦ m c ])
  guarded_by Q fail m c none pass stop = pass refl
  guarded_by Q fail m c (some e) pass stop = stop e refl

  pub guarded-Ends :
      (Q : A → Context W → Type 0) (test : Context W → Option Error) (fail : Error → A) (m : M W A)
      (c : Context W)
      → (test c ≡ none → Ends Q (m c))
      → ((e : Error) → test c ≡ some e → Q (fail e) c)
      → Ends Q (guarded test fail m c)
  guarded-Ends Q test fail m c pass stop = guarded_by Q fail m c (test c) pass stop

  unlocked-Ends :
      (P : A → Status → Type 0) (r : Outcome W A)
      → Ends (Post true P) r
      → Ends (Post false P) (unlocked r)
  unfolding unlocked
  unlocked-Ends P (done a c) h = (
    record {
      mutex = refl;
      heard = h.0.heard;
      usable = h.0.usable;
      informed = h.0.informed;
      reported = h.0.reported;
    },
    h.1,
  )
  unlocked-Ends P panic h = h
  unlocked-Ends P stuck h = h

  free_by :
      (Q : A → Context W → Type 0) (m : M W A) (c : Context W) (b : Bool)
      → b ≡ false
      → Ends Q (unlocked (m (record c { locked = true })))
      → Ends Q (elim b as (λ _. Outcome W A) [
        | true ↦ stuck
        | false ↦ unlocked (m (record c { locked = true }))
      ])
  free_by Q m c true e h = cc
  free_by Q m c false e h = h

  connected_by :
      {B : Type 0} (Q : B → Context W → Type 0) (k : A → M W B) (r : Outcome W A) (b : Bool)
      → b ≡ true
      → Ends (λ a d. Ends Q (k a d)) r
      → Ends Q (elim (if b then r else panic) as (λ _. Outcome W B) [
        | done a d ↦ k a d
        | panic ↦ panic
        | stuck ↦ stuck
      ])
  connected_by Q k (done a d) true e h = h
  connected_by Q k panic true e h = h
  connected_by Q k stuck true e h = h
  connected_by Q k r false e h = cc

  pub command-Ends :
      {B : Type 0} (Q : B → Context W → Type 0) (f : W → A × W) (k : A → M W B) (c : Context W)
      → c.connected ≡ true
      → Ends Q (k (f c.world).0 (record c { world = (f c.world).1 }))
      → Ends Q ((command f >>= k) c)
  unfolding command
  command-Ends Q f k c e h =
      connected_by Q k (done (f c.world).0 (record c { world = (f c.world).1 })) c.connected e h

  pub with_mutex-Ends :
      (P : A → Status → Type 0) (m : M W A) (c : Context W)
      → c.locked ≡ false
      → Ends (Post true P) (m (record c { locked = true }))
      → Ends (Post false P) (with_mutex m c)
  unfolding with_mutex
  with_mutex-Ends P m c e h = free_by (Post false P) m c c.locked e (unlocked-Ends P _ h)

module _ {W A : Type 0} where
  unlocked_any :
      (P Q : A → Context W → Type 0) (r : Outcome W A)
      → ((a : A) (d : Context W) → P a d → Q a (record d { locked = false }))
      → Ends P r
      → Ends Q (unlocked r)
  unfolding unlocked
  unlocked_any P Q (done a d) k h = k a d h
  unlocked_any P Q panic k h = h
  unlocked_any P Q stuck k h = h

  -- The rule for any two facts, inside the mutex and behind it.
  pub with_mutex_any :
      (P Q : A → Context W → Type 0) (m : M W A) (c : Context W)
      → c.locked ≡ false
      → ((a : A) (d : Context W) → P a d → Q a (record d { locked = false }))
      → Ends P (m (record c { locked = true }))
      → Ends Q (with_mutex m c)
  unfolding with_mutex
  with_mutex_any P Q m c e k h = free_by Q m c c.locked e (unlocked_any P Q _ k h)

-- One command of the card under the mutex, and what is done with its answer.
pub exchange-Ends :
    {W A B : Type 0} (P : B → Status → Type 0) (f : W → A × W) (k : A → M W B) (c : Context W)
    → Inv false c
    → c.connected ≡ true
    → ((d : Context W)
        → Inv true d
        → d.connected ≡ true
        → d.status ≡ c.status
        → Ends (Post true P) (k (f c.world).0 d))
    → Ends (Post false P) (with_mutex (command f >>= k) c)
exchange-Ends P f k c v h body = with_mutex-Ends P (command f >>= k) c v.mutex (
    command-Ends (Post true P) f k (record c { locked = true }) h
      (body (record c { world = (f c.world).1; locked = true })
        (record {
          mutex = refl;
          heard = v.heard;
          usable = v.usable;
          informed = v.informed;
          reported = v.reported;
        })
        h refl))

-- The same rules for the invariant alone.
abbrev pub Returns : {W A : Type 0} → Bool → Outcome W A → Type 0
Returns held r = Ends (λ _ d. Inv held d) r

module _ {W A : Type 0} where
  pub returned :
      (held : Bool) (P : A → Status → Type 0) (r : Outcome W A)
      → Ends (Post held P) r
      → Returns held r
  returned held P r h = Ends-mono (Post held P) (λ _ d. Inv held d) r h (λ a c k. k.0)

module _ {W A : Type 0} where
  pub guarded-Returns :
      (test : Context W → Option Error) (fail : Error → A) (m : M W A) (c : Context W)
      → Inv false c
      → (test c ≡ none → Returns false (m c))
      → Returns false (guarded test fail m c)
  guarded-Returns test fail m c v pass =
      guarded-Ends (λ _ d. Inv false d) test fail m c pass (λ e _. v)

  pub bind-Returns :
      {B : Type 0} (m : M W A) (f : A → M W B) (c : Context W)
      → Returns false (m c)
      → ((a : A) (d : Context W) → Inv false d → Returns false (f a d))
      → Returns false ((m >>= f) c)
  bind-Returns m f c h k = bind-Ends (λ _ d. Inv false d) (λ _ d. Inv false d) m f c h k

  pub exchange-Returns :
      {B : Type 0} (f : W → A × W) (k : A → M W B) (c : Context W)
      → Inv false c
      → c.connected ≡ true
      → ((d : Context W) → Inv true d → d.connected ≡ true → Returns true (k (f c.world).0 d))
      → Returns false (with_mutex (command f >>= k) c)
  exchange-Returns f k c v h body =
      returned false (λ _ _. Unit {0}) (with_mutex (command f >>= k) c)
        (exchange-Ends (λ _ _. Unit {0}) f k c v h
          (λ d w e _.
            Ends-mono (λ _ x. Inv true x) (Post true (λ _ _. Unit {0})) (k (f c.world).0 d)
              (body d w e) (λ a x y. (y, tt))))
