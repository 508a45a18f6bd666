-- ===== src/Service/Safety.antt =====
-- No request crashes or blocks the service, and each keeps the invariant of its context.
use status_keycard_go.Prelude.{◌≡◌, ◌≢◌, refl, false, Option, none, some, arith, Text}
use status_keycard_go.Internal.Errors.{Error, Simulated}
use status_keycard_go.Pairing.{Store}
use status_keycard_go.Card.{Card}
use status_keycard_go.Context.Machine.{
  Context, Outcome, done, panic, stuck, M, ◌>>=◌, gets, call, publish_status,
}
use status_keycard_go.Context.Base.{reset_card_connection, simulate_error}
use status_keycard_go.Context.Reset.{or_else}
use status_keycard_go.Context.Export.{set_simulated_error}
use status_keycard_go.Context.Life.{new_context, note_context, started, start, stop}
use status_keycard_go.Context.Commands.{get_status, load_mnemonic}
use status_keycard_go.Context.Logic.{Ends, Inv, Keeps, Returns, bind-Returns, bind-Ends}
use status_keycard_go.Context.Invariant.Commands.{load_mnemonic-Keeps}
use status_keycard_go.Service.Requests.{
  Holder, absent, present, Service, Reply, Served, served, crashed, blocked,
}
use status_keycard_go.Service.Handlers.{
  finish, with_context, validated, validated_key, begin, store_opened, stopped, serve_stop,
  load_key, only_error,
}

-- The context, if there is one, satisfies the invariant.
abbrev pub SoundHolder : {W : Type 0} → Holder W → Type 0
SoundHolder (absent w) = Unit {0}
SoundHolder (present c) = Inv false c

abbrev pub IsSound : {W : Type 0} → Service W → Type 0
IsSound s = SoundHolder s.holder

-- The request was answered, and left the service sound.
abbrev pub Soundly : {W : Type 0} → Served W → Type 0
Soundly (served _ _ s) = IsSound s
Soundly crashed = ⊥
Soundly blocked = ⊥

module _ {W A : Type 0} (f : A → Reply × Option Error) where
  pub finish-Soundly :
      (sim : Option Error) (r : Outcome W A) → Returns false r → Soundly (finish f sim r)
  unfolding finish
  finish-Soundly sim (done a c) h = h
  finish-Soundly sim panic h = h
  finish-Soundly sim stuck h = h

  holder-Soundly :
      (m : M W A) (h : Holder W) (sim : Option Error)
      → Keeps false m
      → SoundHolder h
      → Soundly (with_context f m (record { holder = h; simulate = sim }))
  unfolding with_context
  holder-Soundly m (absent w) sim k v = tt
  holder-Soundly m (present c) sim k v = finish-Soundly sim (m c) (k c v)

  pub with_context-Soundly :
      (m : M W A) (s : Service W) → Keeps false m → IsSound s → Soundly (with_context f m s)
  with_context-Soundly m s k v = holder-Soundly m s.holder s.simulate k v

module _ {W : Type 0} where
  pub validated-Keeps :
      (e : Option Error) (m : M W (Option Error)) → Keeps false m → Keeps false (validated e m)
  unfolding validated
  validated-Keeps none m k c v = k c v
  validated-Keeps (some x) m k c v = v

  pub validated_key-Keeps :
      (e : Option Error) (m : M W (Reply × Option Error))
      → Keeps false m
      → Keeps false (validated_key e m)
  unfolding validated_key
  validated_key-Keeps none m k c v = k c v
  validated_key-Keeps (some x) m k c v = v

  pub set_simulated_error-Keeps : (e : Option Error) → Keeps false (set_simulated_error {W = W} e)
  unfolding set_simulated_error
  set_simulated_error-Keeps e c v = ground arith

  new_context-Inv : (p : Store) (w : W) → Inv false (new_context p w)
  unfolding new_context
  new_context-Inv p w = ground arith

  pub get_status-Keeps : Keeps false (gets {W = W} get_status)
  get_status-Keeps c v = v

module _ {W : Type 0} (card : Card W) where
  abbrev Fresh : Context W → Type 0
  Fresh c = Inv false c × (c.connected ≡ false)

  note_context-Ends :
      (e : Option Error) (c : Context W) → Fresh c → Ends (λ _ d. Fresh d) (note_context card e c)
  unfolding note_context
  note_context-Ends none c h = ground arith
  note_context-Ends (some e) c h = h

  simulate_error-Ends :
      (e : Option Error) (t : Simulated) (c : Context W)
      → Fresh c
      → Ends (λ _ d. Fresh d) (simulate_error card e t c)
  unfolding simulate_error reset_card_connection
  simulate_error-Ends e t c h = ground arith

  started-Ends : (e : Option Error) (c : Context W) → Fresh c → Returns false (started card e c)
  unfolding started publish_status
  started-Ends none c h = ground arith
  started-Ends (some e) c h = ground arith

  -- `Start`, on a context with no card.
  start-Ends : (c : Context W) → Fresh c → Returns false (start card c)
  unfolding start
  start-Ends c h =
      bind-Ends (λ _ d. Fresh d) (λ _ d. Inv false d) (call card.establish >>= note_context card) _
        c (note_context-Ends _ (record c { world = (card.establish c.world).1 }) (ground arith))
        (λ e d k.
          bind-Ends (λ _ x. Fresh x) (λ _ x. Inv false x)
            (λ x. simulate_error card e Simulated.no_pcsc x) (started card) d
            (simulate_error-Ends e Simulated.no_pcsc d k) started-Ends)

  or_else-Ends :
      (e : Option Error) (m : M W (Option Error)) (c : Context W)
      → Inv false c
      → Returns false (m c)
      → Returns false (or_else card e m c)
  unfolding or_else
  or_else-Ends none m c v h = h
  or_else-Ends (some x) m c v h = v

  set_simulated_error-Ends :
      (e : Option Error) (c : Context W) → Fresh c → Ends (λ _ d. Fresh d) (set_simulated_error e c)
  unfolding set_simulated_error
  set_simulated_error-Ends e c h = ground arith

  begin-Returns : (sim : Option Error) (c : Context W) → Fresh c → Returns false (begin card sim c)
  unfolding begin
  begin-Returns sim c h =
      bind-Ends (λ _ d. Fresh d) (λ _ d. Inv false d) (set_simulated_error sim)
        (λ e. or_else card e (start card)) c (set_simulated_error-Ends sim c h)
        (λ e d k. or_else-Ends e (start card) d k.0 (start-Ends d k))

  stop-Ends : (c : Context W) → Inv false c → Ends (λ _ _. Unit {0}) (stop card c)
  unfolding stop
  stop-Ends c v = ground arith

  pub store_opened-Soundly :
      (sim : Option Error) (r : (Option Store × Option Error) × W)
      → r.0 ≢ (none, none)
      → Soundly (store_opened card sim r)
  unfolding store_opened new_context
  store_opened-Soundly sim ((p, some e), w) n = tt
  store_opened-Soundly sim ((none, none), w) n = absurd (n refl)
  store_opened-Soundly sim ((some p, none), w) n =
      finish-Soundly only_error sim (begin card sim (new_context p w))
        (begin-Returns sim (new_context p w) (new_context-Inv p w, fresh p w))
    where
      fresh : (p : Store) (w : W) → (new_context p w).connected ≡ false
      fresh p w = refl

  pub stop-Soundly :
      (h : Holder W) (sim : Option Error)
      → SoundHolder h
      → Soundly (serve_stop card (record { holder = h; simulate = sim }))
  unfolding serve_stop
  stop-Soundly (absent w) sim v = tt
  stop-Soundly (present c) sim v = ended (stop card c) (stop-Ends c v)
    where
      ended : (r : Outcome W (Unit {0})) → Ends (λ _ _. Unit {0}) r → Soundly (stopped sim r)
      ended (done a d) h = tt
      ended panic h = h
      ended stuck h = h

  pub load_key-Keeps : (m p : Text) → Keeps false (load_key card m p)
  unfolding load_key
  load_key-Keeps m p c v =
      bind-Returns (load_mnemonic card m p) _ c (load_mnemonic-Keeps card m p c v) (λ r d w. w)
