-- ===== src/Shared/Exclusion.antt =====
-- The two interfaces exclude each other, whatever the calls and the steps of the flow's goroutine are.
use status_keycard_go.Prelude.{
  sym, ℕ, ◌≡◌, ◌≢◌, ◌∙◌, [], ◌∷◌, refl, ◌⊎◌, inl, inr, arith, Bool, true, false, not, Option, none,
  some, if◌then◌else◌,
}
use mathlib.Core.Path.{subst}
use status_keycard_go.Prelude.Dict.{Dict}
use status_keycard_go.Internal.Errors.{Error, Result, ok, err}
use status_keycard_go.Pairing.{Store, FileSystem, new_store}
use status_keycard_go.Card.{Card}
use status_keycard_go.Context.Invariant.{Answers}
use status_keycard_go.Context.Invariant.Data.{Decodes}
use status_keycard_go.Context.Invariant.Reset.{Selects}
use status_keycard_go.Service.Validation.{Validator}
use status_keycard_go.Service.Requests.{
  Holder, absent, present, Service, Request, Reply, Served, served,
}
use status_keycard_go.Service.Requests
use status_keycard_go.Service.Handlers.{serve}
use status_keycard_go.Service.Safety.{SoundHolder, IsSound, Soundly}
use status_keycard_go.Service.Soundness.{serve-Soundly}
use status_keycard_go.Flow.Values.{Value}
use status_keycard_go.Flow.Control.{
  Flow, FlowError, Called, returned, new_flow, start, resume, cancel, already_running, send_at,
  wake_up, merge, resume_with, insert_all,
}
use status_keycard_go.Flow.Control
use status_keycard_go.Shared.{
  FlowApi, Library, Codec, Call, init_flow, start_flow, resume_flow, cancel_flow, init_rpc,
  reset_api, mocked_call, call_rpc, Answered, answered, replied, crashed, blocked, flow_api,
  check_api, excluded, unless_refused, flow_opened, with_flow, with_params, flow_called, registered,
  of_served, with_request, or_empty, outside, moved, perform,
}

-- The service is as its own theorem wants it, and only one of service and flow is offered.
pub record Sound {W : Type 0} (l : Library W) : Type 0 where
  pub service : IsSound l.service
  pub exclusive : (l.flow ≡ none) ⊎ (l.rpc ≡ false)

-- A call was answered and left a sound library; `Allowed` says when it may panic, and `Blocks` when it
-- may block.
abbrev pub AnsweredSoundly : {W : Type 0} → Type 0 → Type 0 → Answered W → Type 0
AnsweredSoundly Allowed Blocks (answered _ l) = Sound l
AnsweredSoundly Allowed Blocks (replied _ _ l) = Sound l
AnsweredSoundly Allowed Blocks crashed = Allowed
AnsweredSoundly Allowed Blocks blocked = Blocks

abbrev pub NilFlow : Option FlowApi → Type 0
NilFlow none = ⊥
NilFlow (some f) = f.control.params ≡ none

-- Only a Resume of a flow with nil parameters may.
abbrev pub MayPanic : {W : Type 0} → Call → Library W → Type 0
MayPanic (resume_flow _) l = NilFlow l.flow
MayPanic _ l = ⊥

-- The flow is paused and its goroutine is at another place than the receive in a pause.
abbrev pub Unheard : Option FlowApi → Type 0
Unheard none = ⊥
Unheard (some f) = (f.control.state ≡ Control.paused) × (f.control.position ≢ Control.waiting)

-- Only a Resume or a Cancel may, of such a flow.
abbrev pub MayBlock : {W : Type 0} → Call → Library W → Type 0
MayBlock (resume_flow _) l = Unheard l.flow
MayBlock cancel_flow l = Unheard l.flow
MayBlock _ l = ⊥

abbrev Returns : Called Value → Type 0
Returns r = (e : Option FlowError) × (g : Flow Value) × (r ≡ returned e g)

abbrev Blocking : Called Value → Flow Value → Type 0
Blocking r f = (r ≡ Control.blocked) × (f.state ≡ Control.paused) × (f.position ≢ Control.waiting)

woken_ends :
    (f : Flow Value) (p : Control.Position)
    → f.position ≡ p
    → Returns (send_at p f) ⊎ ((send_at p f ≡ Control.blocked) × (f.position ≢ Control.waiting))
unfolding send_at
woken_ends f Control.waiting h = inl (none, record f { position = Control.woken }, refl)
woken_ends f Control.ended h = inr (refl, λ k. cc (h, k))
woken_ends f Control.working h = inr (refl, λ k. cc (h, k))
woken_ends f Control.connecting h = inr (refl, λ k. cc (h, k))
woken_ends f Control.checked h = inr (refl, λ k. cc (h, k))
woken_ends f Control.woken h = inr (refl, λ k. cc (h, k))
woken_ends f Control.leaving h = inr (refl, λ k. cc (h, k))

cancel_ends : (f : Flow Value) → Returns (cancel f) ⊎ Blocking (cancel f) f
unfolding cancel wake_up
cancel_ends f = elim (Control.RunState-discrete f.state Control.idle) [
  | yes h ↦ inl (some Control.cannot_cancel_idle, f, ground arith)
  | no h ↦ elim (Control.RunState-discrete f.state Control.paused) [
    | no k ↦ inl (none, record f { state = Control.cancelling }, ground arith)
    | yes k ↦ elim (woken_ends (record f { state = Control.cancelling }) f.position refl) [
      | inl (e, g, q) ↦ inl (e, g, ground (arith, q))
      | inr (q, n) ↦ inr (ground (arith, q), k, n)
    ]
  ]
]

abbrev Ending : Called Value → Flow Value → Type 0
Ending r f = Returns r ⊎ ((r ≡ Control.crashed) × (f.params ≡ none)) ⊎ Blocking r f

sent_ends :
    (g f : Flow Value)
    → f.state ≡ Control.paused
    → g.position ≡ f.position
    → Ending (send_at g.position g) f
sent_ends g f k e = elim (woken_ends g g.position refl) [
  | inl x ↦ inl x
  | inr (q, n) ↦ inr (inr (q, k, λ w. n (e ∙ w)))
]

merged_ends :
    (d : Dict Value) (m : Option (Dict Value)) (f : Flow Value)
    → f.params ≡ m
    → f.state ≡ Control.paused
    → Ending (resume_with (merge d m) f) f
unfolding merge resume_with wake_up
merged_ends [] m f h k = sent_ends (record f { params = m; state = Control.resuming }) f k refl
merged_ends (x ∷ d) none f h k = inr (inl (refl, h))
merged_ends (x ∷ d) (some m) f h k =
    sent_ends (record f { params = some (insert_all (x ∷ d) m); state = Control.resuming }) f k refl

resume_ends : (d : Dict Value) (f : Flow Value) → Ending (resume d f) f
unfolding resume
resume_ends d f = elim (Control.RunState-discrete f.state Control.paused) [
  | no h ↦ inl (some Control.only_paused, f, ground arith)
  | yes h ↦
      let q : resume d f ≡ resume_with (merge d f.params) f = ground arith in
      rw q (merged_ends d f.params f refl h)
]

moved-SoundHolder : {W : Type 0} (w : W) (h : Holder W) → SoundHolder h → SoundHolder (moved w h)
moved-SoundHolder w (absent x) h = tt
moved-SoundHolder w (present c) h = record {
  mutex = h.mutex;
  heard = h.heard;
  usable = h.usable;
  informed = h.informed;
  reported = h.reported;
}

start_returns :
    (t : ℕ) (m : Option (Dict Value)) (f : Flow Value)
    → (e : Option FlowError) × (g : Flow Value) × (start t m f ≡ returned e g)
unfolding start
start_returns t m f = by_test (not (Control.in_state f.state Control.idle))
  where
    g : Flow Value
    g = record f { flow_type = t; params = m; state = Control.running; position = Control.working }

    by_test :
        (b : Bool)
        → (e : Option FlowError) × (g' : Flow Value) × ((if b
              then returned (some already_running) f
              else returned none g)
            ≡ returned e g')
    by_test true = (some already_running, f, refl)
    by_test false = (none, g, refl)

session_allowed : (o : Option FlowApi) → excluded o ≡ none → o ≡ none
session_allowed none h = refl
session_allowed (some f) h = cc h

still :
    (o : Option FlowApi) (b : Bool) {f g : FlowApi}
    → (o ≡ none) ⊎ (b ≡ false)
    → o ≡ some f
    → (some g ≡ none) ⊎ (b ≡ false)
still o b (inl n) q = cc (n, q)
still o b (inr r) q = inr r

module _ {W : Type 0} where
  refused-Sound :
      (Allowed Blocks : Type 0) (e : Option Error) (r : Answered W) (l : Library W)
      → Sound l
      → (e ≡ none → AnsweredSoundly Allowed Blocks r)
      → AnsweredSoundly Allowed Blocks (unless_refused e r l)
  refused-Sound Allowed Blocks none r l s k = k refl
  refused-Sound Allowed Blocks (some e) r l s k = s

  opened-Sound :
      (r : (Option Store × Option Error) × W) (l : Library W)
      → Sound l
      → l.rpc ≡ false
      → AnsweredSoundly ⊥ ⊥ (flow_opened r l)
  opened-Sound ((p, some e), w) l s k = record {
    service = moved-SoundHolder w l.service.holder s.service;
    exclusive = inl refl;
  }
  opened-Sound ((p, none), w) l s k = record {
    service = moved-SoundHolder w l.service.holder s.service;
    exclusive = inr k;
  }

  called-Sound :
      (Allowed Blocks : Type 0) (r : Called Value) (f : FlowApi) (l : Library W)
      → Sound l
      → l.flow ≡ some f
      → ((r ≡ Control.crashed) → Allowed)
      → ((r ≡ Control.blocked) → Blocks)
      → AnsweredSoundly Allowed Blocks (flow_called r f l)
  called-Sound Allowed Blocks (returned e g) f l s q a b = record {
    service = s.service;
    exclusive = still l.flow l.rpc s.exclusive q;
  }
  called-Sound Allowed Blocks Control.crashed f l s q a b = a refl
  called-Sound Allowed Blocks Control.blocked f l s q a b = b refl

  unless-Sound :
      (t : Bool) (e : Option Error) (r : Answered W) (l : Library W)
      → Sound l
      → AnsweredSoundly ⊥ ⊥ r
      → AnsweredSoundly ⊥ ⊥ (if t then answered e l else r)
  unless-Sound true e r l s h = s
  unless-Sound false e r l s h = h

  with_flow-Sound :
      (Allowed Blocks : Type 0) (o : Option FlowApi) (k : FlowApi → Answered W) (l : Library W)
      → Sound l
      → ((f : FlowApi) → o ≡ some f → AnsweredSoundly Allowed Blocks (k f))
      → AnsweredSoundly Allowed Blocks (with_flow o k l)
  with_flow-Sound Allowed Blocks none k l s h = s
  with_flow-Sound Allowed Blocks (some f) k l s h = h f refl

  with_params-Sound :
      (Allowed Blocks : Type 0) (r : Result (Option (Dict Value)))
      (k : Option (Dict Value) → Answered W) (l : Library W)
      → Sound l
      → ((m : Option (Dict Value)) → AnsweredSoundly Allowed Blocks (k m))
      → AnsweredSoundly Allowed Blocks (with_params r k l)
  with_params-Sound Allowed Blocks (err e) k l s h = s
  with_params-Sound Allowed Blocks (ok m) k l s h = h m

  start-Sound :
      (t : ℕ) (m : Option (Dict Value)) (f : FlowApi) (l : Library W)
      → Sound l
      → l.flow ≡ some f
      → AnsweredSoundly ⊥ ⊥ (flow_called (start t m f.control) f l)
  start-Sound t m f l s q =
      let (e, g, r) = start_returns t m f.control in
      called-Sound ⊥ ⊥ (start t m f.control) f l s q (λ p. cc (p, r)) (λ p. cc (p, r))

  cancel-Sound :
      (f : FlowApi) (l : Library W)
      → Sound l
      → l.flow ≡ some f
      → AnsweredSoundly ⊥ (Unheard l.flow) (flow_called (cancel f.control) f l)
  cancel-Sound f l s q = elim (cancel_ends f.control) [
    | inl (e, g, r) ↦
        called-Sound ⊥ (Unheard l.flow) (cancel f.control) f l s q (λ p. cc (p, r)) (λ p. cc (p, r))
    | inr (r, u, v) ↦
        called-Sound ⊥ (Unheard l.flow) (cancel f.control) f l s q (λ p. cc (p, r))
          (λ p. subst Unheard (sym q) (u, v))
  ]

  resume-Sound :
      (d : Dict Value) (f : FlowApi) (l : Library W)
      → Sound l
      → l.flow ≡ some f
      → AnsweredSoundly (NilFlow l.flow) (Unheard l.flow) (flow_called (resume d f.control) f l)
  resume-Sound d f l s q = elim (resume_ends d f.control) [
    | inl (e, g, r) ↦
        called-Sound (NilFlow l.flow) (Unheard l.flow) (resume d f.control) f l s q (λ p. cc (p, r))
          (λ p. cc (p, r))
    | inr (inl (r, n)) ↦
        called-Sound (NilFlow l.flow) (Unheard l.flow) (resume d f.control) f l s q
          (λ p. subst NilFlow (sym q) n) (λ p. cc (p, r))
    | inr (inr (r, u, v)) ↦
        called-Sound (NilFlow l.flow) (Unheard l.flow) (resume d f.control) f l s q (λ p. cc (p, r))
          (λ p. subst Unheard (sym q) (u, v))
  ]

  served-Sound :
      (r : Served W) (l : Library W) → Sound l → Soundly r → AnsweredSoundly ⊥ ⊥ (of_served r l)
  served-Sound (served a e x) l s h = record { service = h; exclusive = s.exclusive }
  served-Sound Requests.crashed l s h = h
  served-Sound Requests.blocked l s h = h

  registered-Sound :
      (e : Option Error) (l : Library W)
      → Sound l
      → l.flow ≡ none
      → AnsweredSoundly ⊥ ⊥ (registered e l)
  registered-Sound (some e) l s q = s
  registered-Sound none l s q = record { service = s.service; exclusive = inl q }

  flow_allowed : (l : Library W) → check_api flow_api l ≡ none → l.rpc ≡ false
  unfolding check_api
  flow_allowed l h = ground arith

module _ {W : Type 0} (card : Card W) (fs : FileSystem W) (v : Validator) (codec : Codec) where
  requested-Sound :
      Answers card
      → Selects card
      → Decodes card
      → (r : Result Request) (l : Library W) → Sound l
      → AnsweredSoundly ⊥ ⊥ (with_request card fs v codec r l)
  requested-Sound a b d (err e) l s = s
  requested-Sound a b d (ok r) l s =
      served-Sound (serve card fs v r l.service) l s
        (serve-Soundly card fs v a b d r l.service s.service)

  pub perform-Sound :
      Answers card
      → Selects card
      → Decodes card
      → (c : Call) (l : Library W) → Sound l
      → AnsweredSoundly (MayPanic c l) (MayBlock c l) (perform card fs v codec c l)
  unfolding perform check_api
  perform-Sound a b d (init_flow dir) l s =
      refused-Sound ⊥ ⊥ (check_api flow_api l) _ l s
        (λ q. opened-Sound (new_store fs dir (outside l.service.holder)) l s (flow_allowed l q))
  perform-Sound a b d (start_flow t json) l s =
      with_flow-Sound ⊥ ⊥ l.flow _ l s
        (λ f q. with_params-Sound ⊥ ⊥ (codec.params json) _ l s (λ m. start-Sound t m f l s q))
  perform-Sound a b d (resume_flow json) l s =
      with_flow-Sound (NilFlow l.flow) (Unheard l.flow) l.flow _ l s (λ f q.
        with_params-Sound (NilFlow l.flow) (Unheard l.flow) (codec.params json) _ l s
          (λ m. resume-Sound (or_empty m) f l s q))
  perform-Sound a b d cancel_flow l s =
      with_flow-Sound ⊥ (Unheard l.flow) l.flow _ l s (λ f q. cancel-Sound f l s q)
  perform-Sound a b d init_rpc l s =
      refused-Sound ⊥ ⊥ (excluded l.flow) _ l s
        (λ q. registered-Sound codec.register l s (session_allowed l.flow q))
  perform-Sound a b d (call_rpc payload) l s =
      unless-Sound (not l.rpc) _ (with_request card fs v codec (codec.request payload) l) l s
        (requested-Sound a b d (codec.request payload) l s)
  perform-Sound a b d reset_api l s = record { service = s.service; exclusive = inl refl }
  perform-Sound a b d mocked_call l s = s

  -- The libraries that calls lead to, in any order, with the flow changed in any way between them.
  pub data History : Library W → Type 0 where
    loaded :
        (s : Service W) → IsSound s → History (record { flow = none; rpc = false; service = s })
    after_answer :
        (c : Call) {l m : Library W} {e : Option Error}
        → History l
        → perform card fs v codec c l ≡ answered e m
        → History m
    after_reply :
        (c : Call) {l m : Library W} {r : Reply} {e : Option Error}
        → History l
        → perform card fs v codec c l ≡ replied r e m
        → History m
    after_step :
        {l : Library W} {f : FlowApi} {g : Flow Value}
        → History l
        → l.flow ≡ some f
        → History (record l { flow = some (record f { control = g }) })
