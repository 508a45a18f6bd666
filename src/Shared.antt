-- ===== src/Shared.antt =====
-- shared/main.go, shared/api_flow.go, shared/api_session.go: the C interface, which offers the flows
-- or the session service, and not both.
pub mod Exclusion
use status_keycard_go.Prelude.{
  ℕ, Bool, true, false, not, Option, none, some, List, [], Text, codes, if◌then◌else◌,
}
use status_keycard_go.Prelude.Dict.{Dict}
use status_keycard_go.Internal.Errors.{Error, Result, ok, err, own, message}
use status_keycard_go.Pairing.{Store, FileSystem, new_store}
use status_keycard_go.Card.{Card}
use status_keycard_go.Service.Validation.{Validator}
use status_keycard_go.Service.Requests.{
  Holder, absent, present, Service, Request, Reply, Served, served,
}
use status_keycard_go.Service.Requests
use status_keycard_go.Service.Handlers.{serve}
use status_keycard_go.Flow.Values.{Value}
use status_keycard_go.Flow.Control.{
  Flow, FlowError, already_running, only_paused, cannot_cancel_idle, Called, returned, new_flow,
  start, resume, cancel,
}
use status_keycard_go.Flow.Control

-- `*KeycardFlow`, with the store that `NewFlow` was given.
pub record FlowApi : Type 0 where
  pub control : Flow Value
  pub pairings : Option Store

-- `globalFlow`, `globalRPCServer`, and the `globalKeycardService` of pkg/session/rpc.go.
pub record Library (W : Type 0) : Type 0 where
  pub flow : Option FlowApi
  pub rpc : Bool
  pub service : Service W

-- JSON, and the server of gorilla: what a payload asks for, and the answer of RegisterTCPService.
pub record Codec : Type 0 where
  pub params : Text → Result (Option (Dict Value))
  pub request : Text → Result Request
  pub register : Option Error

-- The exported functions. The type of a flow is a natural number: a negative one is unknown as well.
pub data Call : Type 0 where
  init_flow : Text → Call
  start_flow : ℕ → Text → Call
  resume_flow : Text → Call
  cancel_flow init_rpc reset_api mocked_call : Call
  call_rpc : Text → Call

-- How an exported function ends.
pub data Answered (W : Type 0) : Type 0 where
  answered : Option Error → Library W → Answered W
  replied : Reply → Option Error → Library W → Answered W
  crashed blocked : Answered W

pub data Api : Type 0 where
  flow_api session_api : Api

unfoldable pub flow_error : Option FlowError → Option Error
flow_error none = none
flow_error (some already_running) = some (own (message (codes "already running")))
flow_error (some only_paused) = some (own (message (codes "only paused flows can be resumed")))
flow_error (some cannot_cancel_idle) = some (own (message (codes "cannot cancel idle flow")))

abbrev pub or_empty : Option (Dict Value) → Dict Value
or_empty none = []
or_empty (some m) = m

abbrev pub excluded : Option FlowApi → Option Error
excluded none = none
excluded (some _) =
    some (own (message (codes "not allowed to start session API when flow API is being used")))

abbrev pub outside : {W : Type 0} → Holder W → W
outside (absent w) = w
outside (present c) = c.world

abbrev pub moved : {W : Type 0} → W → Holder W → Holder W
moved w (absent _) = absent w
moved w (present c) = present (record c { world = w })

module _ {W : Type 0} where
  -- `checkAPIMutualExclusion`
  unfoldable pub check_api : Api → Library W → Option Error
  check_api flow_api l =
      if l.rpc
      then some
          (own (message (codes "not allowed to start flow API when session API is being used")))
      else none
  check_api session_api l = excluded l.flow

  abbrev pub unless_refused : Option Error → Answered W → Library W → Answered W
  unless_refused none r l = r
  unless_refused (some e) r l = answered (some e) l

  -- `globalFlow, err = flow.NewFlow(...)`
  abbrev pub flow_opened : (Option Store × Option Error) × W → Library W → Answered W
  flow_opened ((p, some e), w) l =
      answered (some e)
        (record l { flow = none; service = record l.service { holder = moved w l.service.holder } })
  flow_opened ((p, none), w) l = answered none (record l {
    flow = some (record { control = new_flow; pairings = p });
    service = record l.service { holder = moved w l.service.holder };
  })

  abbrev pub with_flow : Option FlowApi → (FlowApi → Answered W) → Library W → Answered W
  with_flow none k l = answered (some (own (message (codes "flow not initialized")))) l
  with_flow (some f) k l = k f

  abbrev pub with_params :
      Result (Option (Dict Value)) → (Option (Dict Value) → Answered W) → Library W → Answered W
  with_params (err e) k l = answered (some e) l
  with_params (ok m) k l = k m

  abbrev pub flow_called : Called Value → FlowApi → Library W → Answered W
  flow_called (returned e g) f l =
      answered (flow_error e) (record l { flow = some (record f { control = g }) })
  flow_called Control.crashed f l = crashed
  flow_called Control.blocked f l = blocked

  abbrev pub registered : Option Error → Library W → Answered W
  registered (some e) l = answered (some e) l
  registered none l = answered none (record l { rpc = true })

  abbrev pub of_served : Served W → Library W → Answered W
  of_served (served r e s) l = replied r e (record l { service = s })
  of_served Requests.crashed l = crashed
  of_served Requests.blocked l = blocked

module _ {W : Type 0} (card : Card W) (fs : FileSystem W) (v : Validator) (codec : Codec) where
  abbrev pub with_request : Result Request → Library W → Answered W
  with_request (err e) l = answered (some e) l
  with_request (ok r) l = of_served (serve card fs v r l.service) l

  -- One call of the interface.
  unfoldable pub perform : Call → Library W → Answered W
  unfolding check_api
  perform (init_flow dir) l =
      unless_refused (check_api flow_api l)
        (flow_opened (new_store fs dir (outside l.service.holder)) l) l
  perform (start_flow t json) l =
      with_flow l.flow
        (λ f. with_params (codec.params json) (λ m. flow_called (start t m f.control) f l) l) l
  perform (resume_flow json) l =
      with_flow l.flow
        (λ f.
          with_params (codec.params json) (λ m. flow_called (resume (or_empty m) f.control) f l) l)
        l
  perform cancel_flow l = with_flow l.flow (λ f. flow_called (cancel f.control) f l) l
  perform init_rpc l = unless_refused (check_api session_api l) (registered codec.register l) l
  perform (call_rpc payload) l =
      if not l.rpc
      then answered (some (own (message (codes "RPC server not initialized")))) l
      else with_request (codec.request payload) l
  perform reset_api l = answered none (record l { flow = none; rpc = false })
  perform mocked_call l = answered (some (own (message (codes "not available in this context")))) l
