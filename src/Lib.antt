-- ===== src/Lib.antt =====
-- A verification library for status-keycard-go, the Go library through which the Status app talks
-- to a Keycard: it finds the smart card in a PC/SC reader, opens a secure channel with the applet,
-- publishes a status, and serves requests of the user interface.
--
-- Parts, and how they interact
--   shared/*.go   The C interface: one flow, or one RPC server in front of the service, not both.
--     Shared: its calls, composed of Flow/Control and Service/Handlers. Shared/Exclusion: proofs.
--   pkg/session/service.go   The RPC service holds at most one card context and passes requests to it.
--     Service/Requests: KeycardService and its requests. Service/Validation: validateRequest, a
--     parameter. Service/Handlers: one clause of `serve` for each method of KeycardService.
--     Service/Safety, Service/Soundness, Service/Lengths: proofs.
--   internal/keycard_context_v2.go   The context detects readers and a card and runs the commands.
--     Context/Machine: the struct KeycardContextV2 as the record Context, and the monad in which its
--     methods run. A method ends with a value (done), or panics, or blocks for ever (stuck);
--     cmdSetMutex, forceScanC and a nil cmdSet are fields, so that a second Lock, a send without a
--     receiver and a nil dereference are outcomes that a theorem has to exclude.
--     Context/Base: guards, resetCardConnection, checkSCardError, simulateError, selectApplet,
--     updateApplicationStatus, onAuthorizeInteractions. Context/Commands: Initialize, VerifyPIN,
--     ChangePIN, ChangePUK, UnblockPIN, GenerateMnemonic, LoadMnemonic. Context/Data: GetMetadata,
--     updateMetadata, parsePaths, StoreMetadata. Context/Export: the exports of keys and
--     SimulateError. Context/Reset: FactoryReset of both versions of the context. Context/Life:
--     NewKeycardContextV2, Start, Stop. Context/Readers, Context/Detect, Context/Connect:
--     getCurrentReadersState, connectCard, connectKeycard and detectionRoutine. Context/Watch:
--     one round of watchActiveReader.
--     Context/Logic: rules for total correctness, and the invariant Inv. Context/Invariant: the
--     methods keep it. Context/Authorization and Context/Deadlock: further theorems, with
--     Context/Unplugged.
--   internal/keycard_context.go   The first context, on which the flows run. Keycard: its methods, as
--     functions on the world. Keycard/Life: start, waitForCard, connect and run, up to the serving of
--     commands. Keycard/Reset: FactoryReset and its fallback. Keycard/Waiting: a proof on waitForCard.
--   internal/*.go   Internal/Errors, Internal/Types, Internal/Status, Internal/Readers and
--     Internal/Convert: error values, data, the published status, reader states and conversions.
--   pkg/pairing   Pairing: the store of pairings, in memory and in a file.
--   pkg/flow   A flow asks the user for what it needs in pauses, which Resume and Cancel end.
--     Flow/Control: KeycardFlow with Start, Resume, Cancel, and the points at which its goroutine
--     reads or writes the shared state. Flow/Races: both as a relation, with one read or write of
--     the shared state at a time; Races/Single, Races/Calls, Races/Silent, Races/Late: proofs.
--     Flow/Values, Flow/Keys, Flow/Messages: parameters, the constants of types.go and of
--     internal/error.go. Flow/Session: the goroutine itself, as a monad F on a Session (the world,
--     the KeycardFlow, cardInfo, the pairings) in which a function returns, fails with one of the
--     errors of types.go or another, waits for an answer that never comes, or panics. Flow/Opening,
--     Flow/Authentication, Flow/Changes, Flow/Exports, Flow/Metadata: commands.go, function by
--     function. Flow/Kinds, Flow/Flows: the flows of flow.go by their types. Flow/Run: connect,
--     connectedFlow and runFlow. Flow/Session/Rules, Flow/Preservation: each of them keeps an
--     invariant of sessions, with one rule for each way to build a function. Flow/Refinement,
--     Flow/Termination, Flow/Access, Flow/Blocked, Flow/Connecting, Flow/Renewal, Flow/Paired:
--     proofs.
--   pkg/flow/mocked, shared-mocked/main.go   A stand-in for the flows with cards of its own.
--     Mocked/Cards: mocked_types.go. Mocked/Machine: the struct MockedKeycardFlow, the memory that
--     its pointers lead to, and the monad of its handlers. Mocked/Credentials: the tests of PIN and
--     PUK that six handlers share. Mocked/Handlers, Mocked/Changes, Mocked/Exports, Mocked/Accounts,
--     Mocked/Metadata: the nine handlers. Mocked/Storing: NewMockedFlow and the file of the cards.
--     Mocked/Running: runFlow. Mocked/Control: Start, Resume, Cancel and the calls for the reader
--     and the cards. Mocked/Library: the exported functions. Mocked/Orders: the orders of calls and
--     runs as a relation. Mocked/Safety, Mocked/Runs: a pre- and postcondition for each handler, and
--     what holds in every order. Mocked/Access, Mocked/Attempts, Mocked/Answers, Mocked/Loading,
--     Mocked/Wallets, Mocked/Reading, Mocked/Sharing, Mocked/Unfinished, Mocked/Steps: proofs.
--   cmd/status-keycard-server/server, signal/signals.go   Server: the command server, whose handler
--     of signals passes them to its connections, and Send. Server/Broadcast, Server/Starting: proofs.
--   pkg/utils/hex_string.go   Hex.
--   Prelude: shared types, operators and lemmas. Tests: a small card, a small file, and runs.
--
-- Parameters
--   Card (Card.antt) stands for scard, keycard-go, globalplatform, go-ethereum and the derivation
--   paths: each call is a function on a world of any type. FileSystem (Pairing.antt) stands for the
--   operating system and the JSON encoding, Validator for the validator package, Codec
--   (Shared.antt) for the payloads of the C interface and the RPC server of gorilla. Host
--   (Mocked/Machine) stands for math/rand, filepath and the JSON encoding of the cards of the mock,
--   and Codec (Mocked/Library) for the payloads of its C interface. Network (Server.antt) stands
--   for sockets, HTTP and the encoding of signals. What a theorem needs of them is a named
--   hypothesis (Answers, Selects, Decodes, Checks, KeepsCount, Opens, Logs), and the small card of
--   Tests/World, or a variant of it, meets it.
--
-- Choices
--   A deferred call is made where the function returns, in the order of Go. The watcher of a reader
--   is one Boolean, which says that somebody receives from forceScanC; a send takes it away,
--   since the watcher then starts a new detection and ends. Loops go over lists by structural
--   recursion; detection_round is one round of the endless detection loop. A function of a flow
--   that calls itself in its last line is a round that says whether to go on. The user's answers
--   and the ends of a wait for a card are lists in the Session, so a loop behind a question has
--   one round more than there are answers, which is enough (Flow/Termination). waitForCard, the
--   pairing loop of openSC and the restarts of runFlow depend on the card alone and may go on for
--   ever: they take a number of rounds, any number, and end as `exhausted` (or `endless`) where
--   these are used up; no theorem on results takes that for a success. Texts are lists of bytes.
--   Log calls have no effect on the model and are left out. The cards of the mock are objects of an
--   explicit memory, at addresses that count the allocations, since the helpers that the mock makes
--   have one map of keys. Their numbers are natural. A run of the mock's goroutine is one step.
--
-- Not modelled: a caller of a flow that acts at another moment than a pause or just before it
-- (Flow/Races has these orders for the shared state alone, without the parameters), the goroutines
-- that pass bytes to the card, the interleaving of the goroutines of the second context, the
-- goroutine of a flow that the C interface has let go of, the registration of the C callback for
-- signals, two runs of the mock at the same time, the runs of a mock that was replaced, calls of
-- the command server at the same time, its main function, and the vendored libraries.
pub mod Prelude
pub mod Hex
pub mod Internal
pub mod Pairing
pub mod Keycard
pub mod Card
pub mod Context
pub mod Service
pub mod Shared
pub mod Server
pub mod Flow
pub mod Mocked
pub mod Tests
