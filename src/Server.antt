-- ===== src/Server.antt =====
-- cmd/status-keycard-server/server/server.go: the command server, which passes the signals of
-- signal/signals.go to its connections. The locks are left out: each call is one step.
pub mod Broadcast
pub mod Starting
use status_keycard_go.Prelude.{
  ℕ, Bool, true, false, Option, none, some, List, [], ◌∷◌, ◌==◌, if◌then◌else◌, Text, Bytes,
}
use status_keycard_go.Prelude.Int.{ℤ}
use status_keycard_go.Internal.Errors.{Error, Result, ok, err}

pub record Envelope (E : Type 0) : Type 0 where
  pub type : Text
  pub event : E

-- What the server uses of net, net/http, gorilla/websocket, strconv and encoding/json, and
-- `C.KeycardServiceSignalEvent`. A connection is a number.
pub record Network (W E : Type 0) : Type 0 where
  pub split_host_port : Text → Result Text  -- the port
  pub atoi : Text → Result ℤ
  pub create_rpc_server : Option Error
  pub listen : Text → W → Result Text × W  -- the address of the listener
  pub serve : Bool → W → Option Error × W  -- whether there is a listener
  pub shutdown : W → Option Error × W
  pub upgrade : W → Result ℕ × W
  pub set_write_deadline : ℕ → W → Option Error × W
  pub write_message : ℕ → Bytes → W → Option Error × W
  pub close : ℕ → W → Option Error × W
  pub marshal : Envelope E → Result Bytes
  pub signal_event : Bytes → W → W

-- The struct `Server`; `handles` says that `keycardSignalHandler` is its signalHandler, and
-- otherwise there is no handler of Go. The connections stand in the order of the range over them.
pub record Server (W : Type 0) : Type 0 where
  pub started : Bool
  pub listening : Bool
  pub connections : List ℕ
  pub address : Text
  pub handles : Bool
  pub world : W

pub data ListenError : Type 0 where
  already_started : ListenError
  invalid_address from : Error → ListenError

-- `os.Exit(1)` and a nil pointer end the program.
pub data Called (W : Type 0) : Type 0 where
  returned : Option ListenError → Server W → Called W
  exited panicked : Called W

unfoldable pub without : ℕ → List ℕ → List ℕ
without c [] = []
without c (d ∷ ds) = let rest = without c ds in if d == c then rest else d ∷ rest

unfoldable pub with_connection : ℕ → List ℕ → List ℕ
with_connection c [] = c ∷ []
with_connection c (d ∷ ds) = let rest = with_connection c ds in if d == c then d ∷ ds else d ∷ rest

unfoldable pub new_server : {W : Type 0} → W → Server W
new_server w = record {
  started = false;
  listening = false;
  connections = [];
  address = [];
  handles = false;
  world = w;
}

unfoldable pub setup : {W : Type 0} → Server W → Server W
setup s = record s { handles = true }

unfoldable pub new_envelope : {E : Type 0} → Text → E → Envelope E
new_envelope t e = record { type = t; event = e }

module _ {W E : Type 0} (net : Network W E) where
  abbrev pub port_of : Result Text → Result ℤ
  port_of (err e) = err e
  port_of (ok t) = net.atoi t

  unfoldable pub port : Server W → Result ℤ
  port s = port_of (net.split_host_port s.address)

  -- `deleteConnection`; the error of the close is only logged.
  unfoldable pub delete_connection : ℕ → Server W → Server W
  delete_connection c s = record s {
    connections = without c s.connections;
    world = (net.close c s.world).1;
  }

  abbrev pub written : ℕ → Option Error × W → Server W → Server W
  written c (none, w) s = record s { world = w }
  written c (some e, w) s = delete_connection c (record s { world = w })

  abbrev pub delivered : Bytes → ℕ → Option Error × W → Server W → Server W
  delivered message c (none, w) s = written c (net.write_message c message w) s
  delivered message c (some e, w) s = delete_connection c (record s { world = w })

  unfoldable pub deliver : Bytes → ℕ → Server W → Server W
  unfolding delete_connection
  deliver message c s = delivered message c (net.set_write_deadline c s.world) s

  unfoldable pub broadcast : Bytes → List ℕ → Server W → Server W
  unfolding deliver
  broadcast message [] s = s
  broadcast message (c ∷ cs) s = broadcast message cs (deliver message c s)

  unfoldable pub signal_handler : Bytes → Server W → Server W
  unfolding broadcast
  signal_handler message s = broadcast message s.connections s

  abbrev pub sent_as : Result Bytes → Server W → Server W
  sent_as (err e) s = s
  sent_as (ok message) s =
      if s.handles
      then signal_handler message s
      else record s { world = net.signal_event message s.world }

  -- `Send` of signal/signals.go; an error of the encoding is only logged.
  unfoldable pub send : Text → E → Server W → Server W
  unfolding signal_handler new_envelope
  send t e s = sent_as (net.marshal (new_envelope t e)) s

  abbrev pub listened : Result Text × W → Server W → Called W
  listened (err e, w) s = returned (some (from e)) (record s { listening = false; world = w })
  listened (ok a, w) s = returned none (record s { listening = true; address = a; world = w })

  -- Behind the test of the address: the server is there from here on.
  abbrev pub server_made : Option Error → Text → Server W → Called W
  server_made (some e) address s = exited
  server_made none address s = listened (net.listen address s.world) (record s { started = true })

  abbrev pub checked : Result Text → Text → Server W → Called W
  checked (err e) address s = returned (some (invalid_address e)) s
  checked (ok t) address s = server_made net.create_rpc_server address s

  unfoldable pub listen : Text → Server W → Called W
  listen address s =
      if s.started
      then returned (some already_started) s
      else checked (net.split_host_port address) address s

  -- It returns when the server is closed; the error is only logged.
  unfoldable pub serve : Server W → Called W
  serve s =
      if s.started
      then returned none (record s { world = (net.serve s.listening s.world).1 })
      else panicked

  unfoldable pub close_all : List ℕ → Server W → Server W
  unfolding delete_connection
  close_all [] s = s
  close_all (c ∷ cs) s = close_all cs (delete_connection c s)

  abbrev pub shut : Server W → Called W
  shut s =
      if s.started
      then returned none
          (record s { started = false; address = []; world = (net.shutdown s.world).1 })
      else panicked

  -- `Stop`: without a server the call of Shutdown panics, behind the closing.
  unfoldable pub stop : Server W → Called W
  unfolding close_all
  stop s = shut (close_all s.connections s)

  abbrev pub upgraded : Result ℕ × W → Server W → Server W
  upgraded (err e, w) s = record s { world = w }
  upgraded (ok c, w) s = record s { connections = with_connection c s.connections; world = w }

  -- The handler of `/signals`.
  unfoldable pub signals : Server W → Server W
  unfolding with_connection
  signals s = upgraded (net.upgrade s.world) s
