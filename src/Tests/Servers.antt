-- ===== src/Tests/Servers.antt =====
-- A command server on a network that keeps a log, with a connection that fails.
use status_keycard_go.Prelude.{
  refl, ◌++◌, ◌==◌, true, none, some, List, [], ◌∷◌, if◌then◌else◌, Text, codes, arith,
}
use status_keycard_go.Prelude.Int.{pos}
use status_keycard_go.Internal.Errors.{Error, foreign, wrong_pin, ok, err}
use status_keycard_go.Server.{Network, Server, new_server, new_envelope, listen, send}
use status_keycard_go.Server.Broadcast.{Event, got, closed, Logs, Reached, send-Reached}
use status_keycard_go.Server.Starting.{Refusing, listen-Refusing}

abbrev broken : Error
broken = foreign (wrong_pin 0) []

-- The world is the log; the connection 2 takes no messages, and the listener fails.
abbrev network : Network (List Event) Text
network = record {
  split_host_port = λ t. ok t;
  atoi = λ t. ok (pos 0);
  create_rpc_server = none;
  listen = λ a w. (err broken, w);
  serve = λ l w. (none, w);
  shutdown = λ w. (none, w);
  upgrade = λ w. (ok 1, w);
  set_write_deadline = λ c w. (none, w);
  write_message = λ c b w. if c == 2 then (some broken, w) else (none, w ++ got c ∷ []);
  close = λ c w. (none, w ++ closed c ∷ []);
  marshal = λ e. ok e.event;
  signal_event = λ b w. w;
}

abbrev server : Server (List Event)
server = record {
  started = true;
  listening = true;
  connections = 1 ∷ 2 ∷ 3 ∷ [];
  address = codes "a";
  handles = true;
  world = [];
}

network-Logs : Logs network (codes "x") (λ w. w)
network-Logs = record {
  deadline = λ c w. refl;
  accepted = λ c w h. ground arith;
  failed = λ c w h. ground arith;
  closes = λ c w. refl;
}

send-Reached_example :
    Reached (λ w. w) (1 ∷ 2 ∷ 3 ∷ []) server (send network (codes "t") (codes "x") server)
unfolding new_envelope
send-Reached_example =
    send-Reached network (codes "x") (λ w. w) network-Logs (codes "t") (codes "x") server refl refl

listen-Refusing_example : Refusing network broken (listen network (codes "a") (new_server []))
unfolding new_server
listen-Refusing_example =
    listen-Refusing network (codes "a") (codes "a") broken (new_server []) refl refl refl refl
