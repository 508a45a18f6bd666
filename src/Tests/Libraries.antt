-- ===== src/Tests/Libraries.antt =====
-- The C interface with a flow that was made.
use status_keycard_go.Prelude.{none, some, false, [], codes, Text}
use status_keycard_go.Internal.Errors.{ok}
use status_keycard_go.Internal.Status.{State}
use status_keycard_go.Service.Requests.{present, Request}
use status_keycard_go.Flow.Control.{new_flow}
use status_keycard_go.Shared.{Library, Codec}
use status_keycard_go.Tests.World.{session}

abbrev codec : Codec
codec = record {
  params = λ t. ok (some []);
  request = λ t. ok (Request.authorize t);
  register = none;
}

abbrev loaded_library : Library Text
loaded_library = record {
  flow = none;
  rpc = false;
  service = record { holder = present (session State.ready); simulate = none };
}

abbrev flow_library : Library Text
flow_library = record loaded_library {
  flow = some (record {
    control = new_flow;
    pairings = some (record { path = codes "p"; values = some [] });
  });
}
