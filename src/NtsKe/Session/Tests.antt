-- ===== src/NtsKe/Session/Tests.antt =====
-- nts_ke_session.c: a session whose handshake is closed, and the properties at concrete inputs.
use chrony.Common.{true, false, some, [], ◌∷◌, ◌≡◌, refl, replicate}
use chrony.NtsKe.Message.{Message}
use chrony.NtsKe.Session
use chrony.NtsKe.Session.{
  Session, KeState, handshake, wait_connect, stopped, Io, tls_success, tls_closed, file_input,
  file_output, handle_event,
}
use chrony.NtsKe.Session.Steps.{Holds, Follows, handle_event-Follows}

abbrev empty : Message
empty = record { length = 0; sent = 0; parsed = 0; complete = false; bytes = replicate 16384 0 }

abbrev client : Session
client = record {
  server = false;
  state = handshake;
  sock_open = true;
  label_set = true;
  tls_open = true;
  timeout_set = true;
  output = true;
  retry_factor = 4;
  message = empty;
  new_message = true;
}

abbrev io_closed : Io
io_closed = record {
  connect_error = 0;
  handshake_status = tls_closed;
  send_status = tls_success;
  sent = 0;
  reads = record { status = tls_success; bytes = []; pending = false } ∷ [];
  shutdown_status = tls_success;
}

abbrev stopped_client : Session
stopped_client = record client {
  state = stopped;
  sock_open = false;
  label_set = false;
  tls_open = false;
  timeout_set = false;
}

client-Holds : Holds client
client-Holds = record { sock = refl; tls = refl; label = refl; timer = refl }

handle_event-closed : handle_event client file_output io_closed ≡ some (false, stopped_client)
unfolding handle_event Session.dispatch Session.in_handshake Session.stop_session
handle_event-closed = refl

handle_event-Follows_example : Follows client false stopped_client
handle_event-Follows_example =
    handle_event-Follows client stopped_client file_output io_closed false client-Holds
      handle_event-closed
