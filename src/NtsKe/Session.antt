-- ===== src/NtsKe/Session.antt =====
-- nts_ke_session.c: the session that exchanges two messages over TLS.
--
-- What the TLS library and the socket answer comes as the argument `Io`. A result of `none` is a
-- failed assertion, or a read that `Io` has no answer for.
pub mod Steps
pub mod Answers
mod Tests
use chrony.Common.{
  ℕ, ◌+◌, ◌-◌, Bool, true, false, not, ◌&&◌, ◌||◌, Option, none, some, List, [], ◌∷◌, ◌>>=◌,
  if◌then◌else◌, ltb, leb, ◌==◌, length,
}
use chrony.Common.Signed.{ℤ, pos, negsuc}
use chrony.Common.Bytes.{write_at}
use chrony.NtsKe.Message.{
  Message, Record, reset_message, reset_message_parsing, add_record, get_record,
  check_message_format, nke_max_message_length, nke_record_end_of_message,
}

-- `KeState`
pub data KeState : Type 0 where
  wait_connect handshake send receive shutdown stopped : KeState

-- `TLS_Status`
pub data TlsStatus : Type 0 where
  tls_success tls_failed tls_closed tls_again_input tls_again_output : TlsStatus

-- The members of `NKSN_Instance_Record`. Of a resource the state says whether it is held: the
-- socket with its file handler, the label, the TLS session, the timeout.
pub record Session : Type 0 where
  pub server : Bool
  pub state : KeState
  pub sock_open : Bool
  pub label_set : Bool
  pub tls_open : Bool
  pub timeout_set : Bool
  pub output : Bool
  pub retry_factor : ℕ
  pub message : Message
  pub new_message : Bool

-- One read: the status, the bytes received, and whether more data is pending.
pub record Read : Type 0 where
  pub status : TlsStatus
  pub bytes : List ℕ
  pub pending : Bool

pub record Io : Type 0 where
  pub connect_error : ℕ
  pub handshake_status : TlsStatus
  pub send_status : TlsStatus
  pub sent : ℕ
  pub reads : List Read
  pub shutdown_status : TlsStatus

pub data Event : Type 0 where
  file_input file_output : Event

abbrev pub nke_retry_factor2_connect : ℕ
nke_retry_factor2_connect = 4

abbrev pub nke_retry_factor2_tls : ℕ
nke_retry_factor2_tls = 10

abbrev pub is_stopped : KeState → Bool
is_stopped stopped = true
is_stopped _ = false

pub stop_session : Session → Session
stop_session inst = if is_stopped inst.state then inst else record inst {
  state = stopped;
  sock_open = false;
  label_set = false;
  tls_open = false;
  timeout_set = false;
}

pub session_timeout : Session → Session
session_timeout inst = stop_session (record inst { timeout_set = false })

-- Input and output are never enabled together: the field tells which.
pub set_input_output : Session → Bool → Session
set_input_output inst output = record inst { output = output }

-- The `switch` of `change_state`.
pub output_of : Bool → KeState → Option Bool
output_of server handshake = some (not server)
output_of server wait_connect = some true
output_of server send = some true
output_of server shutdown = some true
output_of server receive = some false
output_of server stopped = none

pub change_state : Session → KeState → Option Session
change_state inst state = do
  output ← output_of inst.server state
  some (record (set_input_output inst output) { state = state })

-- The handlers of the states return whether a message is ready for processing.
abbrev pub Result : Type 0
Result = Option (Bool × Session)

abbrev pub waits : Session → Result
waits inst = some (false, inst)

pub in_wait_connect : Session → Event → Io → Result
in_wait_connect inst file_input io = waits inst
in_wait_connect inst file_output io =
    if not (io.connect_error == 0)
    then waits (stop_session inst)
    else do inst' ← change_state inst handshake; waits inst'

pub in_handshake : Session → TlsStatus → Result
in_handshake inst tls_success = do
  inst' ←
      change_state (record inst { retry_factor = nke_retry_factor2_tls })
        (if inst.server then receive else send)
  waits inst'
in_handshake inst tls_again_output = waits (set_input_output inst true)
in_handshake inst tls_again_input = waits (set_input_output inst false)
in_handshake inst tls_closed = waits (stop_session inst)
in_handshake inst tls_failed =
    waits (record (stop_session inst) { retry_factor = nke_retry_factor2_tls })

-- `message->sent += r`, and what follows a complete message.
pub after_send : Session → ℕ → Result
after_send inst r =
    let m = inst.message in
    let sent = m.sent + r in
    if ltb sent m.length then waits (record inst { message = record m { sent = sent } }) else do
      inst' ← change_state inst (if inst.server then shutdown else receive)
      waits (record inst' { message = reset_message m; new_message = false })

pub in_send : Session → Io → Result
in_send inst io =
    let m = inst.message in
    if not (inst.new_message && m.complete)
      || not (leb m.length nke_max_message_length && ltb m.sent m.length)
    then none
    else elim io.send_status [
      | tls_success ↦ after_send inst io.sent
      | tls_again_output ↦ waits inst
      | _ ↦ waits (stop_session inst)
    ]

-- `&message->data[message->length]` and `message->length += r`
pub append_bytes : Message → List ℕ → Message
append_bytes m bytes = record m {
  length = m.length + length bytes;
  bytes = write_at m.bytes m.length bytes;
}

-- What the reading loop ends with: an early return, or the message and the last `r`.
pub data Reading : Type 0 where
  returns : Session → Reading
  received : Message → ℕ → Reading

-- The loop goes on while data is pending.
pub read_message : Session → Message → List Read → Option Reading
read_message inst m [] = none
read_message inst m (read ∷ reads) =
    let more = read_message inst (append_bytes m read.bytes) reads in
    if leb nke_max_message_length m.length
    then some (returns (stop_session (record inst { message = m })))
    else elim read.status [
      | tls_success ↦
          if read.pending
          then more
          else some (received (append_bytes m read.bytes) (length read.bytes))
      | tls_again_input ↦ some (returns (record inst { message = m }))
      | _ ↦ some (returns (stop_session (record inst { message = m })))
    ]

-- What follows the loop.
pub after_read : Session → Reading → Result
after_read inst (returns inst') = waits inst'
after_read inst (received m r) = do
  checked ← check_message_format m (r == 0)
  let inst' = record inst { message = checked.1 }
  if not checked.0
      then waits (stop_session inst')
      else (if not checked.1.complete then waits inst' else do
        done ← change_state inst' (if inst.server then send else shutdown)
        some (true, done))

pub in_receive : Session → Io → Result
in_receive inst io = do reading ← read_message inst inst.message io.reads; after_read inst reading

pub in_shutdown : Session → TlsStatus → Result
in_shutdown inst tls_again_output = waits (set_input_output inst true)
in_shutdown inst tls_again_input = waits (set_input_output inst false)
in_shutdown inst _ = waits (stop_session inst)

pub dispatch : KeState → Session → Event → Io → Result
dispatch wait_connect inst event io = in_wait_connect inst event io
dispatch handshake inst event io = in_handshake inst io.handshake_status
dispatch send inst event io = in_send inst io
dispatch receive inst event io = in_receive inst io
dispatch shutdown inst event io = in_shutdown inst io.shutdown_status
dispatch stopped inst event io = none

pub handle_event : Session → Event → Io → Result
handle_event inst event io = dispatch inst.state inst event io

-- The handler of a received message is the client's or the server's.
pub read_write_socket : (Session → Option (Bool × Session)) → Session → Event → Io → Option Session
read_write_socket handler inst event io = do
  handled ← handle_event inst event io
  if not handled.0 then some handled.1 else do
    answered ← handler (record handled.1 { message = reset_message_parsing handled.1.message })
    some (if answered.0 then answered.1 else stop_session answered.1)

-- `NKSN_StartSession`, by whether `TLS_CreateInstance` succeeds.
pub start_session : Session → Bool → Option (Bool × Session)
start_session inst created =
    if not (is_stopped inst.state)
    then none
    else (if not created then some (false, inst) else do
      inst' ←
          change_state
            (record inst {
              sock_open = true;
              label_set = true;
              tls_open = true;
              timeout_set = true;
              retry_factor = nke_retry_factor2_connect;
              message = reset_message inst.message;
              new_message = false;
            })
            (if inst.server then handshake else wait_connect)
      some (true, inst'))

-- `NKSN_BeginMessage`
pub begin_message : Session → Session
begin_message inst = record inst { message = reset_message inst.message; new_message = true }

abbrev is_end_type : ℤ → Bool
is_end_type (pos n) = n == nke_record_end_of_message
is_end_type (negsuc n) = false

-- `NKSN_AddRecord`
pub session_add_record : Session → Bool → ℤ → List ℕ → ℤ → Option (Bool × Session)
session_add_record inst critical type body body_length =
    if not (inst.new_message && not inst.message.complete) || is_end_type type then none else do
      added ← add_record inst.message critical type body body_length
      some (added.0, record inst { message = added.1 })

-- `NKSN_EndMessage`
pub end_message : Session → Option (Bool × Session)
end_message inst = if inst.message.complete then none else do
  added ← add_record inst.message true (pos nke_record_end_of_message) [] (pos 0)
  if added.0
      then some (true, record inst { message = record (added.1) { complete = true } })
      else some (false, record inst { message = added.1 })

-- `NKSN_GetRecord`: `none` is its failed assertion, and inside it the record, if it returns 1.
pub session_get_record : Session → ℤ → Option (Option Record × Session)
session_get_record inst buffer_length =
    if not inst.message.complete then none else elim (get_record inst.message buffer_length) [
      | none ↦ some (none, inst)
      | some (r, m) ↦ some (
        if r.type == nke_record_end_of_message then none else some r,
        record inst { message = m },
      )
    ]
