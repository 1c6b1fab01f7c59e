-- ===== src/NtsKe/Session/Steps.antt =====
-- nts_ke_session.c: the order of the states, what a stopped session holds, and that no assertion
-- fails.
use chrony.Common.{
  ℕ, Bool, true, false, not, ◌&&◌, Option, none, some, List, [], ◌∷◌, if◌then◌else◌, leb, ◌==◌, ◌≡◌,
  arith, refl, ◌⊎◌, inl, inr, Option-cases, Bool-cases,
}
use chrony.NtsKe.Message.{Message, check_message_format, nke_max_message_length}
use chrony.NtsKe.Session.{
  KeState, wait_connect, handshake, send, receive, shutdown, stopped, TlsStatus, tls_success,
  tls_failed, tls_closed, tls_again_input, tls_again_output, Session, Read, Io, Event, file_input,
  file_output, stop_session, is_stopped, set_input_output, output_of, change_state, in_wait_connect,
  in_handshake, after_send, in_send, append_bytes, Reading, returns, received, read_message,
  after_read, in_receive, in_shutdown, dispatch, handle_event, Result, waits,
}

-- The state that a session goes on to, by its role: a client connects and sends first.
abbrev pub next_of : Bool → KeState → KeState
next_of server wait_connect = handshake
next_of server handshake = if server then receive else send
next_of server send = if server then shutdown else receive
next_of server receive = if server then send else shutdown
next_of server shutdown = stopped
next_of server stopped = stopped

-- A session that is stopped holds no resource; any other holds its socket, label and TLS session.
pub record Holds (s : Session) : Type 0 where
  pub sock : s.sock_open ≡ not (is_stopped s.state)
  pub tls : s.tls_open ≡ not (is_stopped s.state)
  pub label : s.label_set ≡ not (is_stopped s.state)
  pub timer : (s.timeout_set && is_stopped s.state) ≡ false

-- A step from `s` to `s'` with the result `ready`.
pub record Follows (s : Session) (ready : Bool) (s' : Session) : Type 0 where
  pub role : s'.server ≡ s.server
  pub moved : (s'.state ≡ s.state) ⊎ (s'.state ≡ stopped) ⊎ (s'.state ≡ next_of s.server s.state)
  pub holds : Holds s'
  pub ready_when :
      (ready ≡ false)
      ⊎ ((s.state ≡ receive) × (s'.state ≡ next_of s.server receive) × (s'.message.complete ≡ true))

stop_session-Holds : (s : Session) → Holds s → Holds (stop_session s)
unfolding stop_session
stop_session-Holds s h = ground arith

module _ (s s' : Session) (ready : Bool) (h : Holds s) where
  in_wait_connect-Follows :
      (e : Event) (io : Io)
      → s.state ≡ wait_connect
      → in_wait_connect s e io ≡ some (ready, s')
      → Follows s ready s'
  unfolding in_wait_connect change_state set_input_output output_of stop_session
  in_wait_connect-Follows file_input io q g = ground arith
  in_wait_connect-Follows file_output io q g = ground arith

  in_handshake-Follows :
      (t : TlsStatus)
      → s.state ≡ handshake
      → in_handshake s t ≡ some (ready, s')
      → Follows s ready s'
  unfolding in_handshake change_state set_input_output output_of stop_session
  in_handshake-Follows tls_success q g = elim (Bool-cases s.server) [
    | inl a ↦ ground arith
    | inr a ↦ ground arith
  ]
  in_handshake-Follows tls_failed q g = ground arith
  in_handshake-Follows tls_closed q g = ground arith
  in_handshake-Follows tls_again_input q g = ground arith
  in_handshake-Follows tls_again_output q g = ground arith

  after_send-Follows :
      (r : ℕ) → s.state ≡ send → after_send s r ≡ some (ready, s') → Follows s ready s'
  unfolding after_send change_state set_input_output output_of
  after_send-Follows r q g = elim (Bool-cases s.server) [
    | inl a ↦ ground arith
    | inr a ↦ ground arith
  ]

  in_shutdown-Follows :
      (t : TlsStatus) → s.state ≡ shutdown → in_shutdown s t ≡ some (ready, s') → Follows s ready s'
  unfolding in_shutdown set_input_output stop_session
  in_shutdown-Follows tls_success q g = ground arith
  in_shutdown-Follows tls_failed q g = ground arith
  in_shutdown-Follows tls_closed q g = ground arith
  in_shutdown-Follows tls_again_input q g = ground arith
  in_shutdown-Follows tls_again_output q g = ground arith

  in_send-Follows :
      (io : Io) → s.state ≡ send → in_send s io ≡ some (ready, s') → Follows s ready s'
  unfolding in_send
  in_send-Follows io q g =
      let g' : send_by io.send_status ≡ some (ready, s') = guarded g in by_status io.send_status g'
    where
      send_by : TlsStatus → Result
      send_by tls_success = after_send s io.sent
      send_by tls_again_output = waits s
      send_by _ = waits (stop_session s)

      guarded : in_send s io ≡ some (ready, s') → send_by io.send_status ≡ some (ready, s')
      guarded g = ground arith

      by_status : (t : TlsStatus) → send_by t ≡ some (ready, s') → Follows s ready s'
      by_status tls_success g = after_send-Follows io.sent q g
      by_status tls_failed g = unfold stop_session in ground arith
      by_status tls_closed g = unfold stop_session in ground arith
      by_status tls_again_input g = unfold stop_session in ground arith
      by_status tls_again_output g = ground arith

-- An early return of the reading loop has read a message, and may have stopped the session.
read_message-returns :
    (s s' : Session) (m : Message) (reads : List Read)
    → read_message s m reads ≡ some (returns s')
    → (m' : Message) × ((s' ≡ record s { message = m' })
        ⊎ (s' ≡ stop_session (record s { message = m' })))
unfolding read_message
read_message-returns s s' m [] g = cc g
read_message-returns s s' m (r ∷ reads) g =
    elim (Bool-cases (leb nke_max_message_length m.length)) [
      | inl full ↦ (m, inr (ground arith))
      | inr room ↦
          by_status r.status refl room (read_message-returns s s' (append_bytes m r.bytes) reads) g
    ]
  where
    Goal : Type 0
    Goal =
        (m' : Message) × ((s' ≡ record s { message = m' })
          ⊎ (s' ≡ stop_session (record s { message = m' })))

    by_status :
        (t : TlsStatus)
        → r.status ≡ t
        → leb nke_max_message_length m.length ≡ false
        → (read_message s (append_bytes m r.bytes) reads ≡ some (returns s') → Goal)
        → read_message s m (r ∷ reads) ≡ some (returns s')
        → Goal
    by_status tls_success e room ih g = elim (Bool-cases r.pending) [
      | inl more ↦ ih (ground arith)
      | inr done ↦ absurd (ground arith)
    ]
    by_status tls_failed e room ih g = (m, inr (ground arith))
    by_status tls_closed e room ih g = (m, inr (ground arith))
    by_status tls_again_input e room ih g = (m, inl (ground arith))
    by_status tls_again_output e room ih g = (m, inr (ground arith))

module _ (s s' : Session) (ready : Bool) (h : Holds s) where
  returns-Follows :
      (m' : Message)
      → (s' ≡ record s { message = m' }) ⊎ (s' ≡ stop_session (record s { message = m' }))
      → ready ≡ false
      → Follows s ready s'
  unfolding stop_session
  returns-Follows m' (inl e) f = ground arith
  returns-Follows m' (inr e) f = ground arith

  received-Follows :
      (m : Message) (r : ℕ)
      → s.state ≡ receive
      → after_read s (received m r) ≡ some (ready, s')
      → Follows s ready s'
  unfolding after_read change_state set_input_output output_of stop_session
  received-Follows m r q g = elim (Option-cases (check_message_format m (r == 0))) [
    | inl e ↦ absurd (ground arith)
    | inr (c, e) ↦ elim (Bool-cases s.server) [ inl a ↦ ground arith | inr a ↦ ground arith ]
  ]

  in_receive-Follows :
      (io : Io) → s.state ≡ receive → in_receive s io ≡ some (ready, s') → Follows s ready s'
  unfolding in_receive
  in_receive-Follows io q g = by_reading (read_message s s.message io.reads) refl
    where
      by_reading : (o : Option Reading) → read_message s s.message io.reads ≡ o → Follows s ready s'
      by_reading none e = absurd (ground arith)
      by_reading (some (returns s1)) e =
          let (m', d) = read_message-returns s s1 s.message io.reads e in
          let same : s1 ≡ s' = unfold after_read in ground arith in
          let idle : ready ≡ false = unfold after_read in ground arith in
          returns-Follows m' (rw same at d) idle
      by_reading (some (received m r)) e = received-Follows m r q (ground arith)

-- A step of a session that holds what it should is one of its role: it stays in its state, stops,
-- or goes on to the next state. It holds what it should afterwards: a stopped session has released
-- its socket, label, TLS session and timeout. It reports a message only out of KE_RECEIVE, with a
-- message that is complete.
pub handle_event-Follows :
    (s s' : Session) (e : Event) (io : Io) (ready : Bool)
    → Holds s
    → handle_event s e io ≡ some (ready, s')
    → Follows s ready s'
unfolding handle_event dispatch
handle_event-Follows s s' e io ready h g = by_state s.state refl g
  where
    by_state :
        (st : KeState) → s.state ≡ st → dispatch st s e io ≡ some (ready, s') → Follows s ready s'
    by_state wait_connect q g = in_wait_connect-Follows s s' ready h e io q g
    by_state handshake q g = in_handshake-Follows s s' ready h io.handshake_status q g
    by_state send q g = in_send-Follows s s' ready h io q g
    by_state receive q g = in_receive-Follows s s' ready h io q g
    by_state shutdown q g = in_shutdown-Follows s s' ready h io.shutdown_status q g
    by_state stopped q g = cc g
