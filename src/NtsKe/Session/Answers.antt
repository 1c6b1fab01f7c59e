-- ===== src/NtsKe/Session/Answers.antt =====
-- nts_ke_session.c: `handle_event` returns, with no failed assertion.
use chrony.Common.{
  Bool, true, false, ◌&&◌, Option, none, some, List, [], ◌∷◌, ltb, leb, ◌==◌, ◌≡◌, ◌≢◌, arith, refl,
  ◌⊎◌, inl, inr, Bool-cases,
}
use chrony.NtsKe.Message.{Message, nke_max_message_length}
use chrony.NtsKe.Message.Total.{check_message_format-total}
use chrony.NtsKe.Session.{
  KeState, wait_connect, handshake, send, receive, shutdown, stopped, TlsStatus, tls_success,
  tls_failed, tls_closed, tls_again_input, tls_again_output, Session, Read, Io, Event, file_input,
  file_output, output_of, change_state, in_wait_connect, in_handshake, after_send, in_send,
  append_bytes, Reading, returns, received, read_message, after_read, in_receive, in_shutdown,
  dispatch, handle_event,
}

-- The message of a session that sends is new and complete, and not all of it is sent.
abbrev pub can_send : Session → Bool
can_send s =
    s.new_message
    && s.message.complete
    && leb s.message.length nke_max_message_length
    && ltb s.message.sent s.message.length

-- The data that is pending comes to an end.
abbrev pub Ends : List Read → Type 0
Ends [] = ⊥
Ends (r ∷ reads) = (r.pending ≡ false) ⊎ Ends reads

in_handshake-answers : (s : Session) (t : TlsStatus) → in_handshake s t ≢ none
unfolding in_handshake change_state output_of
in_handshake-answers s tls_success g = elim (Bool-cases s.server) [
  | inl a ↦ ground arith
  | inr a ↦ ground arith
]
in_handshake-answers s tls_failed g = cc g
in_handshake-answers s tls_closed g = cc g
in_handshake-answers s tls_again_input g = cc g
in_handshake-answers s tls_again_output g = cc g

in_wait_connect-answers : (s : Session) (e : Event) (io : Io) → in_wait_connect s e io ≢ none
unfolding in_wait_connect change_state output_of
in_wait_connect-answers s file_input io g = cc g
in_wait_connect-answers s file_output io g = ground arith

in_send-answers : (s : Session) (io : Io) → can_send s ≡ true → in_send s io ≢ none
unfolding in_send after_send change_state output_of
in_send-answers s io c g = by_status io.send_status refl
  where
    by_status : (t : TlsStatus) → io.send_status ≡ t → ⊥
    by_status tls_success e = elim (Bool-cases s.server) [
      | inl a ↦ ground arith
      | inr a ↦ ground arith
    ]
    by_status tls_failed e = ground arith
    by_status tls_closed e = ground arith
    by_status tls_again_input e = ground arith
    by_status tls_again_output e = ground arith

read_message-answers :
    (s : Session) (m : Message) (reads : List Read) → Ends reads → read_message s m reads ≢ none
unfolding read_message
read_message-answers s m [] n g = n
read_message-answers s m (r ∷ reads) (inl n) g = by_status r.status refl
  where
    by_status : (t : TlsStatus) → r.status ≡ t → ⊥
    by_status tls_success e = ground arith
    by_status tls_failed e = ground arith
    by_status tls_closed e = ground arith
    by_status tls_again_input e = ground arith
    by_status tls_again_output e = ground arith
read_message-answers s m (r ∷ reads) (inr n) g =
    by_status r.status refl (read_message-answers s (append_bytes m r.bytes) reads n)
  where
    by_status :
        (t : TlsStatus) → r.status ≡ t → read_message s (append_bytes m r.bytes) reads ≢ none → ⊥
    by_status tls_success e ih = elim (Bool-cases (leb nke_max_message_length m.length)) [
      | inl full ↦ ground arith
      | inr room ↦ elim (Bool-cases r.pending) [
        | inl more ↦ ih (ground arith)
        | inr done ↦ ground arith
      ]
    ]
    by_status tls_failed e ih = ground arith
    by_status tls_closed e ih = ground arith
    by_status tls_again_input e ih = ground arith
    by_status tls_again_output e ih = ground arith

in_receive-answers : (s : Session) (io : Io) → Ends io.reads → in_receive s io ≢ none
unfolding in_receive
in_receive-answers s io n g = by_reading (read_message s s.message io.reads) refl
  where
    by_reading : (o : Option Reading) → read_message s s.message io.reads ≡ o → ⊥
    by_reading none e = read_message-answers s s.message io.reads n e
    by_reading (some (returns s')) e = unfold after_read in ground arith
    by_reading (some (received m r)) e =
        let (c, q) = check_message_format-total m (r == 0) in
        unfold after_read change_state output_of in
        elim (Bool-cases s.server) [ inl a ↦ ground arith | inr a ↦ ground arith ]

in_shutdown-answers : (s : Session) (t : TlsStatus) → in_shutdown s t ≢ none
unfolding in_shutdown
in_shutdown-answers s tls_success g = cc g
in_shutdown-answers s tls_failed g = cc g
in_shutdown-answers s tls_closed g = cc g
in_shutdown-answers s tls_again_input g = cc g
in_shutdown-answers s tls_again_output g = cc g

-- No assertion of `handle_event` fails and its loops end, if the session is not stopped, if in
-- KE_SEND its message is ready to be sent, and if the data that is pending for a read ends.
handle_event-answers :
    (s : Session) (e : Event) (io : Io)
    → s.state ≢ stopped
    → (s.state ≢ send) ⊎ (can_send s ≡ true)
    → Ends io.reads
    → handle_event s e io ≢ none
unfolding handle_event dispatch
handle_event-answers s e io live ready n g = by_state s.state refl g
  where
    by_state : (st : KeState) → s.state ≡ st → dispatch st s e io ≢ none
    by_state wait_connect q = in_wait_connect-answers s e io
    by_state handshake q = in_handshake-answers s io.handshake_status
    by_state send q = elim ready [ inl r ↦ absurd (r q) | inr r ↦ in_send-answers s io r ]
    by_state receive q = in_receive-answers s io n
    by_state shutdown q = in_shutdown-answers s io.shutdown_status
    by_state stopped q = absurd (live q)
