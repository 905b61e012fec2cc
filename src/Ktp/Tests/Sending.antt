-- ===== src/Ktp/Tests/Sending.antt =====
-- A sending socket: claimed by process 7, with one message accepted, and then in the window.
use networks_lab_cs39006_spr.Prelude.{
  ℕ, ◌≡◌, refl, true, Bool, ◌+◌, ◌%◌, get_or-replicate, List, [], ◌∷◌, some, none, arith,
}
use networks_lab_cs39006_spr.Ktp.Types.{KtpSocket, Action}
use networks_lab_cs39006_spr.Ktp.Window.{distance, inwndw}
use networks_lab_cs39006_spr.Ktp.Socket.{
  zero_message, claim_socket, push_message, initialize_buffer,
}
use networks_lab_cs39006_spr.Ktp.Receiver.{running, handle_ack}
use networks_lab_cs39006_spr.Ktp.Sender.{
  Timeout, Timeouts, no_timeouts, sthread_socket, check_retransmission,
}
use networks_lab_cs39006_spr.Ktp.Buffers.{push_message-IsBuffer}
use networks_lab_cs39006_spr.Ktp.Invariant.Defs.{IsSocket}
use networks_lab_cs39006_spr.Ktp.Invariant.Calls.{claim_socket-IsSocket}
use networks_lab_cs39006_spr.Ktp.Send.Queue.{InStep, push_message-InStep}
use networks_lab_cs39006_spr.Ktp.Send.Release.{Released, handle_ack_lem}
use networks_lab_cs39006_spr.Ktp.Send.Advance.{with_tail, Advanced}
use networks_lab_cs39006_spr.Ktp.Send.Transmit.{Segment}
use networks_lab_cs39006_spr.Ktp.Send.Round.{
  IsTimeouts, Sent, sthread_socket_lem, sthread_socket-retransmits,
}
use networks_lab_cs39006_spr.Ktp.Send.Wrap.{Accepts, sthread_socket-wrap_stalls}
use networks_lab_cs39006_spr.Ktp.Send.InStep.{claim_socket-InStep}
use networks_lab_cs39006_spr.Ktp.Tests.Receiving.{blank, claimed}

claimed-IsSocket : IsSocket claimed
claimed-IsSocket = claim_socket-IsSocket 7 blank

claimed-InStep : InStep claimed
claimed-InStep = claim_socket-InStep 7 blank

abbrev accepted : KtpSocket
accepted = record claimed { send_buffer = push_message zero_message claimed.send_buffer }

accepted-InStep : InStep accepted
unfolding claim_socket
accepted-InStep =
    (push_message-InStep zero_message claimed claimed-IsSocket claimed-InStep (omega arith)).0

accepted-IsSocket : IsSocket accepted
unfolding claim_socket
accepted-IsSocket =
    let v = claimed-IsSocket in
    record {
      send = push_message-IsBuffer zero_message v.send (omega arith);
      recv = v.recv;
      exact = v.exact;
      swnd_in = v.swnd_in;
      rwnd_in = v.rwnd_in;
      acked_in = v.acked_in;
    }

abbrev in_flight : KtpSocket
in_flight = with_tail 1 accepted

in_flight-IsSocket : IsSocket in_flight
unfolding claim_socket
in_flight-IsSocket =
    let v = accepted-IsSocket in
    record {
      send = v.send;
      recv = v.recv;
      exact = v.exact;
      swnd_in = omega arith;
      rwnd_in = v.rwnd_in;
      acked_in = v.acked_in;
    }

in_flight-InStep : InStep in_flight
unfolding claim_socket push_message
in_flight-InStep =
    let (q, _) =
      push_message-InStep zero_message claimed claimed-IsSocket claimed-InStep (omega arith) in
    record { placed = q.placed; used = q.used; bare = q.bare; sent = omega arith }

handle_ack_lem_example :
    (s' : KtpSocket) × (handle_ack 0 10 in_flight ≡ running (s', []))
    × (s'.swnd.size ≡ 10)
    × Released 0 in_flight s'
unfolding claim_socket
handle_ack_lem_example =
    handle_ack_lem 0 10 in_flight in_flight-IsSocket in_flight-InStep (omega arith) (omega arith)
      (omega arith)

-- The 256th message is in flight alone.
abbrev before_last : KtpSocket
before_last = record claimed {
  send_buffer = record claimed.send_buffer { iter = 5 };
  swnd = record { size = 10; head = 255; tail = 255 };
}

before_last-IsSocket : IsSocket before_last
unfolding claim_socket
before_last-IsSocket =
    let v = claimed-IsSocket in
    record {
      send = record {
        slots = v.send.slots;
        flags = v.send.flags;
        index = omega arith;
        counted = v.send.counted;
        capped = v.send.capped;
        messages = v.send.messages;
      };
      recv = v.recv;
      exact = v.exact;
      swnd_in = omega arith;
      rwnd_in = v.rwnd_in;
      acked_in = v.acked_in;
    }

before_last-InStep : InStep before_last
unfolding claim_socket initialize_buffer
before_last-InStep = record {
  placed = refl;
  used = λ k h. absurd (omega arith);
  bare = λ k l h. get_or-replicate {A = Bool} 10 ((255 + k) % 10) true;
  sent = omega arith;
}

abbrev last_one : KtpSocket
last_one = record before_last {
  send_buffer = push_message zero_message before_last.send_buffer;
  swnd = record { size = 10; head = 255; tail = 0 };
}

last_one-InStep : InStep last_one
unfolding claim_socket push_message
last_one-InStep =
    let (q, _) =
      push_message-InStep zero_message before_last before_last-IsSocket before_last-InStep
        (omega arith) in
    record { placed = q.placed; used = q.used; bare = q.bare; sent = omega arith }

sthread_socket-wrap_stalls_example :
    (s₁ : KtpSocket) × (s₂ : KtpSocket) × (handle_ack 255 10 last_one ≡ running (s₁, []))
    × (s₁.swnd.size ≡ 10)
    × Accepts (zero_message ∷ []) s₁ s₂
    × (s₂.send_buffer.filled ≡ 1)
    × ((now : ℕ) (times : Timeouts)
        → sthread_socket now times s₂ ≡ running (s₂, (check_retransmission now times s₂).0, []))
unfolding claim_socket push_message
sthread_socket-wrap_stalls_example =
    sthread_socket-wrap_stalls 10 (zero_message ∷ []) last_one last_one-InStep refl refl refl refl
      (omega arith)

none-IsTimeouts : IsTimeouts no_timeouts
none-IsTimeouts = record { first_in = tt; second_in = tt }

sthread_socket_lem_example :
    (s' : KtpSocket) × (times' : Timeouts) × (actions : List Action) × (sthread_socket 100
        no_timeouts accepted
      ≡ running (s', times', actions))
    × Sent 100
        (check_retransmission 100 no_timeouts accepted).0
        (check_retransmission 100 no_timeouts accepted).1
        accepted
        s'
        times'
        actions
unfolding claim_socket
sthread_socket_lem_example =
    sthread_socket_lem 100 no_timeouts accepted accepted-IsSocket none-IsTimeouts refl

abbrev sent_at_ninety : Timeout
sent_at_ninety = record { time = 90; head = 0; tail = 1 }

sthread_socket-retransmits_example :
    (t : ℕ) × (actions : List Action) × (sthread_socket 100
        (record { first = some sent_at_ninety; second = none })
        in_flight
      ≡ running (
        with_tail t in_flight,
        record {
          first = some (record { time = 100; head = in_flight.swnd.head; tail = t });
          second = none;
        },
        actions,
      ))
    × Advanced in_flight t
    × Segment (with_tail t in_flight) in_flight.swnd.head (distance in_flight.swnd.head t) actions
unfolding claim_socket inwndw
sthread_socket-retransmits_example =
    sthread_socket-retransmits 100 sent_at_ninety none in_flight in_flight-IsSocket refl refl
      (omega arith)
