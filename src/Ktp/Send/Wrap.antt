-- ===== src/Ktp/Send/Wrap.antt =====
-- What the wrap of the sequence numbers does to the send buffer: 256 is no multiple of the ten
-- slots, so the slot that `SThread` looks at is not the one that `k_sendto` writes next.
use networks_lab_cs39006_spr.Prelude.{
  ℕ, suc, ◌+◌, ◌-◌, ◌%◌, ◌≤◌, ◌<◌, ◌≡◌, refl, Bool, true, false, some, none, Option, List, [], ◌∷◌,
  length, set, get_or-set_ne, arith, ◌&&◌, ◌||◌, leb, ap, ap₂, sym, ◌∙◌, if_true, if_false, ◌==◌,
  ==-ne, ==-self, ==_iff,
}
use networks_lab_cs39006_spr.Ktp.Types.{KtpSocket, Buffer, IpPort, ok, max_message, message_len}
use networks_lab_cs39006_spr.Ktp.Socket.{
  slot_empty, push_message, same_address, sendto_socket, zero_message,
}
use networks_lab_cs39006_spr.Ktp.Window.{inwndw, wndwsize, next_seq, prev_seq}
use networks_lab_cs39006_spr.Ktp.Receiver.{
  running, release_head, release_acked, set_swnd_size, handle_ack,
}
use networks_lab_cs39006_spr.Ktp.Sender.{
  Timeout, Timeouts, check_entries, check_retransmission, advance_tail, after_advance,
  sthread_socket,
}
use networks_lab_cs39006_spr.Ktp.Send.Queue.{InStep, first_used}
use networks_lab_cs39006_spr.Ktp.Send.Release.{handle_ack_released}

-- The buffer after the messages, oldest first.
abbrev push_all : List (List ℕ) → Buffer → Buffer
push_all [] b = b
push_all (m ∷ ms) b = push_all ms (push_message m b)

push_all_slot :
    (ms : List (List ℕ)) (b : Buffer)
    → 0 < b.iter
    → b.iter + length ms ≤ max_message
    → slot_empty b 0 ≡ true
    → slot_empty (push_all ms b) 0 ≡ true
unfolding push_message
push_all_slot [] b low room bare = bare
push_all_slot (m ∷ []) b low room bare =
    get_or-set_ne b.isempty b.iter 0 false true (λ e. omega arith) ∙ bare
push_all_slot (m ∷ n ∷ ms) b low room bare =
    push_all_slot (n ∷ ms) (push_message m b) (omega arith) (omega arith)
      (get_or-set_ne b.isempty b.iter 0 false true (λ e. omega arith) ∙ bare)

push_all_filled : (ms : List (List ℕ)) (b : Buffer) → (push_all ms b).filled ≡ b.filled + length ms
unfolding push_message
push_all_filled [] b = omega arith
push_all_filled (m ∷ ms) b = omega (arith, push_all_filled ms (push_message m b))

-- The calls of `k_sendto` for the messages, one after the other, are all accepted.
abbrev pub Accepts : List (List ℕ) → KtpSocket → KtpSocket → Type 0
Accepts [] s s' = s' ≡ s
Accepts (m ∷ ms) s s' =
    (t : KtpSocket) × (sendto_socket m message_len s.dest s ≡ (ok message_len, t)) × Accepts ms t s'

same_address_self : (a : IpPort) → same_address a a ≡ true
same_address_self a = ap₂ (λ x y. x && y) (==-self a.ip) (==-self a.port)

push_all-Accepts :
    (ms : List (List ℕ)) (s : KtpSocket)
    → s.send_buffer.filled + length ms ≤ max_message
    → Accepts ms s (record s { send_buffer = push_all ms s.send_buffer })
unfolding sendto_socket push_message
push_all-Accepts [] s h = refl
push_all-Accepts (m ∷ ms) s h =
    let t : KtpSocket = record s { send_buffer = push_message m s.send_buffer } in
    (
      t,
      if_true (same_address s.dest s.dest) _ _ (same_address_self s.dest)
          ∙ if_false (s.send_buffer.filled == max_message) _ _
              (==-ne s.send_buffer.filled max_message (λ e. omega (arith, e, h))),
      push_all-Accepts ms t (omega (arith, h)),
    )

-- The socket whose first message is given back, with the window's new size.
abbrev freed : ℕ → KtpSocket → KtpSocket
freed wndw s = record s {
  send_buffer = record {
    buff = set s.send_buffer.buff (s.swnd.head % max_message) zero_message;
    filled = s.send_buffer.filled - 1;
    iter = s.send_buffer.iter;
    isempty = set s.send_buffer.isempty (s.swnd.head % max_message) true;
  };
  swnd = record { size = wndw; head = next_seq s.swnd.head; tail = s.swnd.tail };
}

last_acknowledged :
    (wndw : ℕ) (s : KtpSocket)
    → InStep s
    → s.swnd.head ≡ 255
    → s.swnd.tail ≡ 0
    → s.send_buffer.filled ≡ 1
    → handle_ack 255 wndw s ≡ running (freed wndw s, [])
unfolding release_acked release_head set_swnd_size inwndw wndwsize
last_acknowledged wndw s q head tail one =
    let used = first_used s q (omega (arith, one)) in
    let given : release_head s ≡ freed s.swnd.size s =
      if_false (slot_empty s.send_buffer (s.swnd.head % max_message)) _ _ used in
    handle_ack_released 255 wndw s (freed s.swnd.size s)
      (==-ne (wndwsize s.swnd) 0 (λ e. ground (arith, e, head, tail))) (ground (arith, head, tail))
      (if_true (next_seq 255 == (release_head s).swnd.head) _ _ (
          ap (λ (t : KtpSocket). next_seq 255 == t.swnd.head) given
          ∙ (==_iff (next_seq 255) (next_seq s.swnd.head)).1 (ap next_seq (sym head)))
        ∙ ap some given)

-- The loop that takes messages looks at slot 0 first.
advance_tail_stops :
    (fuel : ℕ) (needed : Bool) (s : KtpSocket)
    → s.swnd.tail ≡ 0
    → slot_empty s.send_buffer 0 ≡ true
    → advance_tail (suc fuel) needed s ≡ some (s, needed)
unfolding advance_tail
advance_tail_stops fuel needed s at bare =
    if_true
      (slot_empty s.send_buffer (s.swnd.tail % max_message) || leb s.swnd.size (wndwsize s.swnd)) _
      _
      (ap (λ b. b || leb s.swnd.size (wndwsize s.swnd))
        (ap (λ n. slot_empty s.send_buffer (n % max_message)) at ∙ bare))

closed_window : (seq head tail : ℕ) → head ≡ tail → inwndw seq head tail ≡ false
unfolding inwndw
closed_window seq head tail e = ground (arith, e)

nothing_late :
    (now : ℕ) (first second : Option Timeout) (s : KtpSocket)
    → s.swnd.head ≡ s.swnd.tail
    → (check_entries now first second s).1 ≡ false
unfolding check_entries
nothing_late now none second s e = refl
nothing_late now (some t) second s e =
    ap (λ (r : Timeouts × Bool). r.1)
      (if_false (inwndw (prev_seq t.tail) s.swnd.head s.swnd.tail) _ _
        (closed_window (prev_seq t.tail) s.swnd.head s.swnd.tail e))

-- A round with nothing in the window and nothing in slot 0.
quiet_round :
    (now : ℕ) (times : Timeouts) (s : KtpSocket)
    → s.in_use ≡ true
    → s.swnd.head ≡ 0
    → s.swnd.tail ≡ 0
    → slot_empty s.send_buffer 0 ≡ true
    → sthread_socket now times s ≡ running (s, (check_retransmission now times s).0, [])
unfolding sthread_socket check_retransmission after_advance
quiet_round now times s used head tail bare =
    let (times', needed) = check_retransmission now times s in
    let calm : needed ≡ false = nothing_late now times.first times.second s (head ∙ sym tail) in
    if_true s.in_use _ _ used
    ∙ ap (after_advance now times') (advance_tail_stops 255 needed s tail bare)
    ∙ if_false needed _ _ calm

-- On a socket in use whose send buffer holds just the message of number 255, in that number's slot
-- with the write index behind it and all others empty, as after 256 messages, and whose send
-- window holds just that number, its ACK is taken whatever room it tells, up to four further calls
-- of k_sendto in a row to the bound address are all accepted and their messages wait in the
-- buffer, and then every round of the sending thread, at any time and with any recorded entries,
-- sends nothing and leaves the socket as it is.
pub sthread_socket-wrap_stalls :
    (wndw : ℕ) (ms : List (List ℕ)) (s : KtpSocket)
    → InStep s
    → s.in_use ≡ true
    → s.swnd.head ≡ 255
    → s.swnd.tail ≡ 0
    → s.send_buffer.filled ≡ 1
    → length ms ≤ 4
    → (s₁ : KtpSocket) × (s₂ : KtpSocket) × (handle_ack 255 wndw s ≡ running (s₁, []))
      × (s₁.swnd.size ≡ wndw)
      × Accepts ms s₁ s₂
      × (s₂.send_buffer.filled ≡ length ms)
      × ((now : ℕ) (times : Timeouts)
          → sthread_socket now times s₂ ≡ running (s₂, (check_retransmission now times s₂).0, []))
sthread_socket-wrap_stalls wndw ms s q used head tail one few =
    let b : Buffer = (freed wndw s).send_buffer in
    let at_six : b.iter ≡ 6 = omega (arith, q.placed, head, one) in
    let slot_five : s.swnd.head % max_message ≡ 5 = omega (arith, head) in
    let zero_slot : (s.swnd.head + 5) % max_message ≡ 0 = omega (arith, head) in
    let bare : slot_empty b 0 ≡ true =
      get_or-set_ne s.send_buffer.isempty (s.swnd.head % max_message) 0 true true
        (λ e. omega (arith, e, slot_five))
      ∙ ap (slot_empty s.send_buffer) (sym zero_slot)
      ∙ q.bare 5 (omega (arith, one)) (omega arith) in
    let count : b.filled ≡ 0 = omega (arith, one) in
    let s₂ : KtpSocket = record (freed wndw s) { send_buffer = push_all ms b } in
    (
      freed wndw s,
      s₂,
      last_acknowledged wndw s q head tail one,
      refl,
      push_all-Accepts ms (freed wndw s) (omega (arith, count, few)),
      omega (arith, push_all_filled ms b, count),
      λ now times.
          quiet_round now times s₂ used (omega (arith, head)) tail
            (push_all_slot ms b (omega (arith, at_six)) (omega (arith, at_six, few)) bare),
    )
