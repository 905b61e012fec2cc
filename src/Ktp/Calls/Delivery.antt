-- ===== src/Ktp/Calls/Delivery.antt =====
-- From the receive buffer to the application, and the window that opens behind it.
use networks_lab_cs39006_spr.Prelude.{
  ℕ, ◌%◌, ◌≡◌, ◌≢◌, true, false, List, [], ◌∷◌, get_or, set, get_or-set_self, ◌==◌, ◌||◌, ◌&&◌,
  if_true, if_false, ltb, arith, ap, ap₂, sym, ◌∙◌, ==-ne, ==-self,
}
use networks_lab_cs39006_spr.Ktp.Types.{
  Window, ok, IpPort, KtpSocket, Action, sendto, message_len, max_message,
}
use networks_lab_cs39006_spr.Ktp.Window.{
  next_seq, prev_seq, distance, inwndw, wndwsize, wndwsize-distance,
}
use networks_lab_cs39006_spr.Ktp.Packet.{copy_bytes}
use networks_lab_cs39006_spr.Ktp.Packet.RoundTrip.{copied_twice}
use networks_lab_cs39006_spr.Ktp.Socket.{slot, slot_empty, recvfrom_socket, pop_message}
use networks_lab_cs39006_spr.Ktp.Rthread.{window_update}
use networks_lab_cs39006_spr.Ktp.Receiver.{running, store_data, handle_ack, set_swnd_size}
use networks_lab_cs39006_spr.Ktp.Buffers.{IsMessage}
use networks_lab_cs39006_spr.Ktp.Invariant.Defs.{IsSocket}
use networks_lab_cs39006_spr.Ktp.Receive.Deliver.{Delivered, ack_packet, send_ack_lem}

-- The reading of a slot that is in use.
taken : ℕ → KtpSocket → KtpSocket
taken len s = record s {
  recv_buffer = pop_message s.recv_buffer;
  rwnd = record (s.rwnd) { tail = next_seq s.rwnd.tail };
}

recvfrom_taken :
    (len : ℕ) (s : KtpSocket)
    → s.recv_buffer.filled ≢ 0
    → slot_empty s.recv_buffer s.recv_buffer.iter ≡ false
    → recvfrom_socket len s
      ≡ (ok (len, copy_bytes message_len (slot s.recv_buffer s.recv_buffer.iter)), taken len s)
unfolding recvfrom_socket taken
recvfrom_taken len s some used =
    if_false ((s.recv_buffer.filled == 0) || slot_empty s.recv_buffer s.recv_buffer.iter) _ _
      (ap₂ ◌||◌ (==-ne s.recv_buffer.filled 0 some) used)

stored_filled : (seq : ℕ) (s : KtpSocket) (m : List ℕ) → (store_data seq m s.recv_buffer).filled ≢ 0
unfolding store_data
stored_filled seq s m e = omega arith

stored_slot :
    (s : KtpSocket) (m : List ℕ)
    → IsSocket s
    → IsMessage m
    → s.recv_buffer.iter ≡ s.rwnd.head % max_message
    → let b = store_data s.rwnd.head m s.recv_buffer in
      (slot_empty b b.iter ≡ false) × (copy_bytes message_len (slot b b.iter) ≡ m)
unfolding store_data
stored_slot s m v h at = (
  ap (λ i. get_or (set s.recv_buffer.isempty (s.rwnd.head % max_message) false) i true) at
      ∙ get_or-set_self s.recv_buffer.isempty (s.rwnd.head % max_message) false true
          (omega (arith, v.recv.flags)),
  ap (copy_bytes message_len) (
        ap
          (λ i.
            get_or (set s.recv_buffer.buff (s.rwnd.head % max_message) (copy_bytes message_len m)) i
              [])
          at
        ∙ get_or-set_self s.recv_buffer.buff (s.rwnd.head % max_message) (copy_bytes message_len m)
            [] (omega (arith, v.recv.slots)))
      ∙ copied_twice m h,
)

-- The application that has read everything before gets exactly the message that the thread has
-- just delivered, and its reading moves the end of the receive window on by one.
pub recvfrom-Delivered :
    (len : ℕ) (m : List ℕ) (sender : IpPort) (s s' : KtpSocket) (actions : List Action)
    → IsSocket s
    → IsMessage m
    → s.recv_buffer.iter ≡ s.rwnd.head % max_message
    → Delivered m sender s s' actions
    → ((recvfrom_socket len s').0 ≡ ok (len, m))
      × ((recvfrom_socket len s').1.rwnd.tail ≡ next_seq s.rwnd.tail)
unfolding taken
recvfrom-Delivered len m sender s s' actions v h at d =
    let (used, whole) = stored_slot s m v h at in
    let e =
      recvfrom_taken len s'
        (λ z. stored_filled s.rwnd.head s m (ap (λ b. b.filled) (sym d.buffer) ∙ z))
        (ap (λ b. slot_empty b b.iter) d.buffer ∙ used) in
    (
      ap (λ r. r.0) e
          ∙ ap (λ b. ok (len, copy_bytes message_len (slot b b.iter))) d.buffer
          ∙ ap (λ w. ok (len, w)) whole,
      ap (λ r. r.1.rwnd.tail) e ∙ ap next_seq d.tail_kept,
    )

update_taken :
    (len : ℕ) (s : KtpSocket)
    → IsSocket s
    → s.in_use ≡ true
    → s.nospace ≡ true
    → s.rwnd.head ≡ s.rwnd.tail
    → window_update (taken len s)
      ≡ (true, sendto s.sockfd s.dest (ack_packet 0 s.last_acked 1) ∷ [])
unfolding window_update taken
update_taken len s v u full closed =
    if_true
      (s.in_use && s.nospace && ltb 0 (wndwsize (record (s.rwnd) { tail = next_seq s.rwnd.tail })))
      _ _ (ground (arith, one))
    ∙ ap (λ n. (true, n))
        (send_ack_lem s s.dest 0 s.last_acked _
          ∙ ap (λ n. sendto s.sockfd s.dest (ack_packet 0 s.last_acked n) ∷ []) one)
  where
    one : wndwsize (record (s.rwnd) { tail = next_seq s.rwnd.tail }) ≡ 1
    one =
        wndwsize-distance (record (s.rwnd) { tail = next_seq s.rwnd.tail }) v.rwnd_in.head_in
          (omega arith)
        ∙ (let step : distance s.rwnd.head (next_seq s.rwnd.tail) ≡ 1 =
              omega (arith, v.rwnd_in.head_in) in
            step)

-- After a closed window has been advertised, the reading of a message makes the next window update
-- of the socket an ACK of the last acknowledged number with a window of one.
pub window_update-recvfrom :
    (len : ℕ) (s : KtpSocket)
    → IsSocket s
    → s.in_use ≡ true
    → s.nospace ≡ true
    → s.rwnd.head ≡ s.rwnd.tail
    → s.recv_buffer.filled ≢ 0
    → slot_empty s.recv_buffer s.recv_buffer.iter ≡ false
    → window_update (recvfrom_socket len s).1
      ≡ (true, sendto s.sockfd s.dest (ack_packet 0 s.last_acked 1) ∷ [])
window_update-recvfrom len s v u full closed some used =
    ap (λ r. window_update r.1) (recvfrom_taken len s some used)
    ∙ update_taken len s v u full closed

nothing_sent : (w : Window) → w.head ≡ w.tail → (wndwsize w == 0) ≡ true
unfolding wndwsize
nothing_sent w same = ground arith

nothing_in : (seq : ℕ) (w : Window) → w.head ≡ w.tail → inwndw seq w.head w.tail ≡ false
unfolding inwndw
nothing_in seq w same = ground arith

-- A sender with nothing in flight takes an ACK of the last number that it sent as its new window,
-- and changes nothing else.
pub handle_ack-reopens :
    (wndw : ℕ) (s : KtpSocket)
    → s.swnd.head ≡ s.swnd.tail
    → handle_ack (prev_seq s.swnd.tail) wndw s ≡ running (set_swnd_size wndw s, [])
unfolding handle_ack set_swnd_size
handle_ack-reopens wndw s same =
    simp (nothing_sent s.swnd same, ==-self, nothing_in (prev_seq s.swnd.tail) s.swnd same)
