-- ===== src/Ktp/Receive/Offset.antt =====
-- The sequence numbers of `transmit_segment` against those of `handle_socket_data`: a packet that
-- the sending thread numbers n is n - 1 to the receiving thread.
use networks_lab_cs39006_spr.Prelude.{
  ℕ, ◌%◌, ◌<◌, ◌≡◌, refl, true, false, List, ◌∷◌, arith, ap, ◌∙◌, if_true, not, ◌&&◌,
}
use networks_lab_cs39006_spr.Ktp.Types.{KtpSocket, Action, message_len, max_message, seq_num}
use networks_lab_cs39006_spr.Ktp.Window.{inwndw, next_seq, prev_seq, distance}
use networks_lab_cs39006_spr.Ktp.Packet.{copy_bytes, open_packet}
use networks_lab_cs39006_spr.Ktp.Packet.RoundTrip.{copied_twice}
use networks_lab_cs39006_spr.Ktp.Socket.{slot_empty, same_address}
use networks_lab_cs39006_spr.Ktp.Receiver.{
  running, handle_data, handle_opened, handle_ready, datagram, drop_message,
}
use networks_lab_cs39006_spr.Ktp.Buffers.{IsMessage}
use networks_lab_cs39006_spr.Ktp.Invariant.Defs.{IsSocket}
use networks_lab_cs39006_spr.Ktp.Receive.Deliver.{Delivered, handle_data-in_order}
use networks_lab_cs39006_spr.Ktp.Receive.Total.{Refused, handle_data-outside}

-- The DATA packet that `transmit_segment` sends.
abbrev pub dat_packet : ℕ → List ℕ → List ℕ
dat_packet seq m = seq % 256 ∷ b'0' ∷ 0 ∷ 0 ∷ copy_bytes message_len m

opened :
    (m : List ℕ) (seq rand : ℕ) (r : KtpSocket)
    → IsMessage m
    → seq < seq_num
    → r.in_use ≡ true
    → handle_ready (datagram (dat_packet seq m) r.dest) rand r
      ≡ handle_data (prev_seq seq) m r.dest r
unfolding handle_ready handle_opened drop_message open_packet
opened m seq rand r h k u =
    if_true (r.in_use && same_address r.dest r.dest && not (drop_message rand)) _ _ accepted
    ∙ ap (λ p. handle_data (prev_seq (seq % 256 % 256)) p r.dest r) (copied_twice m h)
    ∙ ap (λ n. handle_data n m r.dest r)
        (let same : prev_seq (seq % 256 % 256) ≡ prev_seq seq = omega arith in same)
  where
    accepted : (r.in_use && same_address r.dest r.dest && not (drop_message rand)) ≡ true
    accepted = ground arith

not_expected :
    (n : ℕ) (r : KtpSocket)
    → IsSocket r
    → n ≡ r.rwnd.head
    → inwndw (prev_seq n) r.rwnd.head r.rwnd.tail ≡ false
unfolding inwndw
not_expected n r v e = ground arith

-- A DATA packet that the sender numbers with the very number that the receiver expects is refused
-- whatever its message: the receive buffer and window stay as they are.
pub handle_ready-Refused :
    (m : List ℕ) (rand : ℕ) (r : KtpSocket)
    → IsSocket r
    → IsMessage m
    → r.in_use ≡ true
    → (r' : KtpSocket) × (actions : List Action) × (handle_ready
          (datagram (dat_packet r.rwnd.head m) r.dest)
          rand
          r
        ≡ running (r', actions))
      × Refused (prev_seq r.rwnd.head) r.dest r r' actions
handle_ready-Refused m rand r v h u =
    let (r', actions, e, refused) =
      handle_data-outside (prev_seq r.rwnd.head) m r.dest r v (not_expected r.rwnd.head r v refl) in
    (r', actions, opened m r.rwnd.head rand r h v.rwnd_in.head_in u ∙ e, refused)

-- A DATA packet that the sender numbers one higher than the number expected is delivered in the
-- expected place, with an open window and a free slot.
pub handle_ready-Delivered :
    (m : List ℕ) (rand : ℕ) (r : KtpSocket)
    → IsSocket r
    → IsMessage m
    → r.in_use ≡ true
    → 0 < distance r.rwnd.head r.rwnd.tail
    → slot_empty r.recv_buffer (r.rwnd.head % max_message) ≡ true
    → (r' : KtpSocket) × (actions : List Action) × (handle_ready
          (datagram (dat_packet (next_seq r.rwnd.head) m) r.dest)
          rand
          r
        ≡ running (r', actions))
      × Delivered m r.dest r r' actions
handle_ready-Delivered m rand r v h u open_window free =
    let (r', actions, e, done) = handle_data-in_order m r.dest r v open_window free in
    (
      r',
      actions,
      opened m (next_seq r.rwnd.head) rand r h (omega arith) u
          ∙ ap (λ n. handle_data n m r.dest r)
              (let same : prev_seq (next_seq r.rwnd.head) ≡ r.rwnd.head = omega arith in same)
          ∙ e,
      done,
    )
