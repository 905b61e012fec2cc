-- ===== src/Ktp/Invariant/Receive.antt =====
-- The receiving thread keeps every socket well formed.
use networks_lab_cs39006_spr.Prelude.{
  ℕ, zero, suc, ◌%◌, ◌<◌, ◌≡◌, refl, Bool, true, false, List, [], Option, none, some, Bool-cases,
  inl, inr, arith, sym, ◌∙◌, ◌==◌, if◌then◌else◌, ◌&&◌, not, get_or, drop, subst, some-injective,
}
use networks_lab_cs39006_spr.Ktp.Types.{
  IpPort, KtpSocket, max_message, seq_num, message_len, header_size,
}
use networks_lab_cs39006_spr.Ktp.Window.{next_seq, prev_seq, inwndw, wndwsize}
use networks_lab_cs39006_spr.Ktp.Packet.{open_packet, to_byte, copy_bytes}
use networks_lab_cs39006_spr.Ktp.Socket.{same_address, slot_empty}
use networks_lab_cs39006_spr.Ktp.Receiver.{
  running, hung, store_data, acknowledge, accept_data, handle_data, release_head, release_acked,
  set_swnd_size, handle_ack, handle_ready, Received, failed, empty, datagram, handle_opened,
  drop_message, release_fuel,
}
use networks_lab_cs39006_spr.Ktp.Buffers.{
  store_data-IsBuffer, filled-store_data, release_slot-IsBuffer,
}
use networks_lab_cs39006_spr.Ktp.Invariant.Defs.{IsSocket, Sound}

store_data-IsSocket :
    (seq : ℕ) (m : List ℕ) {s : KtpSocket}
    → IsSocket s
    → slot_empty s.recv_buffer (seq % max_message) ≡ true
    → IsSocket (record s { recv_buffer = store_data seq m s.recv_buffer })
store_data-IsSocket seq m {s} v e =
    let (fine, now) = store_data-IsBuffer seq m v.recv v.exact e in
    record {
      send = v.send;
      recv = fine;
      exact = now ∙ sym (filled-store_data seq m s.recv_buffer);
      swnd_in = v.swnd_in;
      rwnd_in = v.rwnd_in;
      acked_in = v.acked_in;
    }

acknowledge-IsSocket :
    (sender : IpPort) (stop : ℕ) {s : KtpSocket}
    → IsSocket s
    → IsSocket (acknowledge sender stop s).0
unfolding acknowledge
acknowledge-IsSocket sender stop {s} v = record {
  send = v.send;
  recv = v.recv;
  exact = v.exact;
  swnd_in = v.swnd_in;
  rwnd_in = record {
    head_in = omega arith;
    tail_in = v.rwnd_in.tail_in;
    size_in = v.rwnd_in.size_in;
  };
  acked_in = omega arith;
}

accept_data-IsSocket :
    (seq : ℕ) (m : List ℕ) (sender : IpPort) {s : KtpSocket}
    → IsSocket s
    → slot_empty s.recv_buffer (seq % max_message) ≡ true
    → Sound (accept_data seq m sender s)
unfolding accept_data
accept_data-IsSocket seq m sender {s} v e = ground (arith, store_data-IsSocket seq m v e)

pub nospace-IsSocket : (f : Bool) {s : KtpSocket} → IsSocket s → IsSocket (record s { nospace = f })
nospace-IsSocket f {s} v = record {
  send = v.send;
  recv = v.recv;
  exact = v.exact;
  swnd_in = v.swnd_in;
  rwnd_in = v.rwnd_in;
  acked_in = v.acked_in;
}

handle_data-IsSocket :
    (seq : ℕ) (m : List ℕ) (sender : IpPort) {s : KtpSocket}
    → IsSocket s
    → Sound (handle_data seq m sender s)
unfolding handle_data
handle_data-IsSocket seq m sender {s} v =
    ground (arith, accept_data-IsSocket seq m sender (nospace-IsSocket false v))

pub release_head-IsSocket : {s : KtpSocket} → IsSocket s → IsSocket (release_head s)
unfolding release_head
release_head-IsSocket {s} v =
    elim (Bool-cases (slot_empty s.send_buffer (s.swnd.head % max_message))) [
      | inl e ↦ rw e v
      | inr e ↦ rw e (record {
        send = release_slot-IsBuffer (s.swnd.head % max_message) v.send e;
        recv = v.recv;
        exact = v.exact;
        swnd_in = record {
          head_in = omega arith;
          tail_in = v.swnd_in.tail_in;
          size_in = v.swnd_in.size_in;
        };
        rwnd_in = v.rwnd_in;
        acked_in = v.acked_in;
      })
    ]

pub release_acked-IsSocket :
    (fuel ack : ℕ) {s t : KtpSocket} → IsSocket s → release_acked fuel ack s ≡ some t → IsSocket t
unfolding release_acked
release_acked-IsSocket zero ack v e = cc
release_acked-IsSocket (suc fuel) ack {s} {t} v e =
    elim (Bool-cases (next_seq ack == (release_head s).swnd.head)) [
      | inl b ↦ subst IsSocket (some-injective _ _ (rw b at e)) (release_head-IsSocket v)
      | inr b ↦
          release_acked-IsSocket fuel ack {s = release_head s} (release_head-IsSocket v) (rw b at e)
    ]

set_swnd_size-IsSocket :
    (size : ℕ) {s : KtpSocket} → size < seq_num → IsSocket s → IsSocket (set_swnd_size size s)
unfolding set_swnd_size
set_swnd_size-IsSocket size {s} h v = record {
  send = v.send;
  recv = v.recv;
  exact = v.exact;
  swnd_in = record { head_in = v.swnd_in.head_in; tail_in = v.swnd_in.tail_in; size_in = h };
  rwnd_in = v.rwnd_in;
  acked_in = v.acked_in;
}

-- The last step of `handle_ack`, at what the loop leaves.
finish_ack-Sound :
    (wndw : ℕ) (o : Option KtpSocket)
    → wndw < seq_num
    → ((t : KtpSocket) → o ≡ some t → IsSocket t)
    → Sound (elim o [ none ↦ hung | some t ↦ running (set_swnd_size wndw t, []) ])
finish_ack-Sound wndw none h v = tt
finish_ack-Sound wndw (some t) h v = set_swnd_size-IsSocket wndw h (v t refl)

release_window-Sound :
    (ack wndw : ℕ) {s : KtpSocket}
    → wndw < seq_num
    → IsSocket s
    → Sound (
        if inwndw ack s.swnd.head s.swnd.tail
        then elim (release_acked release_fuel ack s) [
          | none ↦ hung
          | some t ↦ running (set_swnd_size wndw t, [])
        ]
        else running (s, []))
release_window-Sound ack wndw {s} h v = elim (Bool-cases (inwndw ack s.swnd.head s.swnd.tail)) [
  | inl e ↦ rw e (
      finish_ack-Sound wndw (release_acked release_fuel ack s) h
        (λ t r. release_acked-IsSocket release_fuel ack v r))
  | inr e ↦ rw e v
]

handle_ack-IsSocket :
    (ack wndw : ℕ) {s : KtpSocket} → wndw < seq_num → IsSocket s → Sound (handle_ack ack wndw s)
unfolding handle_ack
handle_ack-IsSocket ack wndw {s} h v =
    elim (Bool-cases ((wndwsize s.swnd == 0) && (ack == prev_seq s.swnd.tail))) [
      | inl e ↦ rw e (release_window-Sound ack wndw h (set_swnd_size-IsSocket wndw h v))
      | inr e ↦ rw e (release_window-Sound ack wndw h v)
    ]

handle_opened-IsSocket :
    (bytes : List ℕ) (sender : IpPort) {s : KtpSocket}
    → IsSocket s
    → Sound (handle_opened (open_packet bytes) sender s)
unfolding handle_opened open_packet
handle_opened-IsSocket bytes sender {s} v = elim (Bool-cases (get_or bytes 1 0 == b'1')) [
  | inl e ↦ rw e (
      handle_ack-IsSocket (to_byte (get_or bytes 2 0)) (to_byte (get_or bytes 3 0)) (omega arith) v)
  | inr e ↦ rw e (
      handle_data-IsSocket (prev_seq (to_byte (get_or bytes 0 0)))
        (copy_bytes message_len (drop header_size bytes)) sender v)
]

pub handle_ready-IsSocket :
    (r : Received) (rand : ℕ) {s : KtpSocket} → IsSocket s → Sound (handle_ready r rand s)
unfolding handle_ready
handle_ready-IsSocket failed rand {s} v = ground arith
handle_ready-IsSocket empty rand {s} v = ground arith
handle_ready-IsSocket (datagram bytes sender) rand {s} v =
    elim (Bool-cases (s.in_use && same_address sender s.dest && not (drop_message rand))) [
      | inl e ↦ rw e (handle_opened-IsSocket bytes sender v)
      | inr e ↦ rw e v
    ]
