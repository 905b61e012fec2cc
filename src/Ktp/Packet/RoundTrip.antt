-- ===== src/Ktp/Packet/RoundTrip.antt =====
-- What a packet that one side builds says to the side that opens it.
use networks_lab_cs39006_spr.Prelude.{
  ℕ, ◌+◌, ◌%◌, ◌<◌, ◌≡◌, refl, true, false, List, none, some, arith, ◌∙◌,
}
use networks_lab_cs39006_spr.Ktp.Types.{header_size, message_len, seq_num}
use networks_lab_cs39006_spr.Ktp.Window.{prev_seq}
use networks_lab_cs39006_spr.Ktp.Packet.{
  create_ack_packet, create_dat_packet, open_packet, copy_bytes, copy_bytes_all, length-copy_bytes,
}
use networks_lab_cs39006_spr.Ktp.Buffers.{IsMessage}

pub copied_twice :
    (m : List ℕ) → IsMessage m → copy_bytes message_len (copy_bytes message_len m) ≡ m
copied_twice m h =
    copy_bytes_all message_len (copy_bytes message_len m) (length-copy_bytes message_len m)
    ∙ copy_bytes_all message_len m h

-- A DATA packet with a number below 256 and a message of 512 bytes opens with that message and
-- with the number one less, 0 being followed down by 255.
pub open-create_dat_packet :
    (m : List ℕ) (seq ack wndw : ℕ)
    → IsMessage m
    → seq < seq_num
    → (packet : List ℕ) × (create_dat_packet (header_size + message_len) m seq ack wndw
        ≡ some packet)
      × (open_packet packet ≡ record {
        seq = prev_seq seq;
        ack = ack % 256;
        is_ack = false;
        recv_wndw = wndw % 256;
        payload = some m;
      })
unfolding create_dat_packet open_packet
open-create_dat_packet m seq ack wndw h k = (_, refl, ground (arith, copied_twice m h))

-- An ACK packet opens as an ACK without a message, with the acknowledged number and the window
-- that it was made with, both below 256.
pub open-create_ack_packet :
    (seq ack wndw : ℕ)
    → ack < seq_num
    → wndw < seq_num
    → (packet : List ℕ) × (create_ack_packet header_size seq ack wndw ≡ some packet)
      × ((open_packet packet).is_ack ≡ true)
      × ((open_packet packet).payload ≡ none)
      × ((open_packet packet).ack ≡ ack)
      × ((open_packet packet).recv_wndw ≡ wndw)
unfolding create_ack_packet open_packet
open-create_ack_packet seq ack wndw h k = (_, refl, refl, refl, omega arith, omega arith)
