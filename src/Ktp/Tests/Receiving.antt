-- ===== src/Ktp/Tests/Receiving.antt =====
-- A receiving socket: claimed by process 7 and bound to its peer, with nothing received yet.
use networks_lab_cs39006_spr.Prelude.{
  ℕ, ◌+◌, ◌<◌, ◌≡◌, ◌↔◌, refl, true, false, List, [], ◌∷◌, some, arith,
}
use networks_lab_cs39006_spr.Ktp.Types.{
  pos, KtpSocket, SmData, Action, close, header_size, message_len,
}
use networks_lab_cs39006_spr.Ktp.Window.{inwndw, wndwsize, distance, inwndw_iff, prev_seq}
use networks_lab_cs39006_spr.Ktp.Packet.{create_dat_packet, open_packet}
use networks_lab_cs39006_spr.Ktp.Packet.RoundTrip.{open-create_dat_packet}
use networks_lab_cs39006_spr.Ktp.Socket.{
  zero_message, no_address, sockreset, claim, claim_socket, close_fd,
}
use networks_lab_cs39006_spr.Ktp.Receiver.{running, handle_data, handle_ready, datagram}
use networks_lab_cs39006_spr.Ktp.Init.{init_sockets, open_fresh, after_fresh}
use networks_lab_cs39006_spr.Ktp.System.{start, later, claims}
use networks_lab_cs39006_spr.Ktp.Buffers.{zero_message-IsMessage}
use networks_lab_cs39006_spr.Ktp.Invariant.Defs.{IsSocket}
use networks_lab_cs39006_spr.Ktp.Invariant.Calls.{claim_socket-IsSocket}
use networks_lab_cs39006_spr.Ktp.Invariant.Reach.{IsShm, Reach-IsShm}
use networks_lab_cs39006_spr.Ktp.Receive.Deliver.{Delivered, handle_data-in_order}
use networks_lab_cs39006_spr.Ktp.Receive.Total.{Refused, handle_data_returns}
use networks_lab_cs39006_spr.Ktp.Receive.Offset.{dat_packet, handle_ready-Refused}

-- An entry of the shared segment as `shmget` makes it.
abbrev pub blank : KtpSocket
blank = record {
  in_use = false;
  is_bound = false;
  is_closed = false;
  sockfd = pos 0;
  pid = 0;
  dest = no_address;
  src = no_address;
  send_buffer = record { buff = []; filled = 0; iter = 0; isempty = [] };
  recv_buffer = record { buff = []; filled = 0; iter = 0; isempty = [] };
  swnd = record { size = 0; head = 0; tail = 0 };
  rwnd = record { size = 0; head = 0; tail = 0 };
  last_acked = 0;
  nospace = false;
}

abbrev pub claimed : KtpSocket
claimed = (claim_socket 7 blank).0

claimed-IsSocket : IsSocket claimed
claimed-IsSocket = claim_socket-IsSocket 7 blank

abbrev pub entry : ℕ → KtpSocket
entry fd = record ((sockreset blank).0) { sockfd = pos fd }

abbrev pub array : SmData
array = entry 3 ∷ entry 4 ∷ []

pub array_set_up :
    init_sockets 0 (λ i. some (3 + i)) (blank ∷ blank ∷ [])
    ≡ some (array, close (pos 0) ∷ close (pos 0) ∷ [])
unfolding init_sockets open_fresh after_fresh sockreset close_fd
array_set_up = refl

Reach-IsShm_example : IsShm (claim 7 1 array).0
Reach-IsShm_example = Reach-IsShm (later (start (λ i. some (3 + i)) _ array_set_up) (claims 7 1))

inwndw_iff_example :
    (inwndw 1 250 4 ≡ true)
    ↔ (distance 250 1 < wndwsize (record { size = 10; head = 250; tail = 4 }))
inwndw_iff_example =
    inwndw_iff 1 (record { size = 10; head = 250; tail = 4 }) (omega arith) (omega arith)
      (omega arith)

open-create_dat_packet_example :
    (packet : List ℕ) × (create_dat_packet (header_size + message_len) zero_message 0 0 0
      ≡ some packet)
    × (open_packet packet
        ≡ record { seq = 255; ack = 0; is_ack = false; recv_wndw = 0; payload = some zero_message })
open-create_dat_packet_example =
    open-create_dat_packet zero_message 0 0 0 zero_message-IsMessage (omega arith)

handle_data-in_order_example :
    (s' : KtpSocket) × (actions : List Action) × (handle_data 0 zero_message no_address claimed
      ≡ running (s', actions))
    × Delivered zero_message no_address claimed s' actions
unfolding claim_socket
handle_data-in_order_example =
    handle_data-in_order zero_message no_address claimed claimed-IsSocket (omega arith) refl

handle_data_returns_example :
    (r : KtpSocket × List Action) × (handle_data 3 zero_message no_address claimed ≡ running r)
handle_data_returns_example =
    handle_data_returns 3 zero_message no_address claimed claimed-IsSocket (omega arith)

handle_ready-Refused_example :
    (r' : KtpSocket) × (actions : List Action) × (handle_ready
        (datagram (dat_packet claimed.rwnd.head zero_message) claimed.dest)
        5
        claimed
      ≡ running (r', actions))
    × Refused (prev_seq claimed.rwnd.head) claimed.dest claimed r' actions
unfolding claim_socket
handle_ready-Refused_example =
    handle_ready-Refused zero_message 5 claimed claimed-IsSocket zero_message-IsMessage refl
