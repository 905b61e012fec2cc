-- ===== src/Ktp/Invariant/Calls.antt =====
-- The calls of ksocket.c keep every socket well formed.
use networks_lab_cs39006_spr.Prelude.{ℕ, refl, List, arith}
use networks_lab_cs39006_spr.Ktp.Types.{IpPort, KtpSocket}
use networks_lab_cs39006_spr.Ktp.Socket.{
  sockreset, claim_socket, sendto_socket, recvfrom_socket, bind_socket, close_socket,
}
use networks_lab_cs39006_spr.Ktp.Buffers.{
  occupied-pop, initialize_buffer-IsBuffer, push_message-IsBuffer, pop_message-IsBuffer,
}
use networks_lab_cs39006_spr.Ktp.Invariant.Defs.{IsSocket}

pub sockreset-IsSocket : (s : KtpSocket) → IsSocket (sockreset s).0
unfolding sockreset
sockreset-IsSocket s = record {
  send = initialize_buffer-IsBuffer;
  recv = initialize_buffer-IsBuffer;
  exact = refl;
  swnd_in = omega arith;
  rwnd_in = omega arith;
  acked_in = omega arith;
}

pub claim_socket-IsSocket : (pid : ℕ) (s : KtpSocket) → IsSocket (claim_socket pid s).0
unfolding claim_socket
claim_socket-IsSocket pid s =
    let v = sockreset-IsSocket s in
    record {
      send = v.send;
      recv = v.recv;
      exact = v.exact;
      swnd_in = v.swnd_in;
      rwnd_in = v.rwnd_in;
      acked_in = v.acked_in;
    }

pub sendto_socket-IsSocket :
    (m : List ℕ) (len : ℕ) (addr : IpPort) {s : KtpSocket}
    → IsSocket s
    → IsSocket (sendto_socket m len addr s).1
unfolding sendto_socket
sendto_socket-IsSocket m len addr {s} v = ground (arith, push_message-IsBuffer m v.send)

pub recvfrom_socket-IsSocket :
    (len : ℕ) {s : KtpSocket} → IsSocket s → IsSocket (recvfrom_socket len s).1
unfolding recvfrom_socket
recvfrom_socket-IsSocket len {s} v =
    ground (arith, pop_message-IsBuffer v.recv, occupied-pop s.recv_buffer)

pub bind_socket-IsSocket :
    (src dest : IpPort) {s : KtpSocket} → IsSocket s → IsSocket (bind_socket src dest s).1
unfolding bind_socket
bind_socket-IsSocket src dest v = ground arith

pub close_socket-IsSocket : {s : KtpSocket} → IsSocket s → IsSocket (close_socket s).1
unfolding close_socket
close_socket-IsSocket v = ground arith
