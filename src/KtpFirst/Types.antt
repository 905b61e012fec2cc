-- ===== src/KtpFirst/Types.antt =====
-- The constants and structures of "Assignment 4 Initial/ksocket.h".
use networks_lab_cs39006_spr.Prelude.{ℕ, Bool, List, Option}

abbrev pub max_msgs : ℕ
max_msgs = 10

abbrev pub msg_size : ℕ
msg_size = 512

abbrev pub max_seqno : ℕ
max_seqno = 256

-- `N`.
abbrev pub max_entries : ℕ
max_entries = 5

-- `T`, in seconds.
abbrev pub timeout : ℕ
timeout = 5

-- The size of the arrays that a packet is made and array_after in.
abbrev pub packet_room : ℕ
packet_room = 528

-- `struct window`: `wndw` has a buffer's index for each sequence number, where `none` is -1. The size
-- is only counted down where a slot was free.
pub record SeqWindow : Type 0 where
  pub wndw : List (Option ℕ)
  pub size : ℕ
  pub start_seq : ℕ

-- `struct SM_data`. A message buffer is its 512 bytes, and a time of `none` is -1.
pub record SmEntry : Type 0 where
  pub is_free : Bool
  pub pid : ℕ
  pub udp_sockid : ℕ
  pub ip_addr : List ℕ
  pub port : ℕ
  pub send_buffer : List (List ℕ)
  pub send_buffer_size : ℕ
  pub len_of_msg_send_buffer : List ℕ
  pub receive_buffer : List (List ℕ)
  pub receive_buffer_pointer : ℕ
  pub receive_buffer_valid : List Bool
  pub len_of_msg_receive_buffer : List ℕ
  pub swnd : SeqWindow
  pub rwnd : SeqWindow
  pub nospace : Bool
  pub last_sent_time : List (Option ℕ)

-- What is sent: the UDP socket, the address and port, and the bytes.
pub data Action : Type 0 where
  sendto : (udp_sockid : ℕ) → (ip_addr : List ℕ) → (port : ℕ) → List ℕ → Action
