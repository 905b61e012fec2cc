-- ===== src/Ktp/Types.antt =====
-- The constants and structures of "Assignment 4 Final/ksocket.h".
use networks_lab_cs39006_spr.Prelude.{ℕ, Bool, List}
pub use networks_lab_cs39006_spr.Prelude.Int.{ℤ, pos, negsuc}

abbrev pub header_size : ℕ
header_size = 4

abbrev pub message_len : ℕ
message_len = 512

abbrev pub max_message : ℕ
max_message = 10

abbrev pub max_sockets : ℕ
max_sockets = 5

-- `p`, the drop probability; the source multiplies it by 100.
abbrev pub drop_probability : ℕ
drop_probability = 0

-- `T`, in seconds.
abbrev pub retransmit_after : ℕ
retransmit_after = 10

abbrev pub seq_num : ℕ
seq_num = 256

abbrev pub sock_ktp : ℕ
sock_ktp = 16

-- -1, the descriptor of a socket that is not open.
abbrev pub no_fd : ℤ
no_fd = ℤ.negsuc 0

-- `EINVAL` and the codes 9000, 9001, 9002.
pub data Errno : Type 0 where
  einval enospace enotbound enomessage : Errno

-- What a call returns: a value, -1 with `errno`, or an access outside the shared array.
pub data Result {ℓ} (A : Type ℓ) : Type ℓ where
  ok : A → Result A
  err : Errno → Result A
  fault : Result A

pub record Window : Type 0 where
  pub size : ℕ
  pub head : ℕ
  pub tail : ℕ

-- A message is a list of bytes. `filled` is only decremented beside a slot that was not empty.
pub record Buffer : Type 0 where
  pub buff : List (List ℕ)
  pub filled : ℕ
  pub iter : ℕ
  pub isempty : List Bool

pub record IpPort : Type 0 where
  pub ip : ℕ
  pub port : ℕ

-- `struct ktp_socket`. The flags are 0 or 1 in the source. `socket_mutex` names the lock that makes
-- each definition over a socket one atomic step, and is left out.
pub record KtpSocket : Type 0 where
  pub in_use : Bool
  pub is_bound : Bool
  pub is_closed : Bool
  pub sockfd : ℤ
  pub pid : ℕ
  pub dest : IpPort
  pub src : IpPort
  pub send_buffer : Buffer
  pub recv_buffer : Buffer
  pub swnd : Window
  pub rwnd : Window
  pub last_acked : ℕ
  pub nospace : Bool

-- `SMData`, the array in shared memory.
abbrev pub SmData : Type 0
SmData = List KtpSocket

-- The calls of the operating system that a step makes, in order.
pub data Action : Type 0 where
  sendto : ℤ → IpPort → List ℕ → Action
  close : ℤ → Action
  bind : ℤ → IpPort → Action
  kill : ℕ → Action
  sem_unlink : ℕ → Action
