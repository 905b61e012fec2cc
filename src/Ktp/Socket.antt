-- ===== src/Ktp/Socket.antt =====
-- The library calls of "Assignment 4 Final/ksocket.c". A call is a function of the shared array;
-- the part of it between `lock_socket` and `unlock_socket` is a function of one socket.
use networks_lab_cs39006_spr.Prelude.{
  ℕ, suc, ◌+◌, ◌-◌, ◌%◌, Bool, true, false, ◌&&◌, ◌||◌, List, [], ◌∷◌, Option, none, some, leb,
  ◌==◌, if◌then◌else◌, get_elem?, get_or, set, replicate,
}
use networks_lab_cs39006_spr.Ktp.Types.{
  ℤ, pos, negsuc, no_fd, einval, enospace, enotbound, enomessage, Result, ok, err, fault, Buffer,
  IpPort, KtpSocket, SmData, Action, close, message_len, max_message, max_sockets, sock_ktp,
}
use networks_lab_cs39006_spr.Ktp.Window.{next_seq}
use networks_lab_cs39006_spr.Ktp.Packet.{copy_bytes}

-- `memset(buf->buff[i], 0, MESSAGELEN)`
unfoldable pub zero_message : List ℕ
zero_message = replicate message_len 0

abbrev pub next_slot : ℕ → ℕ
next_slot i = (i + 1) % max_message

abbrev pub slot_empty : Buffer → ℕ → Bool
slot_empty b i = get_or b.isempty i true

abbrev pub slot : Buffer → ℕ → List ℕ
slot b i = get_or b.buff i []

unfoldable pub initialize_buffer : Buffer
initialize_buffer = record {
  buff = replicate max_message zero_message;
  filled = 0;
  iter = 0;
  isempty = replicate max_message true;
}

abbrev pub no_address : IpPort
no_address = record { ip = 0; port = 0 }

unfoldable pub close_fd : ℤ → List Action
close_fd (pos fd) = close (pos fd) ∷ []
close_fd (negsuc n) = []

-- The socket after the reset. What it closes is `close_fd` of the old descriptor.
unfoldable pub sockreset : KtpSocket → KtpSocket × List Action
unfolding initialize_buffer
sockreset s = (
  record {
    in_use = false;
    is_bound = false;
    is_closed = false;
    sockfd = no_fd;
    pid = 0;
    dest = no_address;
    src = no_address;
    send_buffer = initialize_buffer;
    recv_buffer = initialize_buffer;
    swnd = record { size = max_message; head = 0; tail = 0 };
    rwnd = record { size = max_message; head = 0; tail = max_message };
    last_acked = 0;
    nospace = false;
  },
  close_fd s.sockfd,
)

-- `shm->sockets[sockfd]`; an index outside the array has no socket.
unfoldable pub socket_at : ℤ → SmData → Option KtpSocket
socket_at (pos i) shm = get_elem? shm i
socket_at (negsuc n) shm = none

unfoldable pub put_socket : ℤ → KtpSocket → SmData → SmData
put_socket (pos i) s shm = set shm i s
put_socket (negsuc n) s shm = shm

in_use_at : Option KtpSocket → Bool
in_use_at none = false
in_use_at (some s) = s.in_use

unfoldable pub check_socket_validity : ℤ → SmData → Bool
unfolding in_use_at
check_socket_validity (pos i) shm = if leb max_sockets i then false else in_use_at (get_elem? shm i)
check_socket_validity (negsuc n) shm = false

-- What the calls on a descriptor share. The name of the lock is read from the entry before the
-- descriptor is checked, so a descriptor outside the array is a fault.
unfoldable pub with_socket {ℓ} :
    {A : Type ℓ} → ℤ → (KtpSocket → Result A × KtpSocket) → SmData → Result A × SmData
unfolding socket_at put_socket check_socket_validity
with_socket sockfd body shm = elim (socket_at sockfd shm) [
  | none ↦ (fault, shm)
  | some s ↦
      if check_socket_validity sockfd shm
      then (let (r, s') = body s in (r, put_socket sockfd s' shm))
      else (err einval, shm)
]

-- The first loop of `k_socket`: the first entry that is not in use, from index `i` on.
unfoldable pub find_free : ℕ → SmData → Option ℕ
find_free i [] = none
find_free i (s ∷ rest) = let later = find_free (suc i) rest in if s.in_use then later else some i

-- Its second part, under the lock taken anew: the entry is reset and claimed.
unfoldable pub claim_socket : ℕ → KtpSocket → KtpSocket × List Action
unfolding sockreset
claim_socket pid s =
    let (fresh, closed) = sockreset s in (record fresh { in_use = true; pid = pid }, closed)

claim_at : ℕ → ℕ → Option KtpSocket → SmData → SmData × List Action
unfolding claim_socket
claim_at pid i none shm = (shm, [])
claim_at pid i (some s) shm = let (s', closed) = claim_socket pid s in (set shm i s', closed)

-- The claim of the entry that the search has chosen, in the array as it is by then.
unfoldable pub claim : ℕ → ℕ → SmData → SmData × List Action
unfolding claim_at
claim pid i shm = claim_at pid i (get_elem? shm i) shm

unfoldable pub k_socket : ℕ → ℕ → SmData → Result ℕ × SmData × List Action
unfolding find_free claim
k_socket type pid shm =
    if type == sock_ktp
    then elim (find_free 0 shm) [
      | none ↦ (err enospace, shm, [])
      | some i ↦ (let (shm', closed) = claim pid i shm in (ok i, shm', closed))
    ]
    else (err einval, shm, [])

abbrev pub same_address : IpPort → IpPort → Bool
same_address a b = (a.ip == b.ip) && (a.port == b.port)

-- A message is stored at the write index, which moves on by one.
unfoldable pub push_message : List ℕ → Buffer → Buffer
push_message buf b = record {
  buff = set b.buff b.iter (copy_bytes message_len buf);
  filled = b.filled + 1;
  iter = next_slot b.iter;
  isempty = set b.isempty b.iter false;
}

unfoldable pub sendto_socket : List ℕ → ℕ → IpPort → KtpSocket → Result ℕ × KtpSocket
unfolding push_message
sendto_socket buf len addr s =
    if same_address s.dest addr
    then if s.send_buffer.filled == max_message
      then (err enospace, s)
      else (ok len, record s { send_buffer = push_message buf s.send_buffer })
    else (err enotbound, s)

unfoldable pub k_sendto : ℤ → List ℕ → ℕ → IpPort → SmData → Result ℕ × SmData
unfolding with_socket sendto_socket
k_sendto sockfd buf len addr shm =
    if len == message_len
    then with_socket sockfd (sendto_socket buf len addr) shm
    else (err einval, shm)

-- The slot at the read index is given back, and the index moves on by one.
unfoldable pub pop_message : Buffer → Buffer
pop_message b = record {
  buff = b.buff;
  filled = b.filled - 1;
  iter = next_slot b.iter;
  isempty = set b.isempty b.iter true;
}

-- The value is the return value `len` and the 512 bytes copied to the caller's buffer.
unfoldable pub recvfrom_socket : ℕ → KtpSocket → Result (ℕ × List ℕ) × KtpSocket
unfolding pop_message
recvfrom_socket len s =
    if (s.recv_buffer.filled == 0) || slot_empty s.recv_buffer s.recv_buffer.iter
    then (err enomessage, s)
    else (
      ok (len, copy_bytes message_len (slot s.recv_buffer s.recv_buffer.iter)),
      record s {
        recv_buffer = pop_message s.recv_buffer;
        rwnd = record (s.rwnd) { tail = next_seq s.rwnd.tail };
      },
    )

unfoldable pub k_recvfrom : ℤ → ℕ → SmData → Result (ℕ × List ℕ) × SmData
unfolding with_socket recvfrom_socket
k_recvfrom sockfd len shm = with_socket sockfd (recvfrom_socket len) shm

-- `is_bound` is set after the lock is given back, with no other statement between.
unfoldable pub bind_socket : IpPort → IpPort → KtpSocket → Result ℕ × KtpSocket
bind_socket src dest s = (ok 0, record s { src = src; dest = dest; is_bound = true })

unfoldable pub k_bind : ℤ → IpPort → IpPort → SmData → Result ℕ × SmData
unfolding with_socket bind_socket
k_bind sockfd src dest shm = with_socket sockfd (bind_socket src dest) shm

unfoldable pub close_socket : KtpSocket → Result ℕ × KtpSocket
close_socket s = (ok 0, record s { is_closed = true })

unfoldable pub k_close : ℤ → SmData → Result ℕ × SmData
unfolding with_socket close_socket
k_close sockfd shm = with_socket sockfd close_socket shm
