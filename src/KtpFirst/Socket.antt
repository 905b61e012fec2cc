-- ===== src/KtpFirst/Socket.antt =====
-- The calls of "Assignment 4 Initial/ksocket.c". Each part between `P` and `V` is one step.
use networks_lab_cs39006_spr.Prelude.{
  ℕ, zero, suc, ◌+◌, ◌-◌, ◌%◌, Bool, true, false, not, ◌&&◌, ◌||◌, List, [], ◌∷◌, ◌++◌, Option,
  none, some, ltb, ◌==◌, if◌then◌else◌, strcmp_eq, get_or, set, length, take, drop, replicate,
}
use networks_lab_cs39006_spr.KtpFirst.Types.{max_msgs, msg_size, max_seqno, SeqWindow, SmEntry}
use networks_lab_cs39006_spr.KtpFirst.Receiver.{next_seqno, index_at}

-- EBADF, and the codes 9000, 9001 and 9002.
pub data Error : Type 0 where
  ebadf enospace enobound enomessage : Error

-- What a call returns: a value with the entry, -1 with `errno`, or an access outside an array.
pub data Result {ℓ} (A : Type ℓ) : Type ℓ where
  ok : A → SmEntry → Result A
  err : Error → Result A
  fault : Result A

-- `return_free_entry`; the result -1 is `none`.
unfoldable pub return_free_entry : ℕ → List SmEntry → Option ℕ
return_free_entry i [] = none
return_free_entry i (s ∷ entries) =
    let rest = return_free_entry (suc i) entries in if s.is_free then some i else rest

-- `rwnd.wndw`, where the first ten numbers from 1 on have the ten buffers.
abbrev pub first_window : List (Option ℕ)
first_window =
    none
    ∷ some 0
    ∷ some 1
    ∷ some 2
    ∷ some 3
    ∷ some 4
    ∷ some 5
    ∷ some 6
    ∷ some 7
    ∷ some 8
    ∷ some 9
    ∷ replicate 245 none

-- The entry that `k_socket` sets up, with the socket that the main loop has made.
unfoldable pub claim_entry : (pid sockid : ℕ) → SmEntry → SmEntry
claim_entry pid sockid s = record s {
  is_free = false;
  pid = pid;
  udp_sockid = sockid;
  last_sent_time = replicate 256 none;
  swnd = record { wndw = replicate 256 none; size = 10; start_seq = 1 };
  rwnd = record { wndw = first_window; size = 10; start_seq = 1 };
  send_buffer_size = 10;
  receive_buffer_valid = replicate 10 false;
  receive_buffer_pointer = 0;
  nospace = false;
}

-- The search of `k_bind` for the entry of the process.
unfoldable pub own_entry : (pid i : ℕ) → List SmEntry → Option ℕ
own_entry pid i [] = none
own_entry pid i (s ∷ entries) =
    let rest = own_entry pid (suc i) entries in
    if not s.is_free && (s.pid == pid) then some i else rest

-- `while (wndw[seq_no] != -1)`; `none` means that the fuel ran out.
unfoldable pub free_seq : (fuel seq : ℕ) → SeqWindow → Option ℕ
free_seq zero seq w = none
free_seq (suc fuel) seq w =
    let rest = free_seq fuel (next_seqno seq) w in
    elim (index_at w seq) [ none ↦ some seq | some index ↦ rest ]

abbrev pub is_index : ℕ → Option ℕ → Bool
is_index index none = false
is_index index (some i) = i == index

unfoldable pub uses_index : ℕ → List (Option ℕ) → Bool
uses_index index [] = false
uses_index index (o ∷ os) = is_index index o || uses_index index os

-- The first of `n` buffers from `index` on that no sequence number has.
unfoldable pub free_index : (n index : ℕ) → List (Option ℕ) → Option ℕ
unfolding uses_index
free_index zero index wndw = none
free_index (suc n) index wndw =
    let rest = free_index n (suc index) wndw in if uses_index index wndw then rest else some index

unfoldable pub put_message : (seq index : ℕ) → List ℕ → SmEntry → SmEntry
put_message seq index message s = record s {
  swnd = record (s.swnd) { wndw = set s.swnd.wndw seq (some index) };
  send_buffer =
      set s.send_buffer index (message ++ drop (length message) (get_or s.send_buffer index []));
  len_of_msg_send_buffer = set s.len_of_msg_send_buffer index (length message);
  send_buffer_size = s.send_buffer_size - 1;
  last_sent_time = set s.last_sent_time seq none;
}

abbrev pub put_at : Option ℕ → Option ℕ → List ℕ → SmEntry → Result ℕ
put_at none index message s = fault
put_at (some seq) none message s = err enospace
put_at (some seq) (some index) message s =
    if ltb msg_size (length message)
    then fault
    else ok (length message) (put_message seq index message s)

-- `k_sendto` on its entry, with `message` the bytes of `buf`. More than 512 of them are copied behind
-- the buffer; a window with no free number would keep the call in its loop, and is a fault too.
unfoldable pub k_sendto_first : (dest_ip : List ℕ) → (dest_port : ℕ) → List ℕ → SmEntry → Result ℕ
unfolding free_seq free_index put_message
k_sendto_first dest_ip dest_port message s =
    if not (strcmp_eq s.ip_addr dest_ip) || not (s.port == dest_port)
    then err enobound
    else if s.send_buffer_size == 0
    then err enospace
    else put_at (free_seq max_seqno s.swnd.start_seq s.swnd) (free_index max_msgs 0 s.swnd.wndw)
        message s

-- The last number that has the buffer.
abbrev pub later_or : Option ℕ → Option ℕ → Option ℕ
later_or none o = o
later_or (some i) o = some i

unfoldable pub seq_of : (index i : ℕ) → List (Option ℕ) → Option ℕ
seq_of index i [] = none
seq_of index i (o ∷ os) =
    later_or (seq_of index (suc i) os) (if is_index index o then some i else none)

abbrev pub free_buffer : (seq : ℕ) → SmEntry → SmEntry
free_buffer seq s = record s {
  receive_buffer_valid = set s.receive_buffer_valid s.receive_buffer_pointer false;
  rwnd = record {
    wndw =
        set (set s.rwnd.wndw seq none) ((seq + max_msgs) % max_seqno)
          (some s.receive_buffer_pointer);
    size = s.rwnd.size + 1;
    start_seq = s.rwnd.start_seq;
  };
  receive_buffer_pointer = (s.receive_buffer_pointer + 1) % max_msgs;
}

abbrev pub min_len : ℕ → ℕ → ℕ
min_len len length = if ltb len length then len else length

abbrev pub read_at : (len : ℕ) → Option ℕ → SmEntry → Result (List ℕ)
read_at len none s = fault
read_at len (some seq) s =
    ok
      (take (min_len len (get_or s.len_of_msg_receive_buffer s.receive_buffer_pointer 0))
        (get_or s.receive_buffer s.receive_buffer_pointer []))
      (free_buffer seq s)

-- `k_recvfrom` on its entry: the bytes that are copied. A descriptor outside the array is refused
-- before. With no number for the buffer, index -1 is written.
unfoldable pub k_recvfrom_first : (len : ℕ) → SmEntry → Result (List ℕ)
unfolding seq_of
k_recvfrom_first len s =
    if s.is_free
    then err ebadf
    else if get_or s.receive_buffer_valid s.receive_buffer_pointer false
    then read_at len (seq_of s.receive_buffer_pointer 0 s.rwnd.wndw) s
    else err enomessage

unfoldable pub k_close_first : SmEntry → Result (Unit {0})
k_close_first s = if s.is_free then err ebadf else ok tt (record s { is_free = true })
