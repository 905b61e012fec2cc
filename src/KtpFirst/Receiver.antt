-- ===== src/KtpFirst/Receiver.antt =====
-- The receiving thread of "Assignment 4 Initial/initksocket.c": `receiver_thread_handler`.
use networks_lab_cs39006_spr.Prelude.{
  ℕ, zero, suc, ◌+◌, ◌-◌, ◌%◌, Bool, true, false, not, ◌&&◌, List, [], ◌∷◌, ◌++◌, Option, none,
  some, ltb, ◌==◌, if◌then◌else◌, get_or, set, length, drop,
}
use networks_lab_cs39006_spr.KtpFirst.Types.{
  max_seqno, msg_size, SeqWindow, SmEntry, Action, sendto,
}
use networks_lab_cs39006_spr.KtpFirst.Packet.{make_ack, array_after, Packet, ack, dat, parse_packet}

-- `(seq + 1) % MAX_SEQNO` and `(seq + MAX_SEQNO - 1) % MAX_SEQNO`.
abbrev pub next_seqno : ℕ → ℕ
next_seqno seq = (seq + 1) % max_seqno

abbrev pub last_seqno : ℕ → ℕ
last_seqno seq = (seq + 255) % max_seqno

abbrev pub index_at : SeqWindow → ℕ → Option ℕ
index_at w seq = get_or w.wndw seq none

-- What a handler comes to: the entry and what is sent, or an access outside an array, or a loop that
-- does not end.
pub data Handled : Type 0 where
  done : SmEntry → List Action → Handled
  overrun : Handled
  hung : Handled

-- An acknowledged number is given up.
unfoldable pub release_seq : ℕ → SmEntry → SmEntry
release_seq seq s = record s {
  swnd = record (s.swnd) { wndw = set s.swnd.wndw seq none };
  last_sent_time = set s.last_sent_time seq none;
  send_buffer_size = s.send_buffer_size + 1;
}

-- `while (j != (seq + 1) % MAX_SEQNO)`; `none` means that the fuel ran out.
unfoldable pub release_until : (fuel last j : ℕ) → SmEntry → Option SmEntry
unfolding release_seq
release_until zero last j s = none
release_until (suc fuel) last j s =
    let rest = release_until fuel last (next_seqno j) (release_seq j s) in
    if j == last then some s else rest

abbrev pub with_size : ℕ → SmEntry → SmEntry
with_size size s = record s { swnd = record (s.swnd) { size = size } }

abbrev pub acknowledged : ℕ → ℕ → Option SmEntry → Handled
acknowledged last size none = hung
acknowledged last size (some s) =
    done (with_size size (record s { swnd = record (s.swnd) { start_seq = last } })) []

-- A round of fuel for each sequence number.
unfoldable pub handle_ack_first : (seq rwnd : ℕ) → SmEntry → Handled
unfolding release_until
handle_ack_first seq rwnd s = elim (index_at s.swnd seq) [
  | none ↦ done (with_size rwnd s) []
  | some index ↦
      acknowledged (next_seqno seq) rwnd
        (release_until max_seqno (next_seqno seq) s.swnd.start_seq s)
]

-- The message is copied over the start of its buffer.
unfoldable pub store_message : (index : ℕ) → List ℕ → SmEntry → SmEntry
store_message index payload s = record s {
  receive_buffer =
      set s.receive_buffer index
        (payload ++ drop (length payload) (get_or s.receive_buffer index []));
  receive_buffer_valid = set s.receive_buffer_valid index true;
  len_of_msg_receive_buffer = set s.len_of_msg_receive_buffer index (length payload);
  rwnd = record (s.rwnd) { size = s.rwnd.size - 1 };
}

-- The test of the loop that advances the window.
abbrev pub is_there : List Bool → Option ℕ → Bool
is_there valid none = false
is_there valid (some index) = get_or valid index false

unfoldable pub advance_start : (fuel seq : ℕ) → SmEntry → Option ℕ
advance_start zero seq s = none
advance_start (suc fuel) seq s =
    let rest = advance_start fuel (next_seqno seq) s in
    if is_there s.receive_buffer_valid (index_at s.rwnd seq) then rest else some seq

abbrev pub started_at : SmEntry → Option ℕ → Option SmEntry
started_at s none = none
started_at s (some seq) = some (record s { rwnd = record (s.rwnd) { start_seq = seq } })

-- A DATA packet that is expected, or one that comes early.
unfoldable pub take_data : (seq : ℕ) → List ℕ → SmEntry → Option SmEntry
unfolding store_message advance_start
take_data seq payload s = elim (index_at s.rwnd seq) [
  | none ↦ some s
  | some index ↦
      (let stored = store_message index payload s in
        if seq == s.rwnd.start_seq
        then started_at stored (advance_start max_seqno s.rwnd.start_seq stored)
        else if get_or s.receive_buffer_valid index false
        then some s
        else some stored)
]

-- The flag and the acknowledgement, to where the packet came from.
unfoldable pub answer_data : (ip_addr : List ℕ) → (port : ℕ) → Option SmEntry → Handled
answer_data ip_addr port none = hung
answer_data ip_addr port (some s) =
    done (record s { nospace = if s.rwnd.size == 0 then true else s.nospace })
      (sendto s.udp_sockid ip_addr port (make_ack (last_seqno s.rwnd.start_seq) s.rwnd.size) ∷ [])

-- A payload of more than 512 bytes is copied behind its buffer.
unfoldable pub handle_data_first : (ip_addr : List ℕ) → (port seq : ℕ) → List ℕ → SmEntry → Handled
unfolding take_data answer_data
handle_data_first ip_addr port seq payload s =
    if ltb msg_size (length payload)
    then overrun
    else answer_data ip_addr port (take_data seq payload s)

abbrev pub handle_packet : (ip_addr : List ℕ) → (port : ℕ) → Option Packet → SmEntry → Handled
handle_packet ip_addr port none s = overrun
handle_packet ip_addr port (some (ack seq rwnd)) s = handle_ack_first seq rwnd s
handle_packet ip_addr port (some (dat seq payload)) s = handle_data_first ip_addr port seq payload s

-- What `recvfrom` gives: an error, or a datagram with its sender; `dropped` is `drop_message`.
pub data Arrival : Type 0 where
  failed : Arrival
  arrives : (datagram ip_addr : List ℕ) → (port : ℕ) → Arrival

unfoldable pub handle_arrival : (junk : List ℕ) → (dropped : Bool) → Arrival → SmEntry → Handled
unfolding array_after parse_packet handle_ack_first handle_data_first
handle_arrival junk dropped failed s = done s []
handle_arrival junk dropped (arrives datagram ip_addr port) s =
    if dropped
    then done s []
    else handle_packet ip_addr port (parse_packet (array_after datagram junk)) s

-- Where `select` times out, a receiver that has space again says so.
unfoldable pub update_window : SmEntry → SmEntry × List Action
update_window s =
    if not s.is_free && (s.nospace && ltb 0 s.rwnd.size)
    then (
      record s { nospace = false },
      sendto s.udp_sockid s.ip_addr s.port (make_ack (last_seqno s.rwnd.start_seq) s.rwnd.size)
          ∷ [],
    )
    else (s, [])
