-- ===== src/Ktp/Sender.antt =====
-- The sending thread of "Assignment 4 Final/initksocket.c": `transmit_segment`,
-- `check_retransmission` and `SThread`.
use networks_lab_cs39006_spr.Prelude.{
  ℕ, zero, suc, ◌+◌, ◌%◌, Bool, true, false, ◌||◌, List, [], ◌∷◌, ◌++◌, Option, none, some, leb,
  ◌==◌, if◌then◌else◌,
}
use networks_lab_cs39006_spr.Ktp.Types.{
  KtpSocket, SmData, Action, sendto, header_size, message_len, max_message, seq_num,
  retransmit_after,
}
use networks_lab_cs39006_spr.Ktp.Window.{inwndw, wndwsize, next_seq, prev_seq}
use networks_lab_cs39006_spr.Ktp.Packet.{create_dat_packet}
use networks_lab_cs39006_spr.Ktp.Socket.{slot, slot_empty}
use networks_lab_cs39006_spr.Ktp.Receiver.{Outcome, running, exited, hung}

-- One packet of `transmit_segment`. The length is right, so the packet is always made.
unfoldable pub send_data : KtpSocket → ℕ → List Action
send_data s seq =
    elim (create_dat_packet (header_size + message_len) (slot s.send_buffer (seq % max_message)) seq
      0 0) [ none ↦ [] | some packet ↦ sendto s.sockfd s.dest packet ∷ [] ]

unfoldable pub prepend_data : KtpSocket → ℕ → Option (List Action) → Option (List Action)
prepend_data s seq none = none
prepend_data s seq (some actions) = some (send_data s seq ++ actions)

-- `while (current_seq != end_seq)`. `none` means that the fuel ran out.
unfoldable pub transmit_segment : ℕ → KtpSocket → ℕ → ℕ → Option (List Action)
unfolding send_data prepend_data
transmit_segment zero s begin_seq end_seq = none
transmit_segment (suc fuel) s begin_seq end_seq =
    let rest = prepend_data s begin_seq (transmit_segment fuel s (next_seq begin_seq) end_seq) in
    if begin_seq == end_seq then some [] else rest

-- One entry of `last_transmission_times`, `window_heads` and `window_tails`. The three hold -1
-- together, which is `none`.
pub record Timeout : Type 0 where
  pub time : ℕ
  pub head : ℕ
  pub tail : ℕ

-- The two entries of a socket.
pub record Timeouts : Type 0 where
  pub first : Option Timeout
  pub second : Option Timeout

abbrev pub no_timeouts : Timeouts
no_timeouts = record { first = none; second = none }

-- The tail of the first entry once a second one is merged into it.
unfoldable pub merged_tail : Timeout → Option Timeout → ℕ
merged_tail t none = t.tail
merged_tail t (some u) = u.tail

-- The check on the two entries of a socket. The flag is `needs_transmission`.
unfoldable pub check_entries : ℕ → Option Timeout → Option Timeout → KtpSocket → Timeouts × Bool
unfolding merged_tail
check_entries now none second s = (record { first = none; second = second }, false)
check_entries now (some t) second s =
    if inwndw (prev_seq t.tail) s.swnd.head s.swnd.tail
    then if leb (t.time + retransmit_after) now
      then (
        record {
          first = some (record { time = now; head = t.head; tail = merged_tail t second });
          second = none;
        },
        true,
      )
      else (record { first = some t; second = second }, false)
    else (record { first = second; second = none }, false)

unfoldable pub check_retransmission : ℕ → Timeouts → KtpSocket → Timeouts × Bool
unfolding check_entries
check_retransmission now times s = check_entries now times.first times.second s

-- The loop that takes new messages into the window. The flag says whether it took one, and
-- `none` that the fuel ran out.
unfoldable pub advance_tail : ℕ → Bool → KtpSocket → Option (KtpSocket × Bool)
advance_tail zero needed s = none
advance_tail (suc fuel) needed s =
    let rest =
      advance_tail fuel true
        (record s { swnd = record (s.swnd) { tail = next_seq s.swnd.tail } }) in
    if slot_empty s.send_buffer (s.swnd.tail % max_message) || leb s.swnd.size (wndwsize s.swnd)
    then some (s, needed)
    else rest

-- Whether the transmission replaces the first entry.
unfoldable pub starts_first : ℕ → Option Timeout → Bool
starts_first now none = true
starts_first now (some t) = t.time == now

unfoldable pub first_tail : Option Timeout → ℕ
first_tail none = 0
first_tail (some t) = t.tail

-- One round of fuel for each sequence number.
abbrev pub seq_fuel : ℕ
seq_fuel = seq_num

unfoldable pub finish_transmit :
    KtpSocket → Timeouts → Option (List Action) → Outcome (KtpSocket × Timeouts × List Action)
finish_transmit s times none = hung
finish_transmit s times (some actions) = running (s, times, actions)

-- The transmission of a segment, with the entry that records it.
unfoldable pub schedule : ℕ → Timeouts → KtpSocket → Outcome (KtpSocket × Timeouts × List Action)
unfolding starts_first first_tail finish_transmit transmit_segment
schedule now times s =
    if starts_first now times.first
    then finish_transmit s
        (record times {
          first = some (record { time = now; head = s.swnd.head; tail = s.swnd.tail });
        })
        (transmit_segment seq_fuel s s.swnd.head s.swnd.tail)
    else finish_transmit s
        (record times {
          second = some (record { time = now; head = first_tail times.first; tail = s.swnd.tail });
        })
        (transmit_segment seq_fuel s (first_tail times.first) s.swnd.tail)

-- The transmission, where it is needed, once the new messages are in the window.
unfoldable pub after_advance :
    ℕ → Timeouts → Option (KtpSocket × Bool) → Outcome (KtpSocket × Timeouts × List Action)
unfolding schedule
after_advance now times none = hung
after_advance now times (some (s, needed)) =
    if needed then schedule now times s else running (s, times, [])

-- One socket in `SThread`, from its lock to its unlock.
unfoldable pub sthread_socket :
    ℕ → Timeouts → KtpSocket → Outcome (KtpSocket × Timeouts × List Action)
unfolding check_retransmission advance_tail after_advance
sthread_socket now times s =
    if s.in_use
    then (let (times', needed) = check_retransmission now times s in
        after_advance now times' (advance_tail seq_fuel needed s))
    else running (s, times, [])

after_socket :
    Outcome (KtpSocket × Timeouts × List Action)
    → Outcome (SmData × List Timeouts × List Action)
    → Outcome (SmData × List Timeouts × List Action)
after_socket exited rest = exited
after_socket hung rest = hung
after_socket (running (s, t, actions)) exited = exited
after_socket (running (s, t, actions)) hung = hung
after_socket (running (s, t, actions)) (running (shm, times, later)) =
    running (s ∷ shm, t ∷ times, actions ++ later)

-- One round of `SThread` over the sockets and their entries.
unfoldable pub sthread_round :
    ℕ → SmData → List Timeouts → Outcome (SmData × List Timeouts × List Action)
unfolding sthread_socket after_socket
sthread_round now [] times = running ([], times, [])
sthread_round now (s ∷ shm) [] = running (s ∷ shm, [], [])
sthread_round now (s ∷ shm) (t ∷ times) =
    after_socket (sthread_socket now t s) (sthread_round now shm times)
