-- ===== src/KtpFirst/Sender.antt =====
-- The sending thread of "Assignment 4 Initial/initksocket.c": `sender_thread_handler`.
use networks_lab_cs39006_spr.Prelude.{
  ℕ, zero, suc, ◌+◌, ◌-◌, ◌%◌, Bool, true, false, ◌||◌, List, [], ◌∷◌, Option, none, some, ltb,
  ◌==◌, if◌then◌else◌, get_or, set,
}
use networks_lab_cs39006_spr.KtpFirst.Types.{max_seqno, timeout, SmEntry, Action, sendto}
use networks_lab_cs39006_spr.KtpFirst.Packet.{data_packet}
use networks_lab_cs39006_spr.KtpFirst.Receiver.{Handled, done, overrun, hung, next_seqno, index_at}

-- The numbers that `while (j != last)` goes through; `none` means that the fuel ran out.
abbrev pub before_seqs : ℕ → Option (List ℕ) → Option (List ℕ)
before_seqs j none = none
before_seqs j (some js) = some (j ∷ js)

unfoldable pub window_seqs : (fuel last j : ℕ) → Option (List ℕ)
window_seqs zero last j = none
window_seqs (suc fuel) last j =
    let rest = before_seqs j (window_seqs fuel last (next_seqno j)) in
    if j == last then some [] else rest

abbrev pub is_late : ℕ → Option ℕ → Bool
is_late now none = false
is_late now (some t) = ltb timeout (now - t)

-- The loop that looks for a timeout.
unfoldable pub any_late : ℕ → SmEntry → List ℕ → Bool
any_late now s [] = false
any_late now s (j ∷ js) = is_late now (get_or s.last_sent_time j none) || any_late now s js

abbrev pub is_unsent : Option ℕ → Bool
is_unsent none = true
is_unsent (some t) = false

abbrev pub before_action : Action → Handled → Handled
before_action a (done s actions) = done s (a ∷ actions)
before_action a overrun = overrun
before_action a hung = hung

abbrev pub sent_packet : (j now : ℕ) → Option (List ℕ) → SmEntry → (SmEntry → Handled) → Handled
sent_packet j now none s next = overrun
sent_packet j now (some packet) s next =
    before_action (sendto s.udp_sockid s.ip_addr s.port packet)
      (next (record s { last_sent_time = set s.last_sent_time j (some now) }))

-- A number in the window: sent again on a timeout, and otherwise if it has not been sent.
unfoldable pub send_seq :
    (resend : Bool) → (now j : ℕ) → Option ℕ → SmEntry → (SmEntry → Handled) → Handled
send_seq resend now j none s next = next s
send_seq resend now j (some index) s next =
    if resend || is_unsent (get_or s.last_sent_time j none)
    then sent_packet j now
        (data_packet j (get_or s.len_of_msg_send_buffer index 0) (get_or s.send_buffer index [])) s
        next
    else next s

-- The two loops that send, of which one sends all again.
unfoldable pub send_window : (resend : Bool) → (now : ℕ) → List ℕ → SmEntry → Handled
unfolding send_seq
send_window resend now [] s = done s []
send_window resend now (j ∷ js) s =
    send_seq resend now j (index_at s.swnd j) s (send_window resend now js)

abbrev pub send_seqs : ℕ → Option (List ℕ) → SmEntry → Handled
send_seqs now none s = hung
send_seqs now (some js) s = send_window (any_late now s js) now js s

-- One entry in a round of the thread.
unfoldable pub send_entry : ℕ → SmEntry → Handled
unfolding any_late send_window window_seqs
send_entry now s =
    if s.is_free
    then done s []
    else send_seqs now
        (window_seqs max_seqno ((s.swnd.start_seq + s.swnd.size) % max_seqno) s.swnd.start_seq) s
