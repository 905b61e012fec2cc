-- ===== src/KtpFirst/Tests.antt =====
-- Small runs of the first version, and its theorems on them.
use networks_lab_cs39006_spr.Prelude.{
  ℕ, ◌+◌, ◌-◌, All, ◌≤◌, ◌<◌, ◌≡◌, refl, true, false, List, [], ◌∷◌, none, some, codes, length,
  replicate, take, arith,
}
use networks_lab_cs39006_spr.KtpFirst.Types.{SeqWindow, SmEntry, Action}
use networks_lab_cs39006_spr.KtpFirst.Packet.{data_packet}
use networks_lab_cs39006_spr.KtpFirst.Receiver.{
  Handled, done, overrun, hung, handle_data_first, handle_ack_first, arrives, handle_arrival,
  take_data, answer_data, advance_start,
}
use networks_lab_cs39006_spr.KtpFirst.Socket.{
  Result, ok, err, fault, enospace, claim_entry, k_recvfrom_first, seq_of, k_sendto_first,
  put_message, free_seq, free_index, uses_index,
}
use networks_lab_cs39006_spr.KtpFirst.Window.{seq_number}
use networks_lab_cs39006_spr.KtpFirst.Delivery.{
  HasArrays, Reach, start, later, Reach-in_order, Reach-read,
}
use networks_lab_cs39006_spr.KtpFirst.Delivery
use networks_lab_cs39006_spr.KtpFirst.Sender.{send_entry}
use networks_lab_cs39006_spr.KtpFirst.Outgoing.{OneOf, Carries, CarriesWaiting}
use networks_lab_cs39006_spr.KtpFirst.Rounds.{IsDue}
use networks_lab_cs39006_spr.KtpFirst.Course.{
  HasBuffers, Reach-k_sendto, Reach-send_entry, Reach-handle_ack,
}
use networks_lab_cs39006_spr.KtpFirst.Course
use networks_lab_cs39006_spr.KtpFirst.Files.{piece_message, k_sendto_first-piece_message}
use networks_lab_cs39006_spr.KtpFirst.RoundTrip.{handle_arrival-data_packet}

abbrev blank : List ℕ
blank = replicate 512 0

abbrev no_window : SeqWindow
no_window = record { wndw = []; size = 0; start_seq = 0 }

abbrev old : SmEntry
old = record {
  is_free = true;
  pid = 0;
  udp_sockid = 0;
  ip_addr = codes "127.0.0.1";
  port = 5001;
  send_buffer = replicate 10 blank;
  send_buffer_size = 0;
  len_of_msg_send_buffer = replicate 10 0;
  receive_buffer = replicate 10 [];
  receive_buffer_pointer = 0;
  receive_buffer_valid = [];
  len_of_msg_receive_buffer = replicate 10 0;
  swnd = no_window;
  rwnd = no_window;
  nospace = false;
  last_sent_time = [];
}

old-HasArrays : HasArrays old
old-HasArrays = record { buffers = refl; sizes = refl }

-- A stream of messages of two bytes.
abbrev messages : ℕ → List ℕ
messages n = 77 ∷ n ∷ []

messages_short : (n : ℕ) → length (messages n) ≤ 512
messages_short n = omega arith

abbrev local : List ℕ
local = codes "127.0.0.1"

abbrev entry_of : Handled → SmEntry
entry_of (done s actions) = s
entry_of overrun = old
entry_of hung = old

abbrev actions_of : Handled → List Action
actions_of (done s actions) = actions
actions_of overrun = []
actions_of hung = []

abbrev begun : SmEntry
begun = claim_entry 4000 6 old

abbrev got : Handled
got = handle_data_first local 5002 (seq_number 0) (messages 0) begun

got-Reach : Reach messages 0 (entry_of got)
unfolding handle_data_first take_data answer_data advance_start claim_entry
got-Reach =
    later (start 4000 6 old old-HasArrays) (
      Delivery.arrives 0 5002 local (entry_of got) (actions_of got) (omega arith) (omega arith)
        refl)

Reach-in_order_example : messages 0 ≡ messages 0
unfolding handle_data_first take_data answer_data advance_start claim_entry k_recvfrom_first seq_of
Reach-in_order_example =
    Reach-in_order messages 0 512 (entry_of got) (messages 0) _ messages_short got-Reach
      (omega arith) refl

-- The message arrives twice, and is read.
Reach-read_example :
    (s' : SmEntry) × (actions : List Action) × (s'' : SmEntry) × (handle_data_first local 5002
        (seq_number 0)
        (messages 0)
        (entry_of got)
      ≡ done s' actions)
    × (k_recvfrom_first 512 s' ≡ ok (messages 0) s'')
Reach-read_example =
    Reach-read messages 0 512 5002 local (entry_of got) messages_short got-Reach (omega arith)

abbrev full_message : List ℕ
full_message = replicate 512 65

handle_arrival-data_packet_example :
    (509 < 512 → data_packet 7 512 full_message ≡ none)
    × (512 ≤ 509
        → (packet : List ℕ) × (data_packet 7 512 full_message ≡ some packet)
          × (handle_arrival [] false (arrives packet local 5002) begun
              ≡ handle_data_first local 5002 7 (take 512 full_message) begun))
handle_arrival-data_packet_example =
    handle_arrival-data_packet 7 512 full_message [] local 5002 begun (omega arith) (omega arith)

old-HasBuffers : HasBuffers old
old-HasBuffers = record { buffers = refl; sizes = refl }

abbrev bound : SmEntry
bound = record (claim_entry 4000 6 old) { ip_addr = local; port = 5002 }

abbrev after : Result ℕ → SmEntry
after (ok n s) = s
after (err e) = old
after fault = old

abbrev one_waits : SmEntry
one_waits = after (k_sendto_first local 5002 (messages 0) bound)

one_waits-Reach : Course.Reach messages 0 1 one_waits
unfolding k_sendto_first put_message free_seq free_index uses_index claim_entry
one_waits-Reach =
    Course.later (Course.start 4000 6 5002 local old old-HasBuffers)
      (Course.queues 2 5002 local one_waits refl refl refl)

messages_fit : (n : ℕ) → length (messages n) ≤ 509
messages_fit n = omega arith

Reach-k_sendto_example :
    (1 < 10
      → (s' : SmEntry) × (k_sendto_first local 5002 (messages 1) one_waits ≡ ok 2 s')
        × Course.Reach messages 0 2 s')
    × (10 ≤ 1 → k_sendto_first local 5002 (messages 1) one_waits ≡ err enospace)
unfolding k_sendto_first put_message free_seq free_index uses_index claim_entry
Reach-k_sendto_example =
    Reach-k_sendto messages 0 1 5002 local one_waits messages_fit one_waits-Reach refl refl

Reach-send_entry_example :
    (s' : SmEntry) × (actions : List Action) × (send_entry 100 one_waits ≡ done s' actions)
    × Course.Reach messages 0 1 s'
    × All (CarriesWaiting messages 0 1 one_waits) actions
    × ((i : ℕ)
        → 0 ≤ i
        → i < 1
        → i < 0 + one_waits.swnd.size
        → IsDue 100 0 i one_waits
        → OneOf (Carries messages one_waits i) actions)
Reach-send_entry_example = Reach-send_entry messages 0 1 100 one_waits messages_fit one_waits-Reach

Reach-handle_ack_example :
    (s' : SmEntry) × (handle_ack_first (seq_number 0) 9 one_waits ≡ done s' [])
    × Course.Reach messages 1 1 s'
    × (s'.swnd.size ≡ 9)
    × (s'.send_buffer_size + (1 - 1) ≡ 10)
Reach-handle_ack_example =
    Reach-handle_ack messages 0 0 1 9 one_waits messages_fit one_waits-Reach (omega arith)
      (omega arith) (omega arith)

k_sendto_first-piece_message_example :
    k_sendto_first local 5002 (piece_message full_message) one_waits ≡ fault
unfolding k_sendto_first put_message free_seq free_index uses_index claim_entry
k_sendto_first-piece_message_example =
    k_sendto_first-piece_message messages 0 1 5002 local full_message one_waits messages_fit
      one_waits-Reach refl refl (omega arith) refl
