-- ===== src/Ktp/Receiver.antt =====
-- The receiving thread of "Assignment 4 Final/initksocket.c" at one socket: what `handle_socket_data`
-- does with a datagram.
use networks_lab_cs39006_spr.Prelude.{
  ℕ, zero, suc, ◌+◌, ◌-◌, ◌*◌, ◌%◌, Bool, true, false, not, ◌&&◌, List, [], ◌∷◌, Option, none, some,
  ltb, ◌==◌, if◌then◌else◌, set,
}
use networks_lab_cs39006_spr.Ktp.Types.{
  ℤ, Window, Buffer, IpPort, KtpSocket, Action, sendto, close, header_size, message_len,
  max_message, seq_num, drop_probability,
}
use networks_lab_cs39006_spr.Ktp.Window.{inwndw, wndwsize, next_seq, prev_seq}
use networks_lab_cs39006_spr.Ktp.Packet.{copy_bytes, create_ack_packet, Opened, open_packet}
use networks_lab_cs39006_spr.Ktp.Socket.{slot_empty, same_address, zero_message}

-- `rand() % 100 < p * 100`, at the number that `rand` returns.
unfoldable pub drop_message : ℕ → Bool
drop_message r = ltb (r % 100) (drop_probability * 100)

-- What a step of a thread comes to: the thread goes on, the process exits, or a loop never ends.
pub data Outcome {ℓ} (A : Type ℓ) : Type ℓ where
  running : A → Outcome A
  exited : Outcome A
  hung : Outcome A

-- `sendto` of an ACK. `create_ack_packet` is called with the right length, so it never fails.
unfoldable pub send_ack : ℤ → IpPort → ℕ → ℕ → ℕ → List Action
send_ack fd addr seq ack wndw = elim (create_ack_packet header_size seq ack wndw) [
  | none ↦ []
  | some packet ↦ sendto fd addr packet ∷ []
]

-- The loop that looks for the highest number to acknowledge. `none` means that the fuel ran out.
unfoldable pub scan_ack : ℕ → ℕ → Window → Buffer → Option ℕ
scan_ack zero ack w b = none
scan_ack (suc fuel) ack w b =
    let rest = scan_ack fuel (next_seq ack) w b in
    if inwndw ack w.head w.tail && not (slot_empty b (ack % max_message)) then rest else some ack

unfoldable pub store_data : ℕ → List ℕ → Buffer → Buffer
store_data seq payload b = record {
  buff = set b.buff (seq % max_message) (copy_bytes message_len payload);
  filled = b.filled + 1;
  iter = b.iter;
  isempty = set b.isempty (seq % max_message) false;
}

-- The window is moved past the messages that are now in order, and an ACK goes out. `stop` is
-- where the scan ended.
unfoldable pub acknowledge : IpPort → ℕ → KtpSocket → KtpSocket × List Action
unfolding send_ack
acknowledge sender stop s =
    let ack = prev_seq stop in
    let rwnd = record (s.rwnd) { head = next_seq ack } in
    let size = wndwsize rwnd in
    (
      record s { rwnd = rwnd; last_acked = ack; nospace = if size == 0 then true else s.nospace },
      send_ack s.sockfd sender 0 ack size,
    )

-- One round of the scan's fuel for each sequence number.
abbrev pub scan_fuel : ℕ
scan_fuel = seq_num

-- A DATA packet that fits: it is stored, and the window moves if it was the one expected.
unfoldable pub accept_data : ℕ → List ℕ → IpPort → KtpSocket → Outcome (KtpSocket × List Action)
unfolding store_data acknowledge
accept_data seq payload sender s =
    let stored = record s { recv_buffer = store_data seq payload s.recv_buffer } in
    if seq == s.rwnd.head
    then elim (scan_ack scan_fuel s.rwnd.head s.rwnd stored.recv_buffer) [
      | none ↦ hung
      | some stop ↦ running (acknowledge sender stop stored)
    ]
    else running (stored, [])

-- A DATA packet.
unfoldable pub handle_data : ℕ → List ℕ → IpPort → KtpSocket → Outcome (KtpSocket × List Action)
unfolding accept_data send_ack
handle_data seq payload sender s =
    let fits = record s { nospace = false } in
    if inwndw seq s.rwnd.head s.rwnd.tail
    then if slot_empty s.recv_buffer (seq % max_message)
      then accept_data seq payload sender fits
      else running (fits, [])
    else if wndwsize s.rwnd == 0
    then running (record s { nospace = true }, send_ack s.sockfd sender 0 s.last_acked 0)
    else if next_seq seq == s.rwnd.head
    then running (s, send_ack s.sockfd sender seq seq (wndwsize s.rwnd))
    else running (s, [])

-- One round of the loop over acknowledged messages: a slot in use is given back.
unfoldable pub release_head : KtpSocket → KtpSocket
release_head s =
    let index = s.swnd.head % max_message in
    if slot_empty s.send_buffer index then s else record s {
      send_buffer = record {
        buff = set s.send_buffer.buff index zero_message;
        filled = s.send_buffer.filled - 1;
        iter = s.send_buffer.iter;
        isempty = set s.send_buffer.isempty index true;
      };
      swnd = record (s.swnd) { head = next_seq s.swnd.head };
    }

-- `while (1)` until the head is past the acknowledged number.
unfoldable pub release_acked : ℕ → ℕ → KtpSocket → Option KtpSocket
unfolding release_head
release_acked zero ack s = none
release_acked (suc fuel) ack s =
    let s' = release_head s in
    let rest = release_acked fuel ack s' in if next_seq ack == s'.swnd.head then some s' else rest

-- A round that does not end the loop either empties one of the ten slots or changes nothing, so a
-- loop that is not over after eleven rounds never is.
abbrev pub release_fuel : ℕ
release_fuel = max_message + 1

unfoldable pub set_swnd_size : ℕ → KtpSocket → KtpSocket
set_swnd_size size s = record s { swnd = record (s.swnd) { size = size } }

-- An ACK packet.
unfoldable pub handle_ack : ℕ → ℕ → KtpSocket → Outcome (KtpSocket × List Action)
unfolding release_acked set_swnd_size
handle_ack ack wndw s =
    let s₁ =
      if (wndwsize s.swnd == 0) && (ack == prev_seq s.swnd.tail) then set_swnd_size wndw s else s in
    if inwndw ack s₁.swnd.head s₁.swnd.tail
    then elim (release_acked release_fuel ack s₁) [
      | none ↦ hung
      | some s₂ ↦ running (set_swnd_size wndw s₂, [])
    ]
    else running (s₁, [])

unfoldable pub handle_opened : Opened → IpPort → KtpSocket → Outcome (KtpSocket × List Action)
unfolding handle_data handle_ack
handle_opened p sender s = elim (p.payload) [
  | some payload ↦ handle_data p.seq payload sender s
  | none ↦ handle_ack p.ack p.recv_wndw s
]

-- What `recvfrom` gives: -1, 0 bytes, or a datagram, with its sender, in the receive buffer.
pub data Received : Type 0 where
  failed : Received
  empty : Received
  datagram : List ℕ → IpPort → Received

-- One socket in `handle_socket_data`, from its lock to its unlock. `rand` is the number that
-- `drop_message` draws.
unfoldable pub handle_ready : Received → ℕ → KtpSocket → Outcome (KtpSocket × List Action)
unfolding handle_opened drop_message
handle_ready failed rand s = if s.in_use then exited else running (s, [])
handle_ready empty rand s =
    if s.in_use
    then running (record s { in_use = false; pid = 0 }, close s.sockfd ∷ [])
    else running (s, [])
handle_ready (datagram bytes sender) rand s =
    if s.in_use && same_address sender s.dest && not (drop_message rand)
    then handle_opened (open_packet bytes) sender s
    else running (s, [])
