-- ===== src/KtpFirst/Packet.antt =====
-- The packets of "Assignment 4 Initial/initksocket.c", whose header is written in the digits 0 and 1.
use networks_lab_cs39006_spr.Prelude.{
  ℕ, zero, suc, ◌+◌, ◌*◌, ◌/◌, ◌%◌, ◌^◌, List, [], ◌∷◌, ◌++◌, Option, none, some, ltb, ◌==◌,
  if◌then◌else◌, length, take, drop,
}
use networks_lab_cs39006_spr.KtpFirst.Types.{packet_room}

-- `((v >> (n - 1 - j)) & 1) + '0'` for each `j` below `n`.
unfoldable pub bits : ℕ → ℕ → List ℕ
bits zero v = []
bits (suc n) v = (48 + v / 2 ^ n % 2) ∷ bits n v

unfoldable pub make_ack : (seq size : ℕ) → List ℕ
unfolding bits
make_ack seq size = b'0' ∷ bits 8 seq ++ bits 4 size

-- With more than 509 bytes the packet does not fit its array, which is `none`.
unfoldable pub data_packet : (seq len : ℕ) → (buffer : List ℕ) → Option (List ℕ)
unfolding bits
data_packet seq len buffer =
    if ltb packet_room (19 + len)
    then none
    else some (b'1' ∷ bits 8 seq ++ bits 10 len ++ take len buffer)

-- The loop `v = v * 2 + (buffer[j] - '0')` over `n` bytes; another byte than 0 and 1 gives `none`,
-- and what the source computes from it is not modelled.
unfoldable pub read_bits : (n v : ℕ) → List ℕ → Option ℕ
read_bits zero v cs = some v
read_bits (suc n) v [] = none
read_bits (suc n) v (c ∷ cs) =
    let rest = read_bits n (v * 2 + c % 2) cs in if c / 2 == 24 then rest else none

-- The array behind `recvfrom`: the datagram, cut to the array, and then what was there before.
unfoldable pub array_after : (datagram junk : List ℕ) → List ℕ
array_after datagram junk =
    take packet_room datagram ++ drop (length (take packet_room datagram)) junk

pub data Packet : Type 0 where
  ack : (seq rwnd : ℕ) → Packet
  dat : (seq : ℕ) → (payload : List ℕ) → Packet

abbrev pub opened_ack : Option ℕ → Option ℕ → Option Packet
opened_ack none rwnd = none
opened_ack (some seq) none = none
opened_ack (some seq) (some rwnd) = some (ack seq rwnd)

-- The payload is `len` bytes from the nineteenth on, wherever the array ends.
abbrev pub opened_data : Option ℕ → Option ℕ → List ℕ → Option Packet
opened_data none len rest = none
opened_data (some seq) none rest = none
opened_data (some seq) (some len) rest = some (dat seq (take len rest))

unfoldable pub parse_packet : List ℕ → Option Packet
unfolding read_bits
parse_packet [] = none
parse_packet (c ∷ cs) =
    if c == b'0'
    then opened_ack (read_bits 8 0 cs) (read_bits 4 0 (drop 8 cs))
    else opened_data (read_bits 8 0 cs) (read_bits 10 0 (drop 8 cs)) (drop 18 cs)
