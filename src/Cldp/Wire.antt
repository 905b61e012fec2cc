-- ===== src/Cldp/Wire.antt =====
-- The packets of "Assignment 7/cldp_server.c": `CLDPHeader`, the IP header before it, and `checksum`.
-- The host is little-endian, so `htons` and `ntohs` swap two bytes.
use networks_lab_cs39006_spr.Prelude.{
  ℕ, zero, suc, ◌+◌, ◌-◌, ◌*◌, ◌/◌, ◌%◌, ◌^◌, List, [], ◌∷◌, ◌++◌, ◌==◌, if◌then◌else◌, take,
}

abbrev pub cldp_protocol : ℕ
cldp_protocol = 253

-- The values of `type`.
abbrev pub hello_type : ℕ
hello_type = 1

abbrev pub query_type : ℕ
query_type = 2

abbrev pub response_type : ℕ
response_type = 3

-- The sizes of the two headers.
abbrev pub ip_size : ℕ
ip_size = 20

abbrev pub cldp_size : ℕ
cldp_size = 8

-- Also `ntohs`.
abbrev pub htons : ℕ → ℕ
htons v = v % 256 * 256 + v / 256 % 256

-- The memory of a `uint16_t` and of a `uint32_t`.
abbrev pub bytes16 : ℕ → List ℕ
bytes16 v = v % 256 ∷ v / 256 % 256 ∷ []

abbrev pub bytes32 : ℕ → List ℕ
bytes32 v = v % 256 ∷ v / 256 % 256 ∷ v / 65536 % 256 ∷ v / 16777216 % 256 ∷ []

pub record CldpHeader : Type 0 where
  pub type : ℕ
  pub payload : ℕ
  pub tid : ℕ
  pub evenbit : ℕ

-- `payload` is a `uint8_t`, so what is assigned to it is cut.
abbrev pub cldp_bytes : CldpHeader → List ℕ
cldp_bytes h = h.type % 256 ∷ h.payload % 256 ∷ (bytes16 h.tid ++ bytes32 h.evenbit)

-- `struct iphdr` with the fields that the programs set; the others are 0 there.
pub record IpHeader : Type 0 where
  pub ihl : ℕ
  pub version : ℕ
  pub tos : ℕ
  pub tot_len : ℕ
  pub id : ℕ
  pub frag_off : ℕ
  pub ttl : ℕ
  pub protocol : ℕ
  pub check : ℕ
  pub saddr : ℕ
  pub daddr : ℕ

-- `ihl` is the low half of the first byte.
abbrev pub ip_bytes : IpHeader → List ℕ
ip_bytes h =
    (h.version % 16 * 16 + h.ihl % 16)
    ∷ h.tos % 256
    ∷ (bytes16 h.tot_len
        ++ (bytes16 h.id
            ++ (bytes16 h.frag_off
                ++ (h.ttl % 256
                    ∷ h.protocol % 256
                    ∷ (bytes16 h.check ++ (bytes32 h.saddr ++ bytes32 h.daddr))))))

-- Memory read as an array of `uint16_t`.
abbrev pub words : List ℕ → List ℕ
words [] = []
words (a ∷ []) = []
words (a ∷ b ∷ rest) = (a + b * 256) ∷ words rest

-- `sum += header[i]` on a `uint32_t`, over all words.
unfoldable pub sum_words : ℕ → List ℕ → ℕ
sum_words sum [] = sum
sum_words sum (w ∷ ws) = sum_words ((sum + w) % 2 ^ 32) ws

-- `while (sum >> 16)`, for as many rounds at most as there is fuel.
unfoldable pub fold_carry : ℕ → ℕ → ℕ
fold_carry zero sum = sum
fold_carry (suc fuel) sum =
    let rest = fold_carry fuel (sum % 2 ^ 16 + sum / 2 ^ 16) in
    if sum / 2 ^ 16 == 0 then sum else rest

-- A sum below 2^32 has no carry left after two rounds.
abbrev pub carry_fuel : ℕ
carry_fuel = 2

-- `(uint16_t)(~sum)` at the end.
unfoldable pub checksum : List ℕ → ℕ → ℕ
unfolding sum_words fold_carry
checksum header no_words =
    (2 ^ 32 - 1 - fold_carry carry_fuel (sum_words 0 (take no_words header))) % 2 ^ 16

-- `ip->check = checksum((uint16_t *)ip, ip->ihl * 2)`.
unfoldable pub with_check : IpHeader → IpHeader
unfolding checksum
with_check h = record h { check = checksum (words (ip_bytes h)) (h.ihl * 2) }

-- The IP header that each kind of packet has before its checksum is set; `len` is what follows it,
-- and `rand` the number drawn.
abbrev pub ip_header : (len rand saddr daddr : ℕ) → IpHeader
ip_header len rand saddr daddr = record {
  ihl = 5;
  version = 4;
  tos = 0;
  tot_len = htons (ip_size + len);
  id = htons (rand % 65535);
  frag_off = 0;
  ttl = 64;
  protocol = cldp_protocol;
  check = 0;
  saddr = saddr;
  daddr = daddr;
}
