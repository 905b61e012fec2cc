-- ===== src/Cldp/Server.antt =====
-- "Assignment 7/cldp_server.c": the HELLO thread, and the loop that answers queries.
use networks_lab_cs39006_spr.Prelude.{
  ℕ, ◌+◌, ◌*◌, ◌%◌, not, ◌&&◌, List, [], ◌∷◌, ◌++◌, Option, none, some, ltb, ◌==◌, if◌then◌else◌,
  codes, strcmp_eq, length, get_or, take,
}
use networks_lab_cs39006_spr.Cldp.Wire.{
  CldpHeader, cldp_bytes, ip_bytes, with_check, ip_header, htons, cldp_size, cldp_protocol,
  hello_type, query_type, response_type,
}

-- What `getifaddrs` lists. An address has a family and, for AF_INET, its number; `none` is NULL.
pub record Interface : Type 0 where
  pub name : List ℕ
  pub addr : Option (ℕ × ℕ)

abbrev pub af_inet : ℕ
af_inet = 2

-- `htonl(INADDR_LOOPBACK)`, whose bytes are 127, 0, 0, 1.
abbrev pub loopback : ℕ
loopback = 127 + 16777216

unfoldable pub usable : List ℕ → Option (ℕ × ℕ) → Option ℕ
usable name none = none
usable name (some (family, ip)) =
    if (family == af_inet) && not (strcmp_eq name (codes "lo")) then some ip else none

unfoldable pub first_usable : Option ℕ → ℕ → ℕ
first_usable none rest = rest
first_usable (some ip) rest = ip

unfoldable pub scan_interfaces : List Interface → ℕ
unfolding usable first_usable
scan_interfaces [] = loopback
scan_interfaces (i ∷ rest) = first_usable (usable i.name i.addr) (scan_interfaces rest)

-- `none` is a failure of `getifaddrs`.
unfoldable pub get_local_ip : Option (List Interface) → ℕ
unfolding scan_interfaces
get_local_ip none = loopback
get_local_ip (some interfaces) = scan_interfaces interfaces

-- `inet_addr("255.255.255.255")`.
abbrev pub broadcast : ℕ
broadcast = 4294967295

-- The packet that `hello_thread_handler` sends.
unfoldable pub hello_packet : (rand local_ip : ℕ) → List ℕ
unfolding with_check
hello_packet rand local_ip =
    ip_bytes (with_check (ip_header cldp_size rand local_ip broadcast))
    ++ cldp_bytes (record { type = hello_type; payload = 0; tid = htons 0; evenbit = 0 })

-- The byte at an index of a buffer that was zero before `recvfrom` filled its start.
abbrev pub at : List ℕ → ℕ → ℕ
at buffer i = get_or buffer i 0

-- The fields of the IP header in a buffer, and the CLDP header at an offset.
abbrev pub protocol_of : List ℕ → ℕ
protocol_of buffer = at buffer 9

abbrev pub header_len : List ℕ → ℕ
header_len buffer = at buffer 0 % 16 * 4

abbrev pub saddr_of : List ℕ → ℕ
saddr_of buffer = at buffer 12 + at buffer 13 * 256 + at buffer 14 * 65536 + at buffer 15 * 16777216

abbrev pub header_at : List ℕ → ℕ → CldpHeader
header_at buffer i = record {
  type = at buffer i;
  payload = at buffer (i + 1);
  tid = at buffer (i + 2) + at buffer (i + 3) * 256;
  evenbit =
      at buffer (i + 4)
      + at buffer (i + 5) * 256
      + at buffer (i + 6) * 65536
      + at buffer (i + 7) * 16777216;
}

-- What the system reports: the host's name, the time and the load as they are printed.
pub record SystemInfo : Type 0 where
  pub host : List ℕ
  pub time : List ℕ
  pub load : List ℕ

-- `snprintf` is given this text.
unfoldable pub info_text : SystemInfo → List ℕ
info_text info =
    codes "~ HOST : "
    ++ (info.host
        ++ (codes " ~ TIME : "
            ++ (info.time ++ (codes " ~ CPU LOAD : " ++ (info.load ++ codes "% ~")))))

abbrev pub payload_room : ℕ
payload_room = 512

-- The response to a query with the raw transaction id `tid`. The array `payload` holds all of the
-- text but what does not fit before the NUL.
unfoldable pub response_packet : (rand local_ip saddr tid : ℕ) (text : List ℕ) → List ℕ
unfolding with_check
response_packet rand local_ip saddr tid text =
    ip_bytes (with_check (ip_header (cldp_size + length text) rand local_ip saddr))
    ++ (cldp_bytes (record { type = response_type; payload = length text; tid = tid; evenbit = 0 })
        ++ take (length text) (take 511 text ++ 0 ∷ []))

-- What a round of the loop does: nothing, a packet to an address, or a read behind `payload`, where
-- `payload_size` is larger than the array.
pub data Answer : Type 0 where
  ignored : Answer
  responds : (dest : ℕ) (packet : List ℕ) → Answer
  overrun : Answer

unfoldable pub respond : (rand local_ip : ℕ) → List ℕ → (saddr tid : ℕ) → Answer
unfolding response_packet
respond rand local_ip text saddr tid =
    if ltb payload_room (length text)
    then overrun
    else responds saddr (response_packet rand local_ip saddr tid text)

-- The loop of `main`, on the bytes received.
unfoldable pub answer : (rand local_ip : ℕ) → SystemInfo → List ℕ → Answer
unfolding respond info_text
answer rand local_ip info buffer =
    if not (protocol_of buffer == cldp_protocol)
    then ignored
    else if ltb (length buffer) (header_len buffer + cldp_size)
    then ignored
    else (let h = header_at buffer (header_len buffer) in
        if h.type == query_type
        then respond rand local_ip (info_text info) (saddr_of buffer) h.tid
        else ignored)
