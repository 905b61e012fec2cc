-- ===== src/Cldp/Tests.antt =====
-- An exchange between "Assignment 7/cldp_server.c" and cldp_client.c, and their theorems on it.
use networks_lab_cs39006_spr.Prelude.{
  ℕ, ◌<◌, ◌≤◌, ◌^◌, ◌≡◌, ◌≢◌, refl, Bool, true, false, not, ◌&&◌, ◌==◌, List, [], ◌∷◌, some, none,
  codes, All, length, replicate, arith,
}
use networks_lab_cs39006_spr.Cldp.Wire.{
  IpHeader, ip_header, ip_bytes, words, with_check, checksum, cldp_size, htons,
}
use networks_lab_cs39006_spr.Cldp.Server.{
  SystemInfo, info_text, hello_packet, response_packet, answer, responds,
}
use networks_lab_cs39006_spr.Cldp.Client.{Query, query_packet, query_round, receive_response}
use networks_lab_cs39006_spr.Cldp.System.{Client, Event, hears, checks, asks, step, run, start}
use networks_lab_cs39006_spr.Cldp.Checksum.{with_check-verifies}
use networks_lab_cs39006_spr.Cldp.Exchange.{NoNul, query-exchange}
use networks_lab_cs39006_spr.Cldp.Servers.{Absent, Distinct, run-Distinct}
use networks_lab_cs39006_spr.Cldp.Heard.{Asked, heard-Asked}
use networks_lab_cs39006_spr.Cldp.Silence.{Silent-Absent}

-- 10.0.0.1 and 10.0.0.2.
abbrev server_ip : ℕ
server_ip = 16777226

abbrev client_ip : ℕ
client_ip = 33554442

abbrev header : IpHeader
header = ip_header cldp_size 4711 server_ip client_ip

with_check-verifies_example :
    (checksum (words (ip_bytes header)) 10 < 2 ^ 16)
    × (checksum (words (ip_bytes (with_check header))) 10 ≡ 0)
with_check-verifies_example = with_check-verifies header refl refl

abbrev info : SystemInfo
info = record { host = codes "lab"; time = codes "2025-03-20 10:00:00"; load = codes "0.25" }

-- `NoNul` by evaluation.
abbrev no_nul : List ℕ → Bool
no_nul [] = true
no_nul (c ∷ cs) = not (c == 0) && no_nul cs

no_nul-NoNul : (text : List ℕ) → no_nul text ≡ true → NoNul text
no_nul-NoNul [] e = tt
no_nul-NoNul (c ∷ cs) e =
    let both : ((c == 0) ≡ false) × (no_nul cs ≡ true) = ground arith in
    (both.0, no_nul-NoNul cs both.1)

short_text : length (info_text info) < 256
unfolding info_text
short_text = omega arith

query-exchange_example :
    let packet = response_packet 99 server_ip client_ip (htons 7) (info_text info) in
    (answer 99 server_ip info (query_packet 7 4711 client_ip server_ip) ≡ responds client_ip packet)
    × (receive_response 7 packet ≡ some (info_text info))
    × (receive_response 8 packet ≡ none)
unfolding info_text
query-exchange_example =
    query-exchange 99 server_ip info 7 8 4711 client_ip server_ip (omega arith) (omega arith)
      (λ e. omega arith) short_text (no_nul-NoNul (info_text info) refl)

-- A host with a long name.
abbrev long_info : SystemInfo
long_info = record {
  host = replicate 250 b'x';
  time = codes "2025-03-20 10:00:00";
  load = codes "0.25";
}

abbrev numbers : ℕ → ℕ
numbers i = i

-- The server is heard at 100, and a check follows at 115.
abbrev heard_first : Event
heard_first = hears true server_ip 100 (hello_packet 5 server_ip)

abbrev day : List Event
day = heard_first ∷ checks 115 ∷ asks 1 client_ip numbers ∷ heard_first ∷ []

run-Distinct_example : Distinct (run day start).servers
run-Distinct_example = run-Distinct day start tt

abbrev checked_once : List Event
checked_once = checks 115 ∷ []

one_server : length (run checked_once (step heard_first start)).servers ≤ 1
unfolding run step hello_packet
one_server = omega arith

heard-Asked_example :
    Asked server_ip
      (query_round 1
        (run checked_once (step heard_first start)).tid
        client_ip
        numbers
        (run checked_once (step heard_first start)).servers).1
heard-Asked_example =
    heard-Asked start server_ip 100 5 server_ip checked_once 1 client_ip numbers (omega arith, tt)
      one_server

abbrev known : Client
known = record { servers = record { address = server_ip; last_hello = 100 } ∷ []; tid = 3 }

Silent-Absent_example :
    let c' = step (checks 121) (run checked_once known) in
    Absent server_ip c'.servers
    × All (λ q. Query.dest q ≢ server_ip) (query_round 1 c'.tid client_ip numbers c'.servers).1
Silent-Absent_example =
    Silent-Absent known server_ip 100 121 checked_once 1 client_ip numbers ((λ e. omega arith), tt)
      (tt, tt) (omega arith)
