-- ===== src/Cldp/Client.antt =====
-- "Assignment 7/cldp_client.c": the list of servers, the threads that keep it, and the queries.
use networks_lab_cs39006_spr.Prelude.{
  ℕ, suc, ◌+◌, ◌%◌, ◌^◌, Bool, true, false, not, ◌&&◌, List, [], ◌∷◌, ◌++◌, Option, none, some, ltb,
  leb, ◌==◌, if◌then◌else◌, cstring, length, take, drop,
}
use networks_lab_cs39006_spr.Cldp.Wire.{
  cldp_bytes, ip_bytes, with_check, ip_header, htons, cldp_size, cldp_protocol, hello_type,
  query_type, response_type,
}
use networks_lab_cs39006_spr.Cldp.Server.{protocol_of, header_len, header_at}

abbrev pub server_timeout : ℕ
server_timeout = 20

-- `server_node`; the chain of `next` is a list.
pub record ServerNode : Type 0 where
  pub address : ℕ
  pub last_hello : ℕ

-- The loop that looks for the sender of a HELLO. The flag is `flag`.
unfoldable pub refresh : (src now : ℕ) → List ServerNode → List ServerNode × Bool
refresh src now [] = ([], false)
refresh src now (s ∷ rest) =
    let (later, flag) = refresh src now rest in
    if s.address == src
    then (record { address = s.address; last_hello = now } ∷ rest, true)
    else (s ∷ later, flag)

-- `allocated` says that `malloc` succeeds, where it is called.
unfoldable pub add_server :
    (allocated : Bool) (src now : ℕ) → List ServerNode × Bool → List ServerNode
add_server allocated src now (servers, true) = servers
add_server allocated src now (servers, false) =
    if allocated then record { address = src; last_hello = now } ∷ servers else servers

-- A round of `hello_thread_handler`, on what was received from `src` at time `now`.
unfoldable pub hear :
    (allocated : Bool) (src now : ℕ) (buffer : List ℕ) → List ServerNode → List ServerNode
unfolding refresh add_server
hear allocated src now buffer servers =
    if not (protocol_of buffer == cldp_protocol)
    then servers
    else if ltb (length buffer) (header_len buffer + cldp_size)
    then servers
    else if (header_at buffer (header_len buffer)).type == hello_type
    then add_server allocated src now (refresh src now servers)
    else servers

-- A round of `timeout_thread_handler`: `curr_time - last_hello > SERVER_TIMEOUT` on signed times.
unfoldable pub time_out : (now : ℕ) → List ServerNode → List ServerNode
time_out now [] = []
time_out now (s ∷ rest) =
    let later = time_out now rest in
    if ltb (s.last_hello + server_timeout) now then later else s ∷ later

-- The packet that `query_thread_handler` sends to a server.
unfoldable pub query_packet : (tid rand local_ip daddr : ℕ) → List ℕ
unfolding with_check
query_packet tid rand local_ip daddr =
    ip_bytes (with_check (ip_header cldp_size rand local_ip daddr))
    ++ cldp_bytes (record { type = query_type; payload = 0; tid = htons tid; evenbit = 0 })

pub record Query : Type 0 where
  pub dest : ℕ
  pub packet : List ℕ

-- One packet for each server of the copy, `rands` giving the numbers drawn.
unfoldable pub send_queries :
    (tid local_ip : ℕ) (rands : ℕ → ℕ) (i : ℕ) → List ServerNode → List Query
unfolding query_packet
send_queries tid local_ip rands i [] = []
send_queries tid local_ip rands i (s ∷ rest) =
    record { dest = s.address; packet = query_packet tid (rands i) local_ip s.address }
    ∷ send_queries tid local_ip rands (suc i) rest

-- The end of a round of `query_thread_handler`: the new transaction id, and what is sent. The list
-- is copied as far as `malloc` succeeds, for `copies` servers.
unfoldable pub query_round :
    (copies tid local_ip : ℕ) (rands : ℕ → ℕ) → List ServerNode → ℕ × List Query
unfolding send_queries
query_round copies tid local_ip rands [] = (tid, [])
query_round copies tid local_ip rands (s ∷ rest) =
    let tid' = (tid + 1) % 2 ^ 16 in
    (tid', send_queries tid' local_ip rands 0 (take copies (s ∷ rest)))

-- What is printed of the payload: `payload` was zero before `memcpy`.
unfoldable pub shown : (buffer : List ℕ) (start payload_len : ℕ) → Option (List ℕ)
shown buffer start payload_len =
    if leb (start + cldp_size + payload_len) (length buffer)
    then some (cstring (take payload_len (drop (start + cldp_size) buffer)))
    else none

-- What `query_thread_handler` makes of a packet that it receives while it waits for responses.
unfoldable pub receive_response : (tid : ℕ) → List ℕ → Option (List ℕ)
unfolding shown
receive_response tid buffer =
    if not (protocol_of buffer == cldp_protocol)
    then none
    else if ltb (length buffer) (header_len buffer + cldp_size)
    then none
    else (let h = header_at buffer (header_len buffer) in
        if (h.type == response_type) && (htons h.tid == tid)
        then shown buffer (header_len buffer) h.payload
        else none)
