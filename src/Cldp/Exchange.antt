-- ===== src/Cldp/Exchange.antt =====
-- A query of "Assignment 7/cldp_client.c", the answer of cldp_server.c, and what the client takes from it.
use networks_lab_cs39006_spr.Prelude.{
  ℕ, zero, suc, ◌+◌, ◌-◌, ◌*◌, ◌/◌, ◌%◌, ◌^◌, ◌≤◌, ◌<◌, ◌≡◌, ◌≢◌, refl, sym, ap, ap₂, ◌∙◌, Bool,
  true, false, not, ◌&&◌, List, [], ◌∷◌, ◌++◌, none, some, ltb, leb, ◌==◌, ==-self, ==-ne, All,
  if_true, if_false, take, length, cstring, arith,
}
use networks_lab_cs39006_spr.Cldp.Wire.{with_check, htons, cldp_size, cldp_protocol, response_type}
use networks_lab_cs39006_spr.Cldp.Server.{
  SystemInfo, info_text, responds, overrun, respond, response_packet, answer, payload_room,
  protocol_of, header_len, header_at,
}
use networks_lab_cs39006_spr.Cldp.Client.{query_packet, receive_response, shown}

-- `memcpy` takes the text out of the array that `snprintf` filled.
copied :
    (n : ℕ) (text : List ℕ) → length text ≤ n → take (length text) (take n text ++ 0 ∷ []) ≡ text
copied n [] h = refl
copied zero (c ∷ text) h = absurd (omega arith)
copied (suc n) (c ∷ text) h = ap (λ r. c ∷ r) (copied n text (omega arith))

saddr_back :
    (ip : ℕ)
    → ip < 2 ^ 32
    → ip % 256 + ip / 256 % 256 * 256 + ip / 65536 % 256 * 65536 + ip / 16777216 % 256 * 16777216
      ≡ ip
saddr_back ip h = omega arith

tid_back : (v : ℕ) → v < 65536 → v % 256 + v / 256 % 256 * 256 ≡ v
tid_back v h = omega arith

-- The server takes the query for what it is.
answer-query_packet :
    (rand local_ip : ℕ) (info : SystemInfo) (tid r ip dest : ℕ)
    → ip < 2 ^ 32
    → answer rand local_ip info (query_packet tid r ip dest)
      ≡ respond rand local_ip (info_text info) ip (htons tid)
unfolding answer query_packet with_check
answer-query_packet rand local_ip info tid r ip dest h =
    ap₂ (λ a b. respond rand local_ip (info_text info) a b) (saddr_back ip h)
      (tid_back (htons tid) (omega arith))

-- A packet that passes the tests of `query_thread_handler`.
received :
    (tid : ℕ) (buffer : List ℕ)
    → (protocol_of buffer == cldp_protocol) ≡ true
    → ltb (length buffer) (header_len buffer + cldp_size) ≡ false
    → (((header_at buffer (header_len buffer)).type == response_type)
        && (htons (header_at buffer (header_len buffer)).tid == tid))
      ≡ true
    → receive_response tid buffer
      ≡ shown buffer (header_len buffer) (header_at buffer (header_len buffer)).payload
unfolding receive_response
received tid buffer a b c =
    if_false (not (protocol_of buffer == cldp_protocol)) none _ (ap not a)
    ∙ if_false (ltb (length buffer) (header_len buffer + cldp_size)) none _ b
    ∙ if_true
        (((header_at buffer (header_len buffer)).type == response_type)
          && (htons (header_at buffer (header_len buffer)).tid == tid))
        _ none c

htons_back : (tid : ℕ) → tid < 2 ^ 16 → htons (htons tid % 256 + htons tid / 256 % 256 * 256) ≡ tid
htons_back tid h = omega arith

-- The client takes as much of the text as the one byte of the length says.
pub receive-response_packet :
    (rand local_ip saddr tid : ℕ) (text : List ℕ)
    → tid < 2 ^ 16
    → length text < 512
    → receive_response tid (response_packet rand local_ip saddr (htons tid) text)
      ≡ some (cstring (take (length text % 256) text))
unfolding response_packet with_check shown
receive-response_packet rand local_ip saddr tid text ht hl =
    let body : take (length text) (take 511 text ++ 0 ∷ []) ≡ text =
      copied 511 text (omega arith) in
    let size : length (take (length text) (take 511 text ++ 0 ∷ [])) ≡ length text =
      ap length body in
    let buffer = response_packet rand local_ip saddr (htons tid) text in
    received tid buffer refl (ground (arith, size))
      (ap (λ t. t == tid) (htons_back tid ht) ∙ ==-self tid)
    ∙ if_true (leb (28 + length text % 256) (length buffer)) _ none (ground (arith, size))
    ∙ ap (λ b. some (cstring (take (length text % 256) b))) body

-- A packet with another transaction id is passed over.
other_tid :
    (tid : ℕ) (buffer : List ℕ)
    → (protocol_of buffer == cldp_protocol) ≡ true
    → ltb (length buffer) (header_len buffer + cldp_size) ≡ false
    → htons (header_at buffer (header_len buffer)).tid ≢ tid
    → receive_response tid buffer ≡ none
unfolding receive_response
other_tid tid buffer a b c =
    if_false (not (protocol_of buffer == cldp_protocol)) none _ (ap not a)
    ∙ if_false (ltb (length buffer) (header_len buffer + cldp_size)) none _ b
    ∙ if_false
        (((header_at buffer (header_len buffer)).type == response_type)
          && (htons (header_at buffer (header_len buffer)).tid == tid))
        _ none
        (both_false ((header_at buffer (header_len buffer)).type == response_type) _
          (==-ne (htons (header_at buffer (header_len buffer)).tid) tid c))
  where
    both_false : (x y : Bool) → y ≡ false → (x && y) ≡ false
    both_false true y e = e
    both_false false y e = refl

stale-response_packet :
    (rand local_ip saddr tid tid' : ℕ) (text : List ℕ)
    → tid < 2 ^ 16
    → tid ≢ tid'
    → length text < 512
    → receive_response tid' (response_packet rand local_ip saddr (htons tid) text) ≡ none
unfolding response_packet with_check
stale-response_packet rand local_ip saddr tid tid' text ht ne hl =
    let body : take (length text) (take 511 text ++ 0 ∷ []) ≡ text =
      copied 511 text (omega arith) in
    let size : length (take (length text) (take 511 text ++ 0 ∷ [])) ≡ length text =
      ap length body in
    other_tid tid' (response_packet rand local_ip saddr (htons tid) text) refl
      (ground (arith, size)) (λ e. ne (sym (htons_back tid ht) ∙ e))

-- None of the bytes is NUL.
abbrev pub NoNul : List ℕ → Type 0
NoNul text = All (λ c. (c == 0) ≡ false) text

cstring_whole : (text : List ℕ) → NoNul text → cstring text ≡ text
cstring_whole [] v = refl
cstring_whole (c ∷ text) v = if_false (c == 0) _ _ v.0 ∙ ap (λ r. c ∷ r) (cstring_whole text v.1)

NoNul-take : (n : ℕ) (text : List ℕ) → NoNul text → NoNul (take n text)
NoNul-take zero text v = tt
NoNul-take (suc n) [] v = tt
NoNul-take (suc n) (c ∷ text) v = (v.0, NoNul-take n text v.1)

take_all : (text : List ℕ) (n : ℕ) → n ≡ length text → take n text ≡ text
take_all [] zero e = refl
take_all [] (suc n) e = absurd (omega arith)
take_all (c ∷ text) zero e = absurd (omega arith)
take_all (c ∷ text) (suc n) e = ap (λ r. c ∷ r) (take_all text n (omega arith))

respond_some :
    (rand local_ip : ℕ) (text : List ℕ) (saddr tid : ℕ)
    → length text < 512
    → respond rand local_ip text saddr tid
      ≡ responds saddr (response_packet rand local_ip saddr tid text)
unfolding respond
respond_some rand local_ip text saddr tid h =
    if_false (ltb payload_room (length text)) overrun _ (ground arith)

-- The server answers a client's query with a packet to the client from which a client waiting for
-- that transaction prints exactly the server's text, and a client waiting for another prints
-- nothing, where the text is shorter than 256 bytes and has no NUL, the client's address is below
-- 2^32 and the transaction below 2^16.
pub query-exchange :
    (rand local_ip : ℕ) (info : SystemInfo) (tid tid' r ip dest : ℕ)
    → ip < 2 ^ 32
    → tid < 2 ^ 16
    → tid ≢ tid'
    → length (info_text info) < 256
    → NoNul (info_text info)
    → let packet = response_packet rand local_ip ip (htons tid) (info_text info) in
      (answer rand local_ip info (query_packet tid r ip dest) ≡ responds ip packet)
      × (receive_response tid packet ≡ some (info_text info))
      × (receive_response tid' packet ≡ none)
query-exchange rand local_ip info tid tid' r ip dest hi ht ne hl v =
    let text = info_text info in
    (
      answer-query_packet rand local_ip info tid r ip dest hi
          ∙ respond_some rand local_ip text ip (htons tid) (omega arith),
      receive-response_packet rand local_ip ip tid text ht (omega arith)
          ∙ ap (λ t. some (cstring t)) (take_all text (length text % 256) (omega arith))
          ∙ ap some (cstring_whole text v),
      stale-response_packet rand local_ip ip tid tid' text ht ne (omega arith),
    )

-- Where the server's text has 256 to 511 bytes and no NUL, the packet that answers the query is
-- sent whole, and the client prints only as many bytes of it as its length exceeds 256.
pub query-truncated :
    (rand local_ip : ℕ) (info : SystemInfo) (tid r ip dest : ℕ)
    → ip < 2 ^ 32
    → tid < 2 ^ 16
    → 256 ≤ length (info_text info)
    → length (info_text info) < 512
    → NoNul (info_text info)
    → let packet = response_packet rand local_ip ip (htons tid) (info_text info) in
      (answer rand local_ip info (query_packet tid r ip dest) ≡ responds ip packet)
      × (receive_response tid packet ≡ some (take (length (info_text info) - 256) (info_text info)))
query-truncated rand local_ip info tid r ip dest hi ht lo hl v =
    let text = info_text info in
    let rest : length text % 256 ≡ length text - 256 = omega arith in
    (
      answer-query_packet rand local_ip info tid r ip dest hi
          ∙ respond_some rand local_ip text ip (htons tid) hl,
      receive-response_packet rand local_ip ip tid text ht hl
          ∙ ap (λ n. some (cstring (take n text))) rest
          ∙ ap some (
              cstring_whole (take (length text - 256) text)
                (NoNul-take (length text - 256) text v)),
    )
