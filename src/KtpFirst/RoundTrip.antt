-- ===== src/KtpFirst/RoundTrip.antt =====
-- A DATA packet of the first version is taken apart into what it was made of.
use networks_lab_cs39006_spr.Prelude.{
  ℕ, zero, suc, ◌+◌, ◌*◌, ◌/◌, ◌%◌, ◌^◌, ◌≤◌, ◌<◌, ◌≡◌, refl, ap, ap₂, ◌∙◌, false, List, [], ◌∷◌,
  ◌++◌, none, some, ltb, ◌==◌, if_true, if_false, length, length-take, take, take-whole, drop,
  arith,
}
use networks_lab_cs39006_spr.KtpFirst.Types.{SmEntry}
use networks_lab_cs39006_spr.KtpFirst.Packet.{
  bits, data_packet, read_bits, array_after, dat, opened_data, parse_packet,
}
use networks_lab_cs39006_spr.KtpFirst.Receiver.{
  handle_packet, arrives, handle_arrival, handle_data_first,
}

-- The number that `n` digits of `x` make behind `v`.
abbrev value : ℕ → ℕ → ℕ → ℕ
value zero v x = v
value (suc n) v x = value n (v * 2 + x / 2 ^ n % 2) x

read_bits-digit :
    (n v b : ℕ) (cs : List ℕ)
    → b < 2
    → read_bits (suc n) v ((48 + b) ∷ cs) ≡ read_bits n (v * 2 + b) cs
unfolding read_bits
read_bits-digit n v b cs h =
    if_true ((48 + b) / 2 == 24) _ none (ground arith)
    ∙ ap (λ d. read_bits n (v * 2 + d) cs) (let same : (48 + b) % 2 ≡ b = omega arith in same)

read_bits-bits : (n v x : ℕ) (rest : List ℕ) → read_bits n v (bits n x ++ rest) ≡ some (value n v x)
unfolding bits read_bits
read_bits-bits zero v x rest = refl
read_bits-bits (suc n) v x rest =
    read_bits-digit n v (x / 2 ^ n % 2) (bits n x ++ rest) (omega arith)
    ∙ read_bits-bits n (v * 2 + x / 2 ^ n % 2) x rest

eight : (x : ℕ) → x < 256 → value 8 0 x ≡ x
eight x h = omega arith

ten : (x : ℕ) → x < 1024 → value 10 0 x ≡ x
ten x h = omega arith

take-first : (n : ℕ) (xs ys : List ℕ) → n ≡ length xs → take n (xs ++ ys) ≡ xs
take-first zero [] ys e = refl
take-first zero (x ∷ xs) ys e = absurd (omega arith)
take-first (suc n) [] ys e = absurd (omega arith)
take-first (suc n) (x ∷ xs) ys e = ap (λ r. x ∷ r) (take-first n xs ys (omega arith))

-- The digits and the payload, with what stands behind them in the array.
abbrev packet_bytes : ℕ → ℕ → List ℕ → List ℕ
packet_bytes seq len rest = b'1' ∷ bits 8 seq ++ bits 10 len ++ rest

parse-packet_bytes :
    (seq len : ℕ) (payload junk : List ℕ)
    → seq < 256
    → len < 1024
    → len ≡ length payload
    → parse_packet (packet_bytes seq len payload ++ junk) ≡ some (dat seq payload)
unfolding parse_packet bits
parse-packet_bytes seq len payload junk h l e =
    ap₂ (λ a b. opened_data a b (payload ++ junk))
      (read_bits-bits 8 0 seq (bits 10 len ++ payload ++ junk) ∙ ap some (eight seq h))
      (read_bits-bits 10 0 len (payload ++ junk) ∙ ap some (ten len l))
    ∙ ap (λ p. some (dat seq p)) (take-first len payload junk e)

packet_length :
    (seq len : ℕ) (rest : List ℕ) → length (packet_bytes seq len rest) ≡ 19 + length rest
unfolding bits
packet_length seq len rest = omega arith

-- The payload of a packet of `len` bytes of a buffer.
payload_length : (len : ℕ) (buffer : List ℕ) → len ≤ length buffer → len ≡ length (take len buffer)
payload_length len buffer h = omega (arith, length-take len buffer)

-- With a number below 256, a message of at most 509 bytes makes a packet that the receiver handles
-- as that number and just these bytes, whatever its array held before; a longer message does not
-- fit the packet's array.
pub handle_arrival-data_packet :
    (seq len : ℕ) (buffer junk ip_addr : List ℕ) (port : ℕ) (s : SmEntry)
    → seq < 256
    → len ≤ length buffer
    → (509 < len → data_packet seq len buffer ≡ none)
      × (len ≤ 509
          → (packet : List ℕ) × (data_packet seq len buffer ≡ some packet)
            × (handle_arrival junk false (arrives packet ip_addr port) s
                ≡ handle_data_first ip_addr port seq (take len buffer) s))
unfolding data_packet handle_arrival array_after
handle_arrival-data_packet seq len buffer junk ip_addr port s h l =
    let payload : List ℕ = take len buffer in
    let packet : List ℕ = packet_bytes seq len payload in
    let size = packet_length seq len payload in
    let full = payload_length len buffer l in
    (
      λ m. if_true (ltb 528 (19 + len)) none _ (ground arith),
      λ m.
          let whole : take 528 packet ≡ packet =
            take-whole 528 packet (omega (arith, size, full)) in
          (
            packet,
            if_false (ltb 528 (19 + len)) none _ (ground arith),
            ap (λ p. handle_packet ip_addr port (parse_packet (p ++ drop (length p) junk)) s) whole
                ∙ ap (λ o. handle_packet ip_addr port o s)
                    (parse-packet_bytes seq len payload (drop (length packet) junk) h (omega arith)
                      full),
          ),
    )
