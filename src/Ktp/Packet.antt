-- ===== src/Ktp/Packet.antt =====
-- The packets of "Assignment 4 Final/initksocket.c": building and opening them.
pub mod RoundTrip
use networks_lab_cs39006_spr.Prelude.{
  ℕ, zero, suc, ◌+◌, ◌%◌, ◌≡◌, refl, Bool, List, [], ◌∷◌, Option, none, some, ◌==◌, if◌then◌else◌,
  length, get_or, drop, arith, ap,
}
use networks_lab_cs39006_spr.Ktp.Types.{header_size, message_len}
use networks_lab_cs39006_spr.Ktp.Window.{prev_seq}

-- `(char)(x & 0xFF)`, the byte as an unsigned number.
abbrev pub to_byte : ℕ → ℕ
to_byte x = x % 256

-- A loop that copies `n` bytes. Past the end of the list stands a 0.
unfoldable pub copy_bytes : ℕ → List ℕ → List ℕ
copy_bytes zero src = []
copy_bytes (suc n) [] = 0 ∷ copy_bytes n []
copy_bytes (suc n) (x ∷ src) = x ∷ copy_bytes n src

-- `none` is the return value -1, at which the buffer is not written.
unfoldable pub create_ack_packet : ℕ → ℕ → ℕ → ℕ → Option (List ℕ)
create_ack_packet n seq ack recv_wndw =
    if n == header_size
    then some (to_byte seq ∷ b'1' ∷ to_byte ack ∷ to_byte recv_wndw ∷ [])
    else none

unfoldable pub create_dat_packet : ℕ → List ℕ → ℕ → ℕ → ℕ → Option (List ℕ)
create_dat_packet n payload seq ack recv_wndw =
    if n == header_size + message_len
    then some
        (to_byte seq ∷ b'0' ∷ to_byte ack ∷ to_byte recv_wndw ∷ copy_bytes message_len payload)
    else none

-- What `open_packet` writes through its pointers; `payload` stays as it was at an ACK.
pub record Opened : Type 0 where
  pub seq : ℕ
  pub ack : ℕ
  pub is_ack : Bool
  pub recv_wndw : ℕ
  pub payload : Option (List ℕ)

unfoldable pub open_packet : List ℕ → Opened
open_packet buf = record {
  seq = prev_seq (to_byte (get_or buf 0 0));
  ack = to_byte (get_or buf 2 0);
  is_ack = get_or buf 1 0 == b'1';
  recv_wndw = to_byte (get_or buf 3 0);
  payload =
      if get_or buf 1 0 == b'1' then none else some (copy_bytes message_len (drop header_size buf));
}

pub copy_bytes_all : (n : ℕ) (xs : List ℕ) → length xs ≡ n → copy_bytes n xs ≡ xs
unfolding copy_bytes
copy_bytes_all zero [] h = refl
copy_bytes_all zero (x ∷ xs) h = absurd (omega arith)
copy_bytes_all (suc n) [] h = absurd (omega arith)
copy_bytes_all (suc n) (x ∷ xs) h = ap (λ r. x ∷ r) (copy_bytes_all n xs (omega arith))

pub length-copy_bytes : (n : ℕ) (xs : List ℕ) → length (copy_bytes n xs) ≡ n
unfolding copy_bytes
length-copy_bytes zero xs = refl
length-copy_bytes (suc n) [] = ap suc (length-copy_bytes n [])
length-copy_bytes (suc n) (x ∷ xs) = ap suc (length-copy_bytes n xs)
