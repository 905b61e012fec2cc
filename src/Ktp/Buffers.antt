-- ===== src/Ktp/Buffers.antt =====
-- The message buffers of a socket: what keeps every access in range and the counts right.
use networks_lab_cs39006_spr.Prelude.{
  ℕ, zero, suc, ◌+◌, ◌-◌, ◌%◌, ◌≤◌, ◌<◌, ◌≡◌, refl, Bool, true, false, List, [], ◌∷◌, length,
  get_or, set, length-set, length-replicate, All, All-set, All-replicate, arith,
}
use networks_lab_cs39006_spr.Ktp.Types.{Buffer, message_len, max_message}
use networks_lab_cs39006_spr.Ktp.Packet.{copy_bytes, length-copy_bytes}
use networks_lab_cs39006_spr.Ktp.Socket.{
  initialize_buffer, zero_message, slot_empty, push_message, pop_message,
}
use networks_lab_cs39006_spr.Ktp.Receiver.{store_data}

-- The slots that are not empty.
abbrev pub occupied : List Bool → ℕ
occupied [] = 0
occupied (true ∷ flags) = occupied flags
occupied (false ∷ flags) = suc (occupied flags)

abbrev pub IsMessage : List ℕ → Type 0
IsMessage m = length m ≡ message_len

-- Ten slots of 512 bytes, ten flags, a write or read index inside them, and a count of messages
-- that is at least the number of slots in use and at most ten.
pub record IsBuffer (b : Buffer) : Type 0 where
  pub slots : length b.buff ≡ max_message
  pub flags : length b.isempty ≡ max_message
  pub index : b.iter < max_message
  pub counted : occupied b.isempty ≤ b.filled
  pub capped : b.filled ≤ max_message
  pub messages : All IsMessage b.buff

pub occupied-le-length : (flags : List Bool) → occupied flags ≤ length flags
occupied-le-length [] = omega arith
occupied-le-length (true ∷ flags) = omega (arith, occupied-le-length flags)
occupied-le-length (false ∷ flags) = omega (arith, occupied-le-length flags)

pub occupied-set-false :
    (flags : List Bool) (i : ℕ) → occupied (set flags i false) ≤ occupied flags + 1
occupied-set-false [] i = omega arith
occupied-set-false (true ∷ flags) zero = omega arith
occupied-set-false (false ∷ flags) zero = omega arith
occupied-set-false (true ∷ flags) (suc i) = omega (arith, occupied-set-false flags i)
occupied-set-false (false ∷ flags) (suc i) = omega (arith, occupied-set-false flags i)

pub occupied-fill :
    (flags : List Bool) (i : ℕ)
    → i < length flags
    → get_or flags i true ≡ true
    → occupied (set flags i false) ≡ occupied flags + 1
occupied-fill [] i h e = elim h [ ]
occupied-fill (true ∷ flags) zero h e = omega arith
occupied-fill (false ∷ flags) zero h e = ground arith
occupied-fill (true ∷ flags) (suc i) h e = omega (arith, occupied-fill flags i (omega arith) e)
occupied-fill (false ∷ flags) (suc i) h e = omega (arith, occupied-fill flags i (omega arith) e)

pub occupied-free :
    (flags : List Bool) (i : ℕ)
    → get_or flags i true ≡ false
    → occupied (set flags i true) + 1 ≡ occupied flags
occupied-free [] i e = ground arith
occupied-free (true ∷ flags) zero e = ground arith
occupied-free (false ∷ flags) zero e = omega arith
occupied-free (true ∷ flags) (suc i) e = omega (arith, occupied-free flags i e)
occupied-free (false ∷ flags) (suc i) e = omega (arith, occupied-free flags i e)

pub zero_message-IsMessage : IsMessage zero_message
unfolding zero_message
zero_message-IsMessage = length-replicate {A = ℕ} message_len 0

pub initialize_buffer-IsBuffer : IsBuffer initialize_buffer
unfolding initialize_buffer
initialize_buffer-IsBuffer = record {
  slots = refl;
  flags = refl;
  index = omega arith;
  counted = omega arith;
  capped = omega arith;
  messages = All-replicate IsMessage max_message zero_message zero_message-IsMessage;
}

pub push_message-IsBuffer :
    (m : List ℕ) {b : Buffer} → IsBuffer b → b.filled < max_message → IsBuffer (push_message m b)
unfolding push_message
push_message-IsBuffer m {b} v h = record {
  slots = omega (arith, length-set b.buff b.iter (copy_bytes message_len m), v.slots);
  flags = omega (arith, length-set b.isempty b.iter false, v.flags);
  index = omega arith;
  counted = omega (arith, occupied-set-false b.isempty b.iter, v.counted);
  capped = omega arith;
  messages =
      All-set IsMessage b.buff b.iter (copy_bytes message_len m) (length-copy_bytes message_len m)
        v.messages;
}

pub occupied-free_le :
    (i : ℕ) {b : Buffer}
    → IsBuffer b
    → slot_empty b i ≡ false
    → occupied (set b.isempty i true) ≤ b.filled - 1
occupied-free_le i {b} v e = omega (arith, occupied-free b.isempty i e, v.counted)

pub pop_message-IsBuffer :
    {b : Buffer} → IsBuffer b → slot_empty b b.iter ≡ false → IsBuffer (pop_message b)
unfolding pop_message
pop_message-IsBuffer {b} v e = record {
  slots = v.slots;
  flags = omega (arith, length-set b.isempty b.iter true, v.flags);
  index = omega arith;
  counted = occupied-free_le b.iter v e;
  capped = omega (arith, v.capped);
  messages = v.messages;
}

pub store_data-IsBuffer :
    (seq : ℕ) (m : List ℕ) {b : Buffer}
    → IsBuffer b
    → occupied b.isempty ≡ b.filled
    → slot_empty b (seq % max_message) ≡ true
    → IsBuffer (store_data seq m b) × (occupied (store_data seq m b).isempty ≡ b.filled + 1)
unfolding store_data
store_data-IsBuffer seq m {b} v exact e = (
  record {
    slots =
        omega (arith, length-set b.buff (seq % max_message) (copy_bytes message_len m), v.slots);
    flags = omega (arith, length-set b.isempty (seq % max_message) false, v.flags);
    index = v.index;
    counted = omega (arith, now);
    capped = omega (
      arith,
      now,
      occupied-le-length (set b.isempty (seq % max_message) false),
      length-set b.isempty (seq % max_message) false,
      v.flags,
    );
    messages =
        All-set IsMessage b.buff (seq % max_message) (copy_bytes message_len m)
          (length-copy_bytes message_len m) v.messages;
  },
  now,
)
  where
    now : occupied (set b.isempty (seq % max_message) false) ≡ b.filled + 1
    now =
        omega (arith, occupied-fill b.isempty (seq % max_message) (omega (arith, v.flags)) e, exact)

pub occupied-pop :
    (b : Buffer)
    → slot_empty b b.iter ≡ false
    → occupied (pop_message b).isempty + 1 ≡ occupied b.isempty
unfolding pop_message
occupied-pop b e = occupied-free b.isempty b.iter e

pub filled-store_data :
    (seq : ℕ) (m : List ℕ) (b : Buffer) → (store_data seq m b).filled ≡ b.filled + 1
unfolding store_data
filled-store_data seq m b = refl

-- A slot of the send buffer that an ACK gives back.
pub release_slot-IsBuffer :
    (i : ℕ) {b : Buffer}
    → IsBuffer b
    → slot_empty b i ≡ false
    → IsBuffer (record {
      buff = set b.buff i zero_message;
      filled = b.filled - 1;
      iter = b.iter;
      isempty = set b.isempty i true;
    })
release_slot-IsBuffer i {b} v e = record {
  slots = omega (arith, length-set b.buff i zero_message, v.slots);
  flags = omega (arith, length-set b.isempty i true, v.flags);
  index = v.index;
  counted = occupied-free_le i v e;
  capped = omega (arith, v.capped);
  messages = All-set IsMessage b.buff i zero_message zero_message-IsMessage v.messages;
}
