-- ===== src/Ktp/Send/Queue.antt =====
-- The send buffer as a queue: what `k_sendto` appends and an ACK takes off.
use networks_lab_cs39006_spr.Prelude.{
  ℕ, zero, suc, ◌+◌, ◌-◌, ◌%◌, ◌≤◌, ◌<◌, ◌≡◌, ◌≢◌, refl, true, false, List, [], ◌∷◌, ◌++◌, get_or,
  set, get_or-set_self, get_or-set_ne, arith, ap, ap₂, sym, ◌∙◌,
}
use native.Mathlib.Nat.{add-zero}
use native.Mathlib.Numerals.{add-one}
use native.Mathlib.Decide.{ℕ_discrete}
use networks_lab_cs39006_spr.Ktp.Types.{KtpSocket, message_len, max_message}
use networks_lab_cs39006_spr.Ktp.Window.{next_seq, distance}
use networks_lab_cs39006_spr.Ktp.Packet.{copy_bytes}
use networks_lab_cs39006_spr.Ktp.Socket.{slot, slot_empty, push_message, zero_message}
use networks_lab_cs39006_spr.Ktp.Receiver.{release_head}
use networks_lab_cs39006_spr.Ktp.Invariant.Defs.{IsSocket}

-- The messages of `n` sequence numbers from `seq` on, each in its slot.
abbrev pub cells : List (List ℕ) → ℕ → ℕ → List (List ℕ)
cells buff seq zero = []
cells buff seq (suc n) = get_or buff (seq % max_message) [] ∷ cells buff (suc seq) n

-- The messages that wait for an ACK, oldest first.
abbrev pub queue : KtpSocket → List (List ℕ)
queue s = cells s.send_buffer.buff s.swnd.head s.send_buffer.filled

-- The slots in use are those of the numbers from the window's head on, and the write index is just
-- behind them.
pub record InStep (s : KtpSocket) : Type 0 where
  pub placed : s.send_buffer.iter ≡ (s.swnd.head + s.send_buffer.filled) % max_message
  pub used :
      (k : ℕ)
      → k < s.send_buffer.filled
      → slot_empty s.send_buffer ((s.swnd.head + k) % max_message) ≡ false
  pub bare :
      (k : ℕ)
      → s.send_buffer.filled ≤ k
      → k < max_message
      → slot_empty s.send_buffer ((s.swnd.head + k) % max_message) ≡ true
  pub sent : distance s.swnd.head s.swnd.tail ≤ s.send_buffer.filled

cells-set :
    (buff : List (List ℕ)) (i : ℕ) (v : List ℕ) (seq n : ℕ)
    → ((k : ℕ) → k < n → (seq + k) % max_message ≢ i)
    → cells (set buff i v) seq n ≡ cells buff seq n
cells-set buff i v seq zero h = refl
cells-set buff i v seq (suc n) h =
    ap (λ m. m ∷ cells (set buff i v) (suc seq) n)
      (get_or-set_ne buff i (seq % max_message) v [] (λ e. h 0 (omega arith) (omega arith)))
    ∙ ap (λ r. get_or buff (seq % max_message) [] ∷ r)
        (cells-set buff i v (suc seq) n (λ k p e. h (suc k) (omega arith) (omega arith)))

cells-snoc :
    (buff : List (List ℕ)) (seq n : ℕ)
    → cells buff seq (suc n) ≡ cells buff seq n ++ (get_or buff ((seq + n) % max_message) [] ∷ [])
cells-snoc buff seq zero = ap (λ i. get_or buff (i % max_message) [] ∷ []) (omega arith)
cells-snoc buff seq (suc n) =
    ap (λ r. get_or buff (seq % max_message) [] ∷ r)
      (cells-snoc buff (suc seq) n
        ∙ ap (λ i. cells buff (suc seq) n ++ (get_or buff (i % max_message) [] ∷ [])) (omega arith))

-- A message put into a send buffer with room, whose slots are those of the numbers from the
-- window's head on, goes to the end of the queue that the buffer stands for, and the buffer stays
-- so.
pub push_message-InStep :
    (m : List ℕ) (s : KtpSocket)
    → IsSocket s
    → InStep s
    → s.send_buffer.filled < max_message
    → let s' = record s { send_buffer = push_message m s.send_buffer } in
      InStep s' × (queue s' ≡ queue s ++ (copy_bytes message_len m ∷ []))
unfolding push_message
push_message-InStep m s v q room = (
  record {
    placed = omega (arith, q.placed);
    used = λ k h. elim (ℕ_discrete k s.send_buffer.filled) [
      | yes same ↦
          ap (λ i. get_or (set s.send_buffer.isempty s.send_buffer.iter false) i true)
            (let here : (s.swnd.head + k) % max_message ≡ s.send_buffer.iter =
                omega (arith, q.placed) in
              here)
          ∙ get_or-set_self s.send_buffer.isempty s.send_buffer.iter false true
              (omega (arith, v.send.flags, v.send.index))
      | no other ↦
          get_or-set_ne s.send_buffer.isempty s.send_buffer.iter _ false true
            (λ e. omega (arith, q.placed))
          ∙ q.used k (omega arith)
    ];
    bare = λ k h l.
        get_or-set_ne s.send_buffer.isempty s.send_buffer.iter _ false true
          (λ e. omega (arith, q.placed))
        ∙ q.bare k (omega arith) l;
    sent = omega (arith, q.sent);
  },
  ap (cells stored s.swnd.head) (add-one s.send_buffer.filled)
      ∙ cells-snoc stored s.swnd.head s.send_buffer.filled
      ∙ ap₂ (λ old new. old ++ (new ∷ []))
          (cells-set s.send_buffer.buff s.send_buffer.iter (copy_bytes message_len m) s.swnd.head
            s.send_buffer.filled (λ k h e. omega (arith, q.placed)))
          (ap (λ i. get_or stored i []) (sym q.placed)
            ∙ get_or-set_self s.send_buffer.buff s.send_buffer.iter (copy_bytes message_len m) []
                (omega (arith, v.send.slots, v.send.index))),
)
  where
    stored : List (List ℕ)
    stored = set s.send_buffer.buff s.send_buffer.iter (copy_bytes message_len m)

pub first_used :
    (s : KtpSocket)
    → InStep s
    → 0 < s.send_buffer.filled
    → slot_empty s.send_buffer (s.swnd.head % max_message) ≡ false
first_used s q busy =
    ap (λ i. slot_empty s.send_buffer (i % max_message)) (sym (add-zero s.swnd.head))
    ∙ q.used 0 busy

-- One round of the ACK loop takes the oldest message off, as long as the head does not wrap.
pub release_head-InStep :
    (s : KtpSocket)
    → IsSocket s
    → InStep s
    → 0 < distance s.swnd.head s.swnd.tail
    → s.swnd.head < 255
    → InStep (release_head s)
      × ((release_head s).swnd.head ≡ s.swnd.head + 1)
      × ((release_head s).swnd.tail ≡ s.swnd.tail)
      × (queue s ≡ slot s.send_buffer (s.swnd.head % max_message) ∷ queue (release_head s))
unfolding release_head
release_head-InStep s v q busy low = rw (first_used s q (omega (arith, q.sent))) (
  record {
    placed = omega (arith, q.placed, q.sent);
    used = λ k h.
        get_or-set_ne s.send_buffer.isempty (s.swnd.head % max_message) _ true true
          (λ e. omega (arith, v.send.capped))
        ∙ ap (slot_empty s.send_buffer) (shift k)
        ∙ q.used (suc k) (omega arith);
    bare = λ k l h. elim (ℕ_discrete k 9) [
      | yes last ↦
          ap (λ i. get_or (set s.send_buffer.isempty (s.swnd.head % max_message) true) i true)
            (let round : (next_seq s.swnd.head + k) % max_message ≡ s.swnd.head % max_message =
                omega arith in
              round)
          ∙ get_or-set_self s.send_buffer.isempty (s.swnd.head % max_message) true true
              (omega (arith, v.send.flags))
      | no other ↦
          get_or-set_ne s.send_buffer.isempty (s.swnd.head % max_message) _ true true
            (λ e. omega arith)
          ∙ ap (slot_empty s.send_buffer) (shift k)
          ∙ q.bare (suc k) (omega arith) (omega arith)
    ];
    sent = omega (arith, q.sent, v.swnd_in.head_in, v.swnd_in.tail_in);
  },
  omega arith,
  refl,
  ap (cells s.send_buffer.buff s.swnd.head) (
        let filled : s.send_buffer.filled ≡ suc (s.send_buffer.filled - 1) =
          omega (arith, q.sent) in
        filled)
      ∙ ap (λ r. slot s.send_buffer (s.swnd.head % max_message) ∷ r)
          (ap (λ n. cells s.send_buffer.buff n (s.send_buffer.filled - 1))
              (let next : suc s.swnd.head ≡ next_seq s.swnd.head = omega arith in next)
            ∙ sym (
                cells-set s.send_buffer.buff (s.swnd.head % max_message) zero_message
                  (next_seq s.swnd.head) (s.send_buffer.filled - 1)
                  (λ k h e. omega (arith, v.send.capped)))),
)
  where
    shift : (k : ℕ) → (next_seq s.swnd.head + k) % max_message ≡ (s.swnd.head + suc k) % max_message
    shift k = omega arith
