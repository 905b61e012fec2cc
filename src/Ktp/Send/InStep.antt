-- ===== src/Ktp/Send/InStep.antt =====
-- The queue holds together from the claim of a socket on: the fresh socket, and the loop that takes
-- messages into the window.
use networks_lab_cs39006_spr.Prelude.{
  ℕ, zero, suc, ◌+◌, ◌%◌, ◌≤◌, ◌<◌, ◌≡◌, refl, Bool, true, get_or, replicate, some, inl, inr, arith,
  ap, sym, ◌∙◌, true≢false,
}
use native.Mathlib.Decide.{dec_le}
use networks_lab_cs39006_spr.Ktp.Types.{KtpSocket, max_message, seq_num}
use networks_lab_cs39006_spr.Ktp.Window.{distance}
use networks_lab_cs39006_spr.Ktp.Socket.{slot_empty, claim_socket}
use networks_lab_cs39006_spr.Ktp.Sender.{advance_tail, seq_fuel}
use networks_lab_cs39006_spr.Ktp.Invariant.Defs.{IsSocket}
use networks_lab_cs39006_spr.Ktp.Send.Queue.{queue, InStep}
use networks_lab_cs39006_spr.Ktp.Send.Advance.{with_tail, Advanced, advance_tail_lem}

all_empty : (n i : ℕ) → get_or (replicate n true) i true ≡ true
all_empty zero i = refl
all_empty (suc n) zero = refl
all_empty (suc n) (suc i) = all_empty n i

pub claim_socket-InStep : (pid : ℕ) (s : KtpSocket) → InStep (claim_socket pid s).0
unfolding claim_socket
claim_socket-InStep pid s = record {
  placed = omega arith;
  used = λ k h. absurd (omega arith);
  bare = λ k h l. all_empty max_message ((0 + k) % max_message);
  sent = omega arith;
}

-- No more numbers are in the window than messages in the queue.
window_in_queue :
    (s : KtpSocket) (t : ℕ)
    → IsSocket s
    → InStep s
    → s.swnd.head < 246
    → s.swnd.size ≤ max_message
    → Advanced s t
    → distance s.swnd.head t ≤ s.send_buffer.filled
window_in_queue s t v q low small a = elim (dec_le (distance s.swnd.head t) s.send_buffer.filled) [
  | yes fits ↦ fits
  | no over ↦ elim (a.fits) [
    | inl same ↦ rw same q.sent
    | inr sized ↦ absurd (
        true≢false (
          sym (q.bare s.send_buffer.filled (omega arith) (omega arith))
          ∙ ap (λ i. slot_empty s.send_buffer (i % max_message))
              (let low_sum : s.swnd.head + s.send_buffer.filled
                    ≡ (s.swnd.head + s.send_buffer.filled) % seq_num =
                  omega arith in
                low_sum)
          ∙ a.full s.send_buffer.filled q.sent (omega arith)))
  ]
]

-- With an advertised window of at most ten and the head below 246, the loop that takes messages
-- into the window ends, leaves the queue as it is, and keeps the window within the queue.
pub advance_tail-InStep :
    (needed : Bool) (s : KtpSocket)
    → IsSocket s
    → InStep s
    → s.swnd.head < 246
    → s.swnd.size ≤ max_message
    → (t : ℕ) × (needed' : Bool) × (advance_tail seq_fuel needed s ≡ some (with_tail t s, needed'))
      × InStep (with_tail t s)
      × (queue (with_tail t s) ≡ queue s)
advance_tail-InStep needed s v q low small =
    let (t, r, a) =
      advance_tail_lem seq_fuel needed s v.swnd_in (omega (arith, v.swnd_in.size_in)) in
    (
      t,
      _,
      r,
      record {
        placed = q.placed;
        used = q.used;
        bare = q.bare;
        sent = window_in_queue s t v q low small a;
      },
      refl,
    )
