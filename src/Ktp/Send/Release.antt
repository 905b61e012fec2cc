-- ===== src/Ktp/Send/Release.antt =====
-- The loop over acknowledged messages: it ends, takes off exactly those up to the acknowledged
-- number, and what happens where the numbers wrap.
use networks_lab_cs39006_spr.Prelude.{
  ℕ, zero, suc, ◌+◌, ◌-◌, ◌%◌, ◌≤◌, ◌<◌, ◌≡◌, ◌≢◌, refl, true, false, [], none, some, ◌==◌, ==_iff,
  ==-ne, arith, ap₂, sym, ◌∙◌, if_true, if_false, drop,
}
use native.Mathlib.Decide.{ℕ_discrete}
use networks_lab_cs39006_spr.Ktp.Types.{KtpSocket, max_message}
use networks_lab_cs39006_spr.Ktp.Window.{
  next_seq, distance, inwndw, wndwsize, inwndw_iff, wndwsize-distance,
}
use networks_lab_cs39006_spr.Ktp.Socket.{slot_empty}
use networks_lab_cs39006_spr.Ktp.Receiver.{
  running, release_head, release_acked, release_fuel, set_swnd_size, handle_ack,
}
use networks_lab_cs39006_spr.Ktp.Invariant.Defs.{IsSocket}
use networks_lab_cs39006_spr.Ktp.Invariant.Receive.{release_head-IsSocket}
use networks_lab_cs39006_spr.Ktp.Send.Queue.{queue, InStep, first_used, release_head-InStep}

-- What is left when the messages up to `ack` are off the queue.
pub record Released (ack : ℕ) (s s' : KtpSocket) : Type 0 where
  pub in_step : InStep s'
  pub head_at : s'.swnd.head ≡ ack + 1
  pub tail_kept : s'.swnd.tail ≡ s.swnd.tail
  pub rest : queue s' ≡ drop (ack + 1 - s.swnd.head) (queue s)

-- With an acknowledged number in the window, and no wrap before it, the loop ends.
pub release_acked_lem :
    (fuel ack : ℕ) (s : KtpSocket)
    → IsSocket s
    → InStep s
    → s.swnd.head ≤ ack
    → ack < 255
    → ack - s.swnd.head < distance s.swnd.head s.swnd.tail
    → ack - s.swnd.head < fuel
    → (s' : KtpSocket) × (release_acked fuel ack s ≡ some s') × Released ack s s'
unfolding release_acked
release_acked_lem zero ack s v q from low inside f = absurd (omega arith)
release_acked_lem (suc fuel) ack s v q from low inside f =
    let (q', head', tail', front) = release_head-InStep s v q (omega arith) (omega arith) in
    elim (ℕ_discrete ack s.swnd.head) [
      | yes last ↦ (
        release_head s,
        if_true (next_seq ack == (release_head s).swnd.head) _ _
            ((==_iff _ _).1 (omega (arith, head'))),
        record {
          in_step = q';
          head_at = omega (arith, head');
          tail_kept = tail';
          rest =
              sym (ap₂ drop (let one : ack + 1 - s.swnd.head ≡ suc 0 = omega arith in one) front);
        },
      )
      | no more ↦
          let (s', r, done) =
            release_acked_lem fuel ack (release_head s) (release_head-IsSocket v) q' (omega arith)
              low (omega (arith, v.swnd_in.tail_in)) (omega arith) in
          (
            s',
            if_false (next_seq ack == (release_head s).swnd.head) _ _
                  (==-ne _ _ (λ e. omega (arith, head')))
                ∙ r,
            record {
              in_step = done.in_step;
              head_at = done.head_at;
              tail_kept = done.tail_kept ∙ tail';
              rest =
                  done.rest
                  ∙ sym (
                      ap₂ drop
                        (let more : ack + 1 - s.swnd.head
                              ≡ suc (ack + 1 - (release_head s).swnd.head) =
                            omega (arith, head') in
                          more)
                        front);
            },
          )
    ]

-- Where the slot of the head is empty and the head is not the number after the acknowledged one,
-- the loop over acknowledged messages does not end within any fuel.
pub release_acked_hangs :
    (fuel ack : ℕ) (s : KtpSocket)
    → slot_empty s.send_buffer (s.swnd.head % max_message) ≡ true
    → next_seq ack ≢ s.swnd.head
    → release_acked fuel ack s ≡ none
unfolding release_acked release_head
release_acked_hangs zero ack s bare other = refl
release_acked_hangs (suc fuel) ack s bare other =
    rw (bare, ==-ne (next_seq ack) s.swnd.head other) (release_acked_hangs fuel ack s bare other)

release_head_used :
    (s : KtpSocket)
    → slot_empty s.send_buffer (s.swnd.head % max_message) ≡ false
    → ((release_head s).send_buffer.iter ≡ s.send_buffer.iter)
      × ((release_head s).send_buffer.filled ≡ s.send_buffer.filled - 1)
      × ((release_head s).swnd.head ≡ next_seq s.swnd.head)
unfolding release_head
release_head_used s e = rw e (refl, refl, refl)

-- When the head of the send window goes from 255 round to 0 with a message waiting, the write
-- index is no longer behind the messages of the queue: the buffer leaves the arrangement that all
-- other steps keep.
pub release_head-wrap :
    (s : KtpSocket)
    → InStep s
    → 0 < s.send_buffer.filled
    → s.swnd.head ≡ 255
    → ¬ InStep (release_head s)
release_head-wrap s q busy at q' =
    let (iter', filled', head') = release_head_used s (first_used s q busy) in
    omega (arith, q.placed, q'.placed)

pub handle_ack_released :
    (ack wndw : ℕ) (s s' : KtpSocket)
    → (wndwsize s.swnd == 0) ≡ false
    → inwndw ack s.swnd.head s.swnd.tail ≡ true
    → release_acked release_fuel ack s ≡ some s'
    → handle_ack ack wndw s ≡ running (set_swnd_size wndw s', [])
unfolding handle_ack
handle_ack_released ack wndw s s' open_window fits r = simp (open_window, fits, r)

Released-set_swnd_size :
    (ack wndw : ℕ) (s s' : KtpSocket) → Released ack s s' → Released ack s (set_swnd_size wndw s')
unfolding set_swnd_size
Released-set_swnd_size ack wndw s s' d = record {
  in_step = record {
    placed = d.in_step.placed;
    used = d.in_step.used;
    bare = d.in_step.bare;
    sent = d.in_step.sent;
  };
  head_at = d.head_at;
  tail_kept = d.tail_kept;
  rest = d.rest;
}

-- On a well-formed socket where the used slots of the send buffer are exactly those of the numbers
-- from the window's head on, as many as it counts and at least those in the window, and the write
-- index is just behind them, an ACK below 255 for a number in the window and not below its head
-- takes exactly the messages up to that number off the send queue, moves the head behind it,
-- leaves the tail and this arrangement as they are, takes over the advertised window, and the
-- thread comes back.
pub handle_ack_lem :
    (ack wndw : ℕ) (s : KtpSocket)
    → IsSocket s
    → InStep s
    → s.swnd.head ≤ ack
    → ack < 255
    → ack - s.swnd.head < distance s.swnd.head s.swnd.tail
    → (s' : KtpSocket) × (handle_ack ack wndw s ≡ running (s', []))
      × (s'.swnd.size ≡ wndw)
      × Released ack s s'
unfolding set_swnd_size
handle_ack_lem ack wndw s v q from low inside =
    let (s', r, d) =
      release_acked_lem release_fuel ack s v q from low inside
        (omega (arith, q.sent, v.send.capped)) in
    (
      set_swnd_size wndw s',
      handle_ack_released ack wndw s s' (==-ne _ _ (λ e. omega (arith, size)))
          ((inwndw_iff ack s.swnd (omega arith) v.swnd_in.head_in v.swnd_in.tail_in).1
            (omega (arith, size)))
          r,
      refl,
      Released-set_swnd_size ack wndw s s' d,
    )
  where
    size : wndwsize s.swnd ≡ distance s.swnd.head s.swnd.tail
    size = wndwsize-distance s.swnd v.swnd_in.head_in v.swnd_in.tail_in
