-- ===== src/Ktp/Send/Advance.antt =====
-- The loop that takes new messages into the send window.
use networks_lab_cs39006_spr.Prelude.{
  ℕ, zero, suc, ◌+◌, ◌-◌, ◌%◌, ◌≤◌, ◌<◌, ◌≡◌, ◌≢◌, refl, Bool, true, false, some, ◌==◌, leb, ◌||◌,
  ◌⊎◌, arith, ap, ◌∙◌, subst, if_true, if_false, Bool-cases, inl, inr, not,
}
use native.Mathlib.Decide.{ℕ_discrete}
use networks_lab_cs39006_spr.Ktp.Types.{KtpSocket, max_message, seq_num}
use networks_lab_cs39006_spr.Ktp.Window.{
  next_seq, distance, wndwsize, wndwsize-distance, distance-next_seq,
}
use networks_lab_cs39006_spr.Ktp.Socket.{slot_empty}
use networks_lab_cs39006_spr.Ktp.Sender.{advance_tail}
use networks_lab_cs39006_spr.Ktp.Invariant.Defs.{IsWindow}

-- The socket with another tail of the send window.
abbrev pub with_tail : ℕ → KtpSocket → KtpSocket
with_tail t s = record s { swnd = record (s.swnd) { tail = t } }

-- Where the loop stops: every slot taken in is in use, the window is no larger than the peer
-- advertised (or than it was), and it stops for want of a message or of window.
pub record Advanced (s : KtpSocket) (t : ℕ) : Type 0 where
  pub tail_in : t < seq_num
  pub grows : distance s.swnd.head s.swnd.tail ≤ distance s.swnd.head t
  pub fits : (t ≡ s.swnd.tail) ⊎ (distance s.swnd.head t ≤ s.swnd.size)
  pub full :
      (k : ℕ)
      → distance s.swnd.head s.swnd.tail ≤ k
      → k < distance s.swnd.head t
      → slot_empty s.send_buffer ((s.swnd.head + k) % seq_num % max_message) ≡ false
  pub reason :
      (slot_empty s.send_buffer (t % max_message) ≡ true) ⊎ (s.swnd.size ≤ distance s.swnd.head t)

blocked : KtpSocket → Bool
blocked s =
    slot_empty s.send_buffer (s.swnd.tail % max_message) || leb s.swnd.size (wndwsize s.swnd)

stays : (s : KtpSocket) → IsWindow s.swnd → blocked s ≡ true → Advanced s s.swnd.tail
unfolding blocked
stays s w e = record {
  tail_in = w.tail_in;
  grows = omega arith;
  fits = inl refl;
  full = λ k p q. absurd (omega arith);
  reason = ground (arith, wndwsize-distance s.swnd w.head_in w.tail_in);
}

free_to_go :
    (s : KtpSocket)
    → IsWindow s.swnd
    → blocked s ≡ false
    → (slot_empty s.send_buffer (s.swnd.tail % max_message) ≡ false)
      × (distance s.swnd.head s.swnd.tail < s.swnd.size)
unfolding blocked
free_to_go s w e = ground (arith, wndwsize-distance s.swnd w.head_in w.tail_in)

tail_moved :
    (s : KtpSocket)
    → IsWindow s.swnd
    → blocked s ≡ false
    → distance s.swnd.head (next_seq s.swnd.tail) ≡ distance s.swnd.head s.swnd.tail + 1
tail_moved s w e =
    distance-next_seq s.swnd.head s.swnd.tail w.head_in w.tail_in
      (omega (arith, (free_to_go s w e).1, w.size_in))

goes_on :
    (s : KtpSocket) (t : ℕ)
    → IsWindow s.swnd
    → blocked s ≡ false
    → Advanced (with_tail (next_seq s.swnd.tail) s) t
    → Advanced s t
goes_on s t w e a =
    let (used, room) = free_to_go s w e in
    let more = tail_moved s w e in
    record {
      tail_in = a.tail_in;
      grows = omega (arith, a.grows, more);
      fits = elim (a.fits) [
        | inl same ↦ inr (rw same (omega (arith, more, room)))
        | inr in_size ↦ inr in_size
      ];
      full = λ k p q. elim (ℕ_discrete k (distance s.swnd.head s.swnd.tail)) [
        | yes first ↦
            subst (λ j. slot_empty s.send_buffer (j % max_message) ≡ false)
              (let here : s.swnd.tail ≡ (s.swnd.head + k) % seq_num =
                  omega (arith, w.head_in, w.tail_in) in
                here)
              used
        | no later ↦ a.full k (omega (arith, more)) q
      ];
      reason = a.reason;
    }

flag_kept : (b : Bool) (n : ℕ) → b ≡ b || not (n == n)
flag_kept true n = refl
flag_kept false n = ground arith

flag_set : (b : Bool) (n m : ℕ) → n ≢ m → true ≡ b || not (n == m)
flag_set true n m h = refl
flag_set false n m h = ground arith

grown_ne : (h t u : ℕ) → distance h u < distance h t → t ≢ u
grown_ne h t u more same = omega arith

moved-IsWindow :
    (s : KtpSocket) → IsWindow s.swnd → IsWindow (record (s.swnd) { tail = next_seq s.swnd.tail })
moved-IsWindow s w = record { head_in = w.head_in; tail_in = omega arith; size_in = w.size_in }

-- The loop ends, and only the tail of the window has moved. The flag is set exactly when it was set
-- before or a message was taken in.
pub advance_tail_lem :
    (fuel : ℕ) (needed : Bool) (s : KtpSocket)
    → IsWindow s.swnd
    → s.swnd.size - distance s.swnd.head s.swnd.tail < fuel
    → (t : ℕ) × (advance_tail fuel needed s
        ≡ some (with_tail t s, needed || not (t == s.swnd.tail)))
      × Advanced s t
unfolding advance_tail blocked
advance_tail_lem zero needed s w f = absurd (omega arith)
advance_tail_lem (suc fuel) needed s w f = elim (Bool-cases (blocked s)) [
  | inl e ↦ (
    s.swnd.tail,
    if_true (blocked s) _ _ e ∙ ap (λ b. some (s, b)) (flag_kept needed s.swnd.tail),
    stays s w e,
  )
  | inr e ↦
      let more = tail_moved s w e in
      let (t, r, a) =
        advance_tail_lem fuel true (with_tail (next_seq s.swnd.tail) s) (moved-IsWindow s w) (
          let left : s.swnd.size - distance s.swnd.head (next_seq s.swnd.tail) < fuel =
            omega (arith, more, (free_to_go s w e).1) in
          left) in
      let grows : distance s.swnd.head (next_seq s.swnd.tail) ≤ distance s.swnd.head t = a.grows in
      (
        t,
        if_false (blocked s) _ _ e
            ∙ r
            ∙ ap (λ b. some (with_tail t s, b))
                (flag_set needed t s.swnd.tail
                  (λ same. grown_ne s.swnd.head t s.swnd.tail (omega (arith, grows, more)) same)),
        goes_on s t w e a,
      )
]
