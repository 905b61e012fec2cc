-- ===== src/Ktp/Invariant/Send.antt =====
-- The sending thread, the garbage collector and the main loop keep every socket well formed.
use networks_lab_cs39006_spr.Prelude.{
  ℕ, zero, suc, ◌%◌, ◌≡◌, refl, Bool, true, false, ◌||◌, List, Option, none, some, Bool-cases,
  if_elim, inl, inr, leb, subst, some-injective, arith,
}
use networks_lab_cs39006_spr.Ktp.Types.{KtpSocket, Action, max_message}
use networks_lab_cs39006_spr.Ktp.Window.{next_seq, wndwsize}
use networks_lab_cs39006_spr.Ktp.Socket.{slot_empty}
use networks_lab_cs39006_spr.Ktp.Receiver.{Outcome}
use networks_lab_cs39006_spr.Ktp.Sender.{
  Timeouts, advance_tail, seq_fuel, schedule, starts_first, finish_transmit, sthread_socket,
  after_advance, check_retransmission,
}
use networks_lab_cs39006_spr.Ktp.Init.{gc_socket, Supply, main_socket, bind_if_required}
use networks_lab_cs39006_spr.Ktp.Invariant.Defs.{IsSocket, Keeps, Sound}
use networks_lab_cs39006_spr.Ktp.Invariant.Calls.{sockreset-IsSocket}

-- Moving the tail of the send window touches nothing else.
advanced-IsSocket :
    {s : KtpSocket}
    → IsSocket s
    → IsSocket (record s { swnd = record (s.swnd) { tail = next_seq s.swnd.tail } })
advanced-IsSocket {s} v = record {
  send = v.send;
  recv = v.recv;
  exact = v.exact;
  swnd_in = record {
    head_in = v.swnd_in.head_in;
    tail_in = omega arith;
    size_in = v.swnd_in.size_in;
  };
  rwnd_in = v.rwnd_in;
  acked_in = v.acked_in;
}

pub advance_tail-IsSocket :
    (fuel : ℕ) (needed : Bool) {s : KtpSocket} {r : KtpSocket × Bool}
    → IsSocket s
    → advance_tail fuel needed s ≡ some r
    → IsSocket r.0
unfolding advance_tail
advance_tail-IsSocket zero needed v e = cc
advance_tail-IsSocket (suc fuel) needed {s} v e =
    elim (Bool-cases
      (slot_empty s.send_buffer (s.swnd.tail % max_message) || leb s.swnd.size (wndwsize s.swnd))) [
        | inl b ↦ subst (λ r. IsSocket r.0) (some-injective _ _ (rw b at e)) v
        | inr b ↦ advance_tail-IsSocket fuel true (advanced-IsSocket v) (rw b at e)
      ]

abbrev SentSound : Outcome (KtpSocket × Timeouts × List Action) → Type 0
SentSound = Keeps (λ r. IsSocket r.0)

finish_transmit-Sound :
    (times : Timeouts) (sent : Option (List Action)) {s : KtpSocket}
    → IsSocket s
    → SentSound (finish_transmit s times sent)
unfolding finish_transmit
finish_transmit-Sound times none v = tt
finish_transmit-Sound times (some actions) v = v

schedule-IsSocket :
    (now : ℕ) (times : Timeouts) {s : KtpSocket} → IsSocket s → SentSound (schedule now times s)
unfolding schedule
schedule-IsSocket now times {s} v = elim (Bool-cases (starts_first now times.first)) [
  | inl e ↦ rw e (finish_transmit-Sound _ _ v)
  | inr e ↦ rw e (finish_transmit-Sound _ _ v)
]

after_advance-Sound :
    (now : ℕ) (times : Timeouts) (o : Option (KtpSocket × Bool))
    → ((r : KtpSocket × Bool) → o ≡ some r → IsSocket r.0)
    → SentSound (after_advance now times o)
unfolding after_advance
after_advance-Sound now times none h = tt
after_advance-Sound now times (some (s', true)) h = schedule-IsSocket now times (h (s', true) refl)
after_advance-Sound now times (some (s', false)) h = h (s', false) refl

pub sthread_socket-IsSocket :
    (now : ℕ) (times : Timeouts) {s : KtpSocket}
    → IsSocket s
    → SentSound (sthread_socket now times s)
unfolding sthread_socket
sthread_socket-IsSocket now times {s} v =
    let (times', needed) = check_retransmission now times s in
    if_elim SentSound s.in_use _ _
      (after_advance-Sound now times' (advance_tail seq_fuel needed s)
        (λ r q. advance_tail-IsSocket seq_fuel needed v q))
      v

pub gc_socket-IsSocket :
    (alive : ℕ → Bool) {s : KtpSocket} → IsSocket s → IsSocket (gc_socket alive s)
unfolding gc_socket
gc_socket-IsSocket alive v = ground arith

pub main_socket-IsSocket :
    (supply : Supply) {s : KtpSocket} → IsSocket s → Sound (main_socket supply s)
unfolding main_socket bind_if_required
main_socket-IsSocket supply {s} v = ground (arith, sockreset-IsSocket s)
