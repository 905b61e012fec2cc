-- ===== src/Ktp/Send/Round.antt =====
-- A round of `SThread` over one socket: it ends, stays inside the advertised window, and sends again
-- what has not been acknowledged in time.
use networks_lab_cs39006_spr.Prelude.{
  ℕ, ◌+◌, ◌≤◌, ◌<◌, ◌≡◌, ◌≢◌, refl, subst, Bool, true, false, not, ◌||◌, Option, none, some, ◌==◌,
  ==-ne, ==-self, leb, arith, ap, ◌∙◌, if_true, if_false, Bool-cases, if_elim, inl, inr, ◌⊎◌, List,
  [],
}
use networks_lab_cs39006_spr.Ktp.Types.{KtpSocket, Action, seq_num, retransmit_after}
use networks_lab_cs39006_spr.Ktp.Window.{prev_seq, inwndw, distance}
use networks_lab_cs39006_spr.Ktp.Receiver.{running}
use networks_lab_cs39006_spr.Ktp.Sender.{
  Timeout, Timeouts, merged_tail, check_entries, check_retransmission, after_advance, advance_tail,
  seq_fuel, starts_first, first_tail, finish_transmit, schedule, sthread_socket,
}
use networks_lab_cs39006_spr.Ktp.Invariant.Defs.{IsSocket}
use networks_lab_cs39006_spr.Ktp.Send.Advance.{with_tail, Advanced, advance_tail_lem}
use networks_lab_cs39006_spr.Ktp.Send.Transmit.{Segment, transmit_segment_lem}

-- The recorded tails are sequence numbers.
abbrev pub TailIn : Option Timeout → Type 0
TailIn none = Unit
TailIn (some t) = t.tail < seq_num

pub record IsTimeouts (times : Timeouts) : Type 0 where
  pub first_in : TailIn times.first
  pub second_in : TailIn times.second

-- What a transmission sends and records: the window from its head as the first entry, where there is
-- none yet or it was renewed just now, and else what is behind the first entry as the second.
abbrev pub Transmitted :
    (now : ℕ) → (times : Timeouts) → KtpSocket → (times' : Timeouts) → List Action → Type 0
Transmitted now times s times' actions =
    ((starts_first now times.first ≡ true)
      × (times' ≡ record {
        first = some (record { time = now; head = s.swnd.head; tail = s.swnd.tail });
        second = times.second;
      })
      × Segment s s.swnd.head (distance s.swnd.head s.swnd.tail) actions)
    ⊎ ((e : Timeout) × (times.first ≡ some e)
        × (e.time ≢ now)
        × (times' ≡ record {
          first = some e;
          second = some (record { time = now; head = e.tail; tail = s.swnd.tail });
        })
        × Segment s e.tail (distance e.tail s.swnd.tail) actions)

-- It sends and records just that.
record Scheduled (now : ℕ) (times : Timeouts) (s : KtpSocket) (times' : Timeouts)
    (actions : List Action) : Type 0 where
  sound : IsTimeouts times'
  transmitted : Transmitted now times s times' actions

first_tail_in : (o : Option Timeout) → TailIn o → first_tail o < seq_num
unfolding first_tail
first_tail_in none h = omega arith
first_tail_in (some t) h = h

schedule_first :
    (now : ℕ) (times : Timeouts) (s : KtpSocket)
    → IsSocket s
    → starts_first now times.first ≡ true
    → (actions : List Action) × (schedule now times s
        ≡ running (
          s,
          record times {
            first = some (record { time = now; head = s.swnd.head; tail = s.swnd.tail });
          },
          actions,
        ))
      × Segment s s.swnd.head (distance s.swnd.head s.swnd.tail) actions
unfolding schedule
schedule_first now times s v e =
    let (actions, r, g) =
      transmit_segment_lem seq_fuel s s.swnd.head s.swnd.tail v.swnd_in.head_in v.swnd_in.tail_in
        (omega arith) in
    (actions, if_true (starts_first now times.first) _ _ e ∙ ap (finish_transmit s _) r, g)

later_entry :
    (now : ℕ) (first : Option Timeout)
    → starts_first now first ≡ false
    → (e : Timeout) × (first ≡ some e) × (e.time ≢ now)
unfolding starts_first
later_entry now none e = cc
later_entry now (some t) e = (t, refl, ground (arith, e))

schedule_later :
    (now : ℕ) (e : Timeout) (second : Option Timeout) (s : KtpSocket)
    → IsSocket s
    → e.tail < seq_num
    → e.time ≢ now
    → (actions : List Action) × (schedule now (record { first = some e; second = second }) s
        ≡ running (
          s,
          record {
            first = some e;
            second = some (record { time = now; head = e.tail; tail = s.swnd.tail });
          },
          actions,
        ))
      × Segment s e.tail (distance e.tail s.swnd.tail) actions
unfolding schedule starts_first first_tail
schedule_later now e second s v h other =
    let (actions, r, g) =
      transmit_segment_lem seq_fuel s e.tail s.swnd.tail h v.swnd_in.tail_in (omega arith) in
    (actions, if_false (e.time == now) _ _ (==-ne e.time now other) ∙ ap (finish_transmit s _) r, g)

schedule_lem :
    (now : ℕ) (times : Timeouts) (s : KtpSocket)
    → IsSocket s
    → IsTimeouts times
    → (times' : Timeouts) × (actions : List Action) × (schedule now times s
        ≡ running (s, times', actions))
      × Scheduled now times s times' actions
schedule_lem now times s v w = elim (Bool-cases (starts_first now times.first)) [
  | inl e ↦
      let (actions, r, g) = schedule_first now times s v e in
      (
        _,
        actions,
        r,
        record {
          sound = record { first_in = v.swnd_in.tail_in; second_in = w.second_in };
          transmitted = inl (e, refl, g);
        },
      )
  | inr e ↦
      let (t, same, other) = later_entry now times.first e in
      let known : TailIn (some t) = subst TailIn same w.first_in in
      let (actions, r, g) = schedule_later now t times.second s v known other in
      (
        _,
        actions,
        ap (λ o. schedule now (record { first = o; second = times.second }) s) same ∙ r,
        record {
          sound = record { first_in = known; second_in = v.swnd_in.tail_in };
          transmitted = inr (t, same, other, refl, g);
        },
      )
]

merged_tail_in :
    (t : Timeout) (o : Option Timeout) → TailIn (some t) → TailIn o → merged_tail t o < seq_num
unfolding merged_tail
merged_tail_in t none h k = h
merged_tail_in t (some u) h k = k

check_entries-IsTimeouts :
    (now : ℕ) (first second : Option Timeout) (s : KtpSocket)
    → TailIn first
    → TailIn second
    → IsTimeouts (check_entries now first second s).0
unfolding check_entries
check_entries-IsTimeouts now none second s h k = record { first_in = tt; second_in = k }
check_entries-IsTimeouts now (some t) second s h k =
    if_elim (λ (r : Timeouts × Bool). IsTimeouts r.0)
      (inwndw (prev_seq t.tail) s.swnd.head s.swnd.tail) _ _
      (if_elim (λ (r : Timeouts × Bool). IsTimeouts r.0) (leb (t.time + retransmit_after) now) _ _
        (record { first_in = merged_tail_in t second h k; second_in = tt })
        (record { first_in = h; second_in = k }))
      (record { first_in = k; second_in = tt })

check_retransmission-IsTimeouts :
    (now : ℕ) (times : Timeouts) (s : KtpSocket)
    → IsTimeouts times
    → IsTimeouts (check_retransmission now times s).0
unfolding check_retransmission
check_retransmission-IsTimeouts now times s w =
    check_entries-IsTimeouts now times.first times.second s w.first_in w.second_in

-- What a round leaves that begins with the entries `times` and the flag `needed`, as the check for a
-- timeout gives them: only the tail of the window has moved, as far as messages and the advertised
-- window allow. Without the flag and a new message nothing is sent or recorded.
pub record Sent (now : ℕ) (times : Timeouts) (needed : Bool) (s s' : KtpSocket) (times' : Timeouts)
    (actions : List Action) : Type 0 where
  pub tail_at : ℕ
  pub moved : s' ≡ with_tail tail_at s
  pub advanced : Advanced s tail_at
  pub sound : IsTimeouts times'
  pub sending :
      ((needed ≡ false) × (tail_at ≡ s.swnd.tail) × (times' ≡ times) × (actions ≡ []))
      ⊎ (((needed ≡ true) ⊎ (tail_at ≢ s.swnd.tail)) × Transmitted now times s' times' actions)

with_tail-IsSocket : (t : ℕ) {s : KtpSocket} → t < seq_num → IsSocket s → IsSocket (with_tail t s)
with_tail-IsSocket t {s} h v = record {
  send = v.send;
  recv = v.recv;
  exact = v.exact;
  swnd_in = record { head_in = v.swnd_in.head_in; tail_in = h; size_in = v.swnd_in.size_in };
  rwnd_in = v.rwnd_in;
  acked_in = v.acked_in;
}

quiet : (b : Bool) (t u : ℕ) → (b || not (t == u)) ≡ false → (b ≡ false) × (t ≡ u)
quiet true t u e = cc
quiet false t u e = (refl, ground arith)

busy : (b : Bool) (t u : ℕ) → (b || not (t == u)) ≡ true → (b ≡ true) ⊎ (t ≢ u)
busy true t u e = inl refl
busy false t u e = inr (λ q. ground (arith, e, q))

finish_round :
    (now : ℕ) (times : Timeouts) (needed : Bool) (s : KtpSocket)
    → IsSocket s
    → IsTimeouts times
    → (s' : KtpSocket) × (times' : Timeouts) × (actions : List Action) × (after_advance now times
          (advance_tail seq_fuel needed s)
        ≡ running (s', times', actions))
      × Sent now times needed s s' times' actions
unfolding after_advance
finish_round now times needed s v w =
    let (t, r, a) =
      advance_tail_lem seq_fuel needed s v.swnd_in (omega (arith, v.swnd_in.size_in)) in
    elim (Bool-cases (needed || not (t == s.swnd.tail))) [
      | inl e ↦
          let (times', actions, q, sched) =
            schedule_lem now times (with_tail t s) (with_tail-IsSocket t a.tail_in v) w in
          (
            with_tail t s,
            times',
            actions,
            ap (after_advance now times) r ∙ if_true (needed || not (t == s.swnd.tail)) _ _ e ∙ q,
            record {
              tail_at = t;
              moved = refl;
              advanced = a;
              sound = sched.sound;
              sending = inr (busy needed t s.swnd.tail e, sched.transmitted);
            },
          )
      | inr e ↦ (
        with_tail t s,
        times,
        [],
        ap (after_advance now times) r ∙ if_false (needed || not (t == s.swnd.tail)) _ _ e,
        record {
          tail_at = t;
          moved = refl;
          advanced = a;
          sound = w;
          sending =
              inl ((quiet needed t s.swnd.tail e).0, (quiet needed t s.swnd.tail e).1, refl, refl);
        },
      )
    ]

-- Every round of the sending thread over a well-formed socket in use, with recorded tails below
-- 256, comes back; only the window's tail moves, over slots in use and within the advertised
-- window, until a slot is empty or the window full. Where the check for a timeout, which comes
-- first, asks for no transmission and no message is taken in, nothing is sent and the entries stay
-- as the check leaves them. Otherwise one packet is sent for each number of a segment, and the
-- segment is recorded at the present time: the whole window from its head, as the first entry,
-- where the check leaves no first entry or one of the present time, and else, as the second, the
-- numbers from the first entry's tail up to the window's, which are none where these are the same.
pub sthread_socket_lem :
    (now : ℕ) (times : Timeouts) (s : KtpSocket)
    → IsSocket s
    → IsTimeouts times
    → s.in_use ≡ true
    → (s' : KtpSocket) × (times' : Timeouts) × (actions : List Action) × (sthread_socket now times s
        ≡ running (s', times', actions))
      × Sent now
          (check_retransmission now times s).0
          (check_retransmission now times s).1
          s
          s'
          times'
          actions
unfolding sthread_socket
sthread_socket_lem now times s v w u =
    let (times₁, needed) = check_retransmission now times s in
    let (s', times', actions, r, sent) =
      finish_round now times₁ needed s v (check_retransmission-IsTimeouts now times s w) in
    (
      s',
      times',
      actions,
      if_true s.in_use _ _ u ∙ r,
      record {
        tail_at = sent.tail_at;
        moved = sent.moved;
        advanced = sent.advanced;
        sound = sent.sound;
        sending = sent.sending;
      },
    )

expired_entry :
    (now : ℕ) (e : Timeout) (second : Option Timeout) (s : KtpSocket)
    → inwndw (prev_seq e.tail) s.swnd.head s.swnd.tail ≡ true
    → e.time + retransmit_after ≤ now
    → check_entries now (some e) second s ≡ (
      record {
        first = some (record { time = now; head = e.head; tail = merged_tail e second });
        second = none;
      },
      true,
    )
unfolding check_entries
expired_entry now e second s unacked late =
    if_true (inwndw (prev_seq e.tail) s.swnd.head s.swnd.tail) _ _ unacked
    ∙ if_true (leb (e.time + retransmit_after) now) _ _ (ground arith)

-- Once ten seconds have passed since the first recorded transmission and its last message is still
-- in the window, the round sends the whole window again from its head, new messages included, and
-- records it as the only entry.
pub sthread_socket-retransmits :
    (now : ℕ) (e : Timeout) (second : Option Timeout) (s : KtpSocket)
    → IsSocket s
    → s.in_use ≡ true
    → inwndw (prev_seq e.tail) s.swnd.head s.swnd.tail ≡ true
    → e.time + retransmit_after ≤ now
    → (t : ℕ) × (actions : List Action) × (sthread_socket now
          (record { first = some e; second = second })
          s
        ≡ running (
          with_tail t s,
          record {
            first = some (record { time = now; head = s.swnd.head; tail = t });
            second = none;
          },
          actions,
        ))
      × Advanced s t
      × Segment (with_tail t s) s.swnd.head (distance s.swnd.head t) actions
unfolding sthread_socket after_advance check_retransmission starts_first
sthread_socket-retransmits now e second s v u unacked late =
    let (t, r, a) = advance_tail_lem seq_fuel true s v.swnd_in (omega (arith, v.swnd_in.size_in)) in
    let renewed : Timeouts = record {
      first = some (record { time = now; head = e.head; tail = merged_tail e second });
      second = none;
    } in
    let (actions, q, g) =
      schedule_first now renewed (with_tail t s) (with_tail-IsSocket t a.tail_in v) (==-self now) in
    (
      t,
      actions,
      if_true s.in_use _ _ u
          ∙ ap (λ c. after_advance now c.0 (advance_tail seq_fuel c.1 s))
              (expired_entry now e second s unacked late)
          ∙ ap (after_advance now renewed) r
          ∙ q,
      a,
      g,
    )
