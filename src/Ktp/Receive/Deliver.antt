-- ===== src/Ktp/Receive/Deliver.antt =====
-- What the receiving thread does with a DATA packet: the cumulative ACK and the window it opens.
use networks_lab_cs39006_spr.Prelude.{
  ℕ, zero, suc, ◌+◌, ◌%◌, ◌≤◌, ◌<◌, ◌≡◌, refl, true, false, not, ◌&&◌, List, [], ◌∷◌, some, ◌⊎◌,
  inl, inr, Bool-cases, ◌==◌, arith, subst, set, get_or, true≢false, sym, ap, ◌∙◌, if_same, ==-self,
  get_or-set_self,
}
use native.Mathlib.Decide.{ℕ_discrete}
use networks_lab_cs39006_spr.Ktp.Types.{
  IpPort, KtpSocket, Window, Buffer, Action, sendto, max_message, seq_num,
}
use networks_lab_cs39006_spr.Ktp.Window.{
  inwndw, wndwsize, next_seq, prev_seq, distance, inwndw_iff, wndwsize-distance, distance-next_seq,
}
use networks_lab_cs39006_spr.Ktp.Packet.{create_ack_packet}
use networks_lab_cs39006_spr.Ktp.Socket.{slot_empty}
use networks_lab_cs39006_spr.Ktp.Receiver.{
  running, scan_ack, scan_fuel, store_data, acknowledge, accept_data, handle_data, send_ack,
}
use networks_lab_cs39006_spr.Ktp.Invariant.Defs.{IsSocket}
use networks_lab_cs39006_spr.Ktp.Invariant.Receive.{nospace-IsSocket}

-- Where the scan from `ack` stops: no slot on the way is empty, and it stops at an empty slot or
-- at the end of the window.
pub record Scanned (w : Window) (b : Buffer) (ack stop : ℕ) : Type 0 where
  pub stop_in : stop < seq_num
  pub after : distance w.head ack ≤ distance w.head stop
  pub within : distance w.head stop ≤ distance w.head w.tail
  pub full :
      (k : ℕ)
      → distance w.head ack ≤ k
      → k < distance w.head stop
      → slot_empty b ((w.head + k) % seq_num % max_message) ≡ false
  pub reason : (stop ≡ w.tail) ⊎ (slot_empty b (stop % max_message) ≡ true)

stop_here :
    (w : Window) (b : Buffer) (ack : ℕ)
    → w.head < seq_num
    → w.tail < seq_num
    → ack < seq_num
    → distance w.head ack ≤ distance w.head w.tail
    → (inwndw ack w.head w.tail && not (slot_empty b (ack % max_message))) ≡ false
    → Scanned w b ack ack
stop_here w b ack hh ht ha h e = record {
  stop_in = ha;
  after = omega arith;
  within = h;
  full = λ k p q. absurd (omega arith);
  reason = ground (arith, inwndw_iff ack w ha hh ht, wndwsize-distance w hh ht);
}

step_on :
    (w : Window) (b : Buffer) (ack stop : ℕ)
    → w.head < seq_num
    → w.tail < seq_num
    → ack < seq_num
    → distance w.head ack < distance w.head w.tail
    → slot_empty b (ack % max_message) ≡ false
    → Scanned w b (next_seq ack) stop
    → Scanned w b ack stop
step_on w b ack stop hh ht ha h e v = record {
  stop_in = v.stop_in;
  after = omega (arith, v.after, distance-next_seq w.head ack hh ha);
  within = v.within;
  full = λ k p q. elim (ℕ_discrete k (distance w.head ack)) [
    | yes same ↦
        subst (λ j. slot_empty b (j % max_message) ≡ false)
          (let here : ack ≡ (w.head + k) % seq_num = omega arith in here) e
    | no other ↦ v.full k (omega (arith, distance-next_seq w.head ack hh ha)) q
  ];
  reason = v.reason;
}

test_holds :
    (ack : ℕ) (w : Window) (b : Buffer)
    → w.head < seq_num
    → w.tail < seq_num
    → ack < seq_num
    → (inwndw ack w.head w.tail && not (slot_empty b (ack % max_message))) ≡ true
    → (distance w.head ack < distance w.head w.tail) × (slot_empty b (ack % max_message) ≡ false)
test_holds ack w b hh ht ha e = ground (arith, inwndw_iff ack w ha hh ht, wndwsize-distance w hh ht)

-- The scan ends, with one round of fuel for each number that is left in the window.
pub scan_ack_lem :
    (fuel ack : ℕ) (w : Window) (b : Buffer)
    → w.head < seq_num
    → w.tail < seq_num
    → ack < seq_num
    → distance w.head ack ≤ distance w.head w.tail
    → distance w.head w.tail < fuel + distance w.head ack
    → (stop : ℕ) × (scan_ack fuel ack w b ≡ some stop) × Scanned w b ack stop
unfolding scan_ack
scan_ack_lem zero ack w b hh ht ha h f = absurd (omega arith)
scan_ack_lem (suc fuel) ack w b hh ht ha h f =
    elim (Bool-cases (inwndw ack w.head w.tail && not (slot_empty b (ack % max_message)))) [
      | inl e ↦
          let both = test_holds ack w b hh ht ha e in
          let (stop, r, v) =
            scan_ack_lem fuel (next_seq ack) w b hh ht (omega arith)
              (omega (arith, both, distance-next_seq w.head ack hh ha))
              (omega (arith, both, distance-next_seq w.head ack hh ha)) in
          (stop, rw e r, step_on w b ack stop hh ht ha both.0 both.1 v)
      | inr e ↦ (ack, rw e, stop_here w b ack hh ht ha h e)
    ]

-- The ACK packet for the numbers up to `ack`, with the free window.
abbrev pub ack_packet : ℕ → ℕ → ℕ → List ℕ
ack_packet seq ack wndw = seq % 256 ∷ b'1' ∷ ack % 256 ∷ wndw % 256 ∷ []

pub send_ack_lem :
    (s : KtpSocket) (addr : IpPort) (seq ack wndw : ℕ)
    → send_ack s.sockfd addr seq ack wndw ≡ sendto s.sockfd addr (ack_packet seq ack wndw) ∷ []
unfolding send_ack create_ack_packet
send_ack_lem s addr seq ack wndw = refl

-- What the packet that was expected does: the message lies in its slot, the window's head goes to
-- where the scan of the stored messages stops, at least one further, and one ACK for the number
-- before goes to the sender, with the size of the window that is left.
pub record Delivered (m : List ℕ) (sender : IpPort) (s s' : KtpSocket) (actions : List Action)
    : Type 0 where
  pub buffer : s'.recv_buffer ≡ store_data s.rwnd.head m s.recv_buffer
  pub scanned : Scanned s.rwnd s'.recv_buffer s.rwnd.head s'.rwnd.head
  pub moved : 0 < distance s.rwnd.head s'.rwnd.head
  pub tail_kept : s'.rwnd.tail ≡ s.rwnd.tail
  pub acked : s'.last_acked ≡ prev_seq s'.rwnd.head
  pub replied :
      actions
      ≡ sendto s.sockfd sender (ack_packet 0 s'.last_acked (distance s'.rwnd.head s.rwnd.tail)) ∷ []
  pub closed : s'.nospace ≡ (distance s'.rwnd.head s.rwnd.tail == 0)

next-prev_seq : (a : ℕ) → a < seq_num → next_seq (prev_seq a) ≡ a
next-prev_seq a h = omega arith

deliver :
    (m : List ℕ) (sender : IpPort) (s : KtpSocket) (stop : ℕ)
    → IsSocket s
    → s.nospace ≡ false
    → Scanned s.rwnd (store_data s.rwnd.head m s.recv_buffer) s.rwnd.head stop
    → 0 < distance s.rwnd.head stop
    → let (s', actions) =
        acknowledge sender stop
          (record s { recv_buffer = store_data s.rwnd.head m s.recv_buffer }) in
      Delivered m sender s s' actions
unfolding acknowledge
deliver m sender s stop v quiet scanned moved = record {
  buffer = refl;
  scanned =
      subst (Scanned s.rwnd (store_data s.rwnd.head m s.recv_buffer) s.rwnd.head) (sym same)
        scanned;
  moved = rw same moved;
  tail_kept = refl;
  acked = ap prev_seq (sym same);
  replied = send_ack_lem s sender 0 (prev_seq stop) _ ∙ ap reply left;
  closed = rw (quiet, left) (if_same _);
}
  where
    same : next_seq (prev_seq stop) ≡ stop
    same = next-prev_seq stop scanned.stop_in

    left :
        wndwsize (record (s.rwnd) { head = next_seq (prev_seq stop) })
        ≡ distance (next_seq (prev_seq stop)) s.rwnd.tail
    left =
        wndwsize-distance (record (s.rwnd) { head = next_seq (prev_seq stop) }) (omega arith)
          v.rwnd_in.tail_in

    reply : ℕ → List Action
    reply size = sendto s.sockfd sender (ack_packet 0 (prev_seq stop) size) ∷ []

-- The slot just written is not empty, so the scan gets past it.
first_full :
    (m : List ℕ) (s : KtpSocket) (stop : ℕ)
    → IsSocket s
    → 0 < distance s.rwnd.head s.rwnd.tail
    → Scanned s.rwnd (store_data s.rwnd.head m s.recv_buffer) s.rwnd.head stop
    → 0 < distance s.rwnd.head stop
unfolding store_data
first_full m s stop v open_window scanned = elim (ℕ_discrete stop s.rwnd.head) [
  | no other ↦ omega (arith, scanned.stop_in, v.rwnd_in.head_in)
  | yes same ↦ elim (scanned.reason) [
    | inl end ↦ absurd (omega arith)
    | inr bare ↦ absurd (
        true≢false (
          sym bare
          ∙ ap
              (λ i.
                get_or (set s.recv_buffer.isempty (s.rwnd.head % max_message) false)
                  (i % max_message) true)
              same
          ∙ get_or-set_self s.recv_buffer.isempty (s.rwnd.head % max_message) false true
              (omega (arith, v.recv.flags))))
  ]
]

accept_in_order :
    (m : List ℕ) (sender : IpPort) (s : KtpSocket)
    → IsSocket s
    → s.nospace ≡ false
    → 0 < distance s.rwnd.head s.rwnd.tail
    → (s' : KtpSocket) × (actions : List Action) × (accept_data s.rwnd.head m sender s
        ≡ running (s', actions))
      × Delivered m sender s s' actions
unfolding accept_data
accept_in_order m sender s v quiet open_window =
    let (stop, r, scanned) =
      scan_ack_lem scan_fuel s.rwnd.head s.rwnd (store_data s.rwnd.head m s.recv_buffer)
        v.rwnd_in.head_in v.rwnd_in.tail_in v.rwnd_in.head_in (omega arith) (omega arith) in
    let (s', actions) =
      acknowledge sender stop (record s { recv_buffer = store_data s.rwnd.head m s.recv_buffer }) in
    (
      s',
      actions,
      rw (==-self s.rwnd.head, r),
      deliver m sender s stop v quiet scanned (first_full m s stop v open_window scanned),
    )

-- The DATA packet that is expected, with an open window and a free slot, is stored; the window's
-- head goes past every stored message in order and stops at an empty slot or the window's end; one
-- cumulative ACK with the window that is left goes out, nospace is set exactly when that is zero,
-- and the thread comes back.
pub handle_data-in_order :
    (m : List ℕ) (sender : IpPort) (s : KtpSocket)
    → IsSocket s
    → 0 < distance s.rwnd.head s.rwnd.tail
    → slot_empty s.recv_buffer (s.rwnd.head % max_message) ≡ true
    → (s' : KtpSocket) × (actions : List Action) × (handle_data s.rwnd.head m sender s
        ≡ running (s', actions))
      × Delivered m sender s s' actions
unfolding handle_data
handle_data-in_order m sender s v open_window free =
    let fits : KtpSocket = record s { nospace = false } in
    let (s', actions, r, d) =
      accept_in_order m sender fits (nospace-IsSocket false v) refl open_window in
    (
      s',
      actions,
      rw (in_window, free) r,
      record {
        buffer = d.buffer;
        scanned = d.scanned;
        moved = d.moved;
        tail_kept = d.tail_kept;
        acked = d.acked;
        replied = d.replied;
        closed = d.closed;
      },
    )
  where
    in_window : inwndw s.rwnd.head s.rwnd.head s.rwnd.tail ≡ true
    in_window =
        (inwndw_iff s.rwnd.head s.rwnd v.rwnd_in.head_in v.rwnd_in.head_in v.rwnd_in.tail_in).1
          (omega (arith, wndwsize-distance s.rwnd v.rwnd_in.head_in v.rwnd_in.tail_in))
