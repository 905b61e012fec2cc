-- ===== src/KtpFirst/Course.antt =====
-- A run of the sending side of the first version: the application's calls, the rounds of the sending
-- thread and the acknowledgements that come in.
use networks_lab_cs39006_spr.Prelude.{
  ℕ, suc, ◌+◌, ◌-◌, ◌≤◌, ◌<◌, ◌≡◌, ◌≢◌, ◌⊎◌, inl, inr, refl, sym, ap, ◌∙◌, subst, true, List, [],
  Option, none, some, get_or-replicate, length, arith, All, strcmp_eq,
}
use networks_lab_cs39006_spr.KtpFirst.Types.{SeqWindow, SmEntry, Action}
use networks_lab_cs39006_spr.KtpFirst.Receiver.{
  Handled, done, next_seqno, with_size, acknowledged, release_until, handle_ack_first,
}
use networks_lab_cs39006_spr.KtpFirst.Sender.{send_entry}
use networks_lab_cs39006_spr.KtpFirst.Socket.{
  Result, ok, err, enospace, claim_entry, k_sendto_first,
}
use networks_lab_cs39006_spr.KtpFirst.Window.{seq_number}
use networks_lab_cs39006_spr.KtpFirst.Outbox.{Sending, window-Sending, handle_ack-Sending}
use networks_lab_cs39006_spr.KtpFirst.Outgoing.{OneOf, Carries, CarriesWaiting}
use networks_lab_cs39006_spr.KtpFirst.Accepted.{k_sendto_first-Sending}
use networks_lab_cs39006_spr.KtpFirst.Rounds.{IsDue, send_entry-Sending}

-- What happens to an entry: messages `a` up to `n` wait before, and `b` up to `m` after.
pub data Happens (M : ℕ → List ℕ) (a n : ℕ) (s : SmEntry) : (b m : ℕ) → SmEntry → Type 0 where
  queues :
      (len dest_port : ℕ) (dest_ip : List ℕ) (s' : SmEntry)
      → strcmp_eq s.ip_addr dest_ip ≡ true
      → s.port ≡ dest_port
      → k_sendto_first dest_ip dest_port (M n) s ≡ ok len s'
      → Happens M a n s a (suc n) s'
  acknowledges :
      (i rwnd : ℕ) (s' : SmEntry) (actions : List Action)
      → a ≤ i
      → i < n
      → rwnd < 256
      → handle_ack_first (seq_number i) rwnd s ≡ done s' actions
      → Happens M a n s (suc i) n s'
  repeats :
      (seq rwnd : ℕ) (s' : SmEntry) (actions : List Action)
      → seq < 256
      → ((i : ℕ) → a ≤ i → i < n → seq_number i ≢ seq)
      → rwnd < 256
      → handle_ack_first seq rwnd s ≡ done s' actions
      → Happens M a n s a n s'
  sends :
      (now : ℕ) (s' : SmEntry) (actions : List Action)
      → send_entry now s ≡ done s' actions
      → Happens M a n s a n s'

-- The arrays of a socket's entry that `k_socket` leaves as they are.
pub record HasBuffers (s : SmEntry) : Type 0 where
  pub buffers : length s.send_buffer ≡ 10
  pub sizes : length s.len_of_msg_send_buffer ≡ 10

-- The states of a run, from a new socket with its addresses on.
pub data Reach (M : ℕ → List ℕ) : (a n : ℕ) → SmEntry → Type 0 where
  start :
      (pid sockid port : ℕ) (ip_addr : List ℕ) (old : SmEntry)
      → HasBuffers old
      → Reach M 0 0 (record (claim_entry pid sockid old) { ip_addr = ip_addr; port = port })
  later : {a n b m : ℕ} {s s' : SmEntry} → Reach M a n s → Happens M a n s b m s' → Reach M b m s'

-- The window of a sender.
pub record Running (M : ℕ → List ℕ) (a n : ℕ) (s : SmEntry) : Type 0 where
  pub sending : Sending M a n s
  pub started : s.swnd.start_seq ≡ seq_number a
  pub small : s.swnd.size < 256

start-Running :
    (M : ℕ → List ℕ) (pid sockid port : ℕ) (ip_addr : List ℕ) (old : SmEntry)
    → HasBuffers old
    → Running M 0 0 (record (claim_entry pid sockid old) { ip_addr = ip_addr; port = port })
unfolding claim_entry
start-Running M pid sockid port ip_addr old v = record {
  sending = record {
    numbers = refl;
    buffers = v.buffers;
    sizes = v.sizes;
    claimed = refl;
    before = omega arith;
    room = omega arith;
    waits = λ i l h. absurd (omega arith);
    apart = λ i j k l h. absurd (omega arith);
    bare = λ j h d. get_or-replicate {A = Option ℕ} 256 j none;
  };
  started = refl;
  small = omega arith;
}

-- An acknowledgement of no message that waits only tells the receiver's room.
handle_ack_first-repeated :
    (M : ℕ → List ℕ) (a n seq rwnd : ℕ) (s : SmEntry)
    → seq < 256
    → ((i : ℕ) → a ≤ i → i < n → seq_number i ≢ seq)
    → Sending M a n s
    → handle_ack_first seq rwnd s ≡ done (with_size rwnd s) []
unfolding handle_ack_first
handle_ack_first-repeated M a n seq rwnd s l d v =
    let act : Option ℕ → Handled = λ o. elim o [
      | none ↦ done (with_size rwnd s) []
      | some k ↦
          acknowledged (next_seqno seq) rwnd (release_until 256 (next_seqno seq) s.swnd.start_seq s)
    ] in
    ap act (v.bare seq l d)

injective_done : (s t : SmEntry) (a b : List Action) → done s a ≡ done t b → s ≡ t
injective_done s t a b e = cc

injective_ok : (x y : ℕ) (s t : SmEntry) → ok x s ≡ ok y t → s ≡ t
injective_ok x y s t e = cc

Happens-Running :
    (M : ℕ → List ℕ) (a n b m : ℕ) (s s' : SmEntry)
    → ((i : ℕ) → length (M i) ≤ 509)
    → Running M a n s
    → Happens M a n s b m s'
    → Running M b m s'
Happens-Running M a n b m s s' short v (queues len dest_port dest_ip s'' ip port e) =
    let (taken, refused) =
      k_sendto_first-Sending M a n dest_port dest_ip s v.sending v.started ip port
        (omega (arith, short n)) in
    elim (room_or_not a n) [
      | inl few ↦
          (let (after, f, w, begun, size) = taken few in
            subst (Running M a (suc n)) (injective_ok (length (M n)) len after s' (sym f ∙ e))
              (record { sending = w; started = begun; small = omega (arith, size, v.small) }))
      | inr full ↦ absurd (no_room s' len (sym (refused full) ∙ e))
    ]
  where
    room_or_not : (a n : ℕ) → (n < a + 10) ⊎ (a + 10 ≤ n)
    room_or_not a n = ground arith

    no_room : (t : SmEntry) (len : ℕ) → Result.err enospace ≡ ok len t → ⊥
    no_room t len e = cc
Happens-Running M a n b m s s' short v (acknowledges i rwnd s'' actions l h few e) =
    let (after, f, w, begun, size) = handle_ack-Sending M a i n rwnd s l h v.sending v.started in
    subst (Running M (suc i) n) (injective_done after s' [] actions (sym f ∙ e))
      (record { sending = w; started = begun; small = omega (arith, size, few) })
Happens-Running M a n b m s s' short v (repeats seq rwnd s'' actions l d few e) =
    subst (Running M a n)
      (injective_done (with_size rwnd s) s' [] actions
        (sym (handle_ack_first-repeated M a n seq rwnd s l d v.sending) ∙ e))
      (record {
        sending = window-Sending M a n rwnd s.swnd.start_seq s v.sending;
        started = v.started;
        small = few;
      })
Happens-Running M a n b m s s' short v (sends now s'' actions e) =
    let (after, sent, f, w, same, all, due) =
      send_entry-Sending M a n now s v.sending v.started v.small (λ i l h. short i) in
    subst (Running M a n) (injective_done after s' sent actions (sym f ∙ e)) (record {
      sending = w;
      started = ap (λ (x : SeqWindow). x.start_seq) same ∙ v.started;
      small = subst (λ (x : SeqWindow). x.size < 256) (sym same) v.small;
    })

pub Reach-Running :
    (M : ℕ → List ℕ) (a n : ℕ) (s : SmEntry)
    → ((i : ℕ) → length (M i) ≤ 509)
    → Reach M a n s
    → Running M a n s
Reach-Running M a n s short (start pid sockid port ip_addr old v) =
    start-Running M pid sockid port ip_addr old v
Reach-Running M a n s short (later {a = a₀} {n = n₀} {s = s₀} r h) =
    Happens-Running M a₀ n₀ a n s₀ s short (Reach-Running M a₀ n₀ s₀ short r) h

-- In the first version, in every state of a run in which a sender's messages of a stream, of at
-- most 509 bytes, are queued in order, sent, acknowledged, and told of by acknowledgements of
-- other numbers, a call to the bound address with the next message is accepted and goes on with
-- the run when fewer than ten messages wait, so a free buffer and a free number are found however
-- the numbers wrap, and is refused with ENOSPACE, and only then, when ten wait.
pub Reach-k_sendto :
    (M : ℕ → List ℕ) (a n dest_port : ℕ) (dest_ip : List ℕ) (s : SmEntry)
    → ((i : ℕ) → length (M i) ≤ 509)
    → Reach M a n s
    → strcmp_eq s.ip_addr dest_ip ≡ true
    → s.port ≡ dest_port
    → (n < a + 10
        → (s' : SmEntry) × (k_sendto_first dest_ip dest_port (M n) s ≡ ok (length (M n)) s')
          × Reach M a (suc n) s')
      × (a + 10 ≤ n → k_sendto_first dest_ip dest_port (M n) s ≡ err enospace)
Reach-k_sendto M a n dest_port dest_ip s short r ip port =
    let v = Reach-Running M a n s short r in
    let (taken, refused) =
      k_sendto_first-Sending M a n dest_port dest_ip s v.sending v.started ip port
        (omega (arith, short n)) in
    (
      (λ few.
          let (s', e, w, begun, size) = taken few in
          (s', e, later r (queues (length (M n)) dest_port dest_ip s' ip port e))),
      refused,
    )

-- In every state of such a run a round of the sending thread comes back, in a state of the run;
-- every packet that it sends is the packet of a message that waits, with that message's number and
-- bytes and to the bound address; and of the messages that wait and are less than the receiver's
-- room ahead of the first, each that has not been sent, and each at all once a number of the
-- window was sent more than five seconds ago, is sent.
pub Reach-send_entry :
    (M : ℕ → List ℕ) (a n now : ℕ) (s : SmEntry)
    → ((i : ℕ) → length (M i) ≤ 509)
    → Reach M a n s
    → (s' : SmEntry) × (actions : List Action) × (send_entry now s ≡ done s' actions)
      × Reach M a n s'
      × All (CarriesWaiting M a n s) actions
      × ((i : ℕ)
          → a ≤ i
          → i < n
          → i < a + s.swnd.size
          → IsDue now a i s
          → OneOf (Carries M s i) actions)
Reach-send_entry M a n now s short r =
    let v = Reach-Running M a n s short r in
    let (s', actions, e, w, same, all, due) =
      send_entry-Sending M a n now s v.sending v.started v.small (λ i l h. short i) in
    (s', actions, e, later r (sends now s' actions e), all, due)

-- In every state of such a run an acknowledgement of a message that waits, with a room below 256,
-- is handled without a loop that does not end; the messages up to that one wait no more, those
-- behind still do, the free buffers are ten less their number, and the room told is kept.
pub Reach-handle_ack :
    (M : ℕ → List ℕ) (a i n rwnd : ℕ) (s : SmEntry)
    → ((k : ℕ) → length (M k) ≤ 509)
    → Reach M a n s
    → a ≤ i
    → i < n
    → rwnd < 256
    → (s' : SmEntry) × (handle_ack_first (seq_number i) rwnd s ≡ done s' [])
      × Reach M (suc i) n s'
      × (s'.swnd.size ≡ rwnd)
      × (s'.send_buffer_size + (n - suc i) ≡ 10)
Reach-handle_ack M a i n rwnd s short r l h few =
    let v = Reach-Running M a n s short r in
    let (s', e, w, begun, size) = handle_ack-Sending M a i n rwnd s l h v.sending v.started in
    (s', e, later r (acknowledges i rwnd s' [] l h few e), size, w.room)
