-- ===== src/KtpFirst/Delivery.antt =====
-- The stream between two entries of the first version: packets that arrive in any order, more than
-- once or not at all, and an application that reads.
use networks_lab_cs39006_spr.Prelude.{
  get_or-replicate, ℕ, zero, suc, ◌+◌, ◌-◌, ◌%◌, ◌≤◌, ◌<◌, ◌≡◌, inl, inr, true≢false, replicate,
  refl, sym, ap, ◌∙◌, subst, Bool, true, false, List, [], Option, none, ltb, ◌==◌, if◌then◌else◌,
  if_false, if_elim, not, ◌&&◌, Bool-cases, get_or, length, arith,
}
use networks_lab_cs39006_spr.KtpFirst.Types.{SmEntry, Action}
use networks_lab_cs39006_spr.KtpFirst.Receiver.{
  done, overrun, answer_data, handle_data_first, update_window,
}
use networks_lab_cs39006_spr.KtpFirst.Socket.{
  ok, err, enomessage, claim_entry, first_window, k_recvfrom_first,
}
use networks_lab_cs39006_spr.KtpFirst.Window.{seq_number, slot_of, there, Receiving}
use networks_lab_cs39006_spr.KtpFirst.Arrivals.{take_data-Receiving, take_data-next}
use networks_lab_cs39006_spr.KtpFirst.Reads.{k_recvfrom-next, k_recvfrom-early}

-- The arrays of an entry have the lengths that they are declared with.
pub record HasArrays (s : SmEntry) : Type 0 where
  pub buffers : length s.receive_buffer ≡ 10
  pub sizes : length s.len_of_msg_receive_buffer ≡ 10

-- What happens at the receiving entry while `c` messages have been read. A packet that arrives carries
-- a message of which the next to be read is at most 246 ahead, and that is less than 256 ahead of it.
pub data Happens (M : ℕ → List ℕ) (c : ℕ) (s : SmEntry) : ℕ → SmEntry → Type 0 where
  arrives :
      (n port : ℕ) (ip_addr : List ℕ) (s' : SmEntry) (actions : List Action)
      → c ≤ n + 246
      → n < c + 256
      → handle_data_first ip_addr port (seq_number n) (M n) s ≡ done s' actions
      → Happens M c s c s'
  reads :
      (len : ℕ) (text : List ℕ) (s' : SmEntry)
      → length (M c) ≤ len
      → k_recvfrom_first len s ≡ ok text s'
      → Happens M c s (suc c) s'
  announces : Happens M c s c (update_window s).0

pub data Reach (M : ℕ → List ℕ) : ℕ → SmEntry → Type 0 where
  start : (pid sockid : ℕ) (old : SmEntry) → HasArrays old → Reach M 0 (claim_entry pid sockid old)
  later : {c d : ℕ} {s s' : SmEntry} → Reach M c s → Happens M c s d s' → Reach M d s'

-- The application that reads in a state that is reached.
far_slot : (j : ℕ) → 11 ≤ j → j < 256 → slot_of 0 j ≡ none
far_slot j h l = if_false (ltb ((j + 511 - 0 % 256) % 256) 10) _ none (ground arith)

first_window-slot_of : (j : ℕ) → j < 256 → get_or first_window j none ≡ slot_of 0 j
first_window-slot_of zero h = refl
first_window-slot_of (suc zero) h = refl
first_window-slot_of (suc (suc zero)) h = refl
first_window-slot_of (suc (suc (suc zero))) h = refl
first_window-slot_of (suc (suc (suc (suc zero)))) h = refl
first_window-slot_of (suc (suc (suc (suc (suc zero))))) h = refl
first_window-slot_of (suc (suc (suc (suc (suc (suc zero)))))) h = refl
first_window-slot_of (suc (suc (suc (suc (suc (suc (suc zero))))))) h = refl
first_window-slot_of (suc (suc (suc (suc (suc (suc (suc (suc zero)))))))) h = refl
first_window-slot_of (suc (suc (suc (suc (suc (suc (suc (suc (suc zero))))))))) h = refl
first_window-slot_of (suc (suc (suc (suc (suc (suc (suc (suc (suc (suc zero)))))))))) h = refl
first_window-slot_of (suc (suc (suc (suc (suc (suc (suc (suc (suc (suc (suc k))))))))))) h =
    get_or-replicate {A = Option ℕ} 245 k none
    ∙ sym (
        far_slot (suc (suc (suc (suc (suc (suc (suc (suc (suc (suc (suc k))))))))))) (omega arith)
          h)

claim_entry-Receiving :
    (M : ℕ → List ℕ) (pid sockid : ℕ) (old : SmEntry)
    → HasArrays old
    → Receiving M 0 (claim_entry pid sockid old)
unfolding claim_entry
claim_entry-Receiving M pid sockid old v =
    let nothing : (k : ℕ) → get_or (replicate 10 false) ((0 + k) % 10) false ≡ false =
      λ k. get_or-replicate 10 ((0 + k) % 10) false in
    record {
      holding = record {
        numbers = refl;
        flags = refl;
        buffers = v.buffers;
        sizes = v.sizes;
        pointer = refl;
        claimed = refl;
        slots = first_window-slot_of;
        length_kept = λ k h t. absurd (true≢false (sym t ∙ nothing k));
        text_kept = λ k h t. absurd (true≢false (sym t ∙ nothing k));
      };
      run = 0;
      has_run = record {
        short = omega arith;
        complete = λ k h. absurd (omega arith);
        open_slot = λ h. nothing 0;
      };
      started = refl;
    }

-- The parts of an entry that the window is about.
same_parts :
    (M : ℕ → List ℕ) (c : ℕ) (s : SmEntry) (nospace : Bool)
    → Receiving M c s
    → Receiving M c (record s { nospace = nospace })
same_parts M c s nospace v = record {
  holding = record {
    numbers = v.holding.numbers;
    flags = v.holding.flags;
    buffers = v.holding.buffers;
    sizes = v.holding.sizes;
    pointer = v.holding.pointer;
    claimed = v.holding.claimed;
    slots = v.holding.slots;
    length_kept = v.holding.length_kept;
    text_kept = v.holding.text_kept;
  };
  run = v.run;
  has_run = record {
    short = v.has_run.short;
    complete = v.has_run.complete;
    open_slot = v.has_run.open_slot;
  };
  started = v.started;
}

-- Every message that the sender may send is taken: the thread goes on, in a good state.
pub handle_data-Receiving :
    (M : ℕ → List ℕ) (c n port : ℕ) (ip_addr : List ℕ) (s : SmEntry)
    → c ≤ n + 246
    → n < c + 256
    → length (M n) ≤ 512
    → Receiving M c s
    → (s' : SmEntry) × (actions : List Action) × (handle_data_first ip_addr port
          (seq_number n)
          (M n)
          s
        ≡ done s' actions)
      × Receiving M c s'
unfolding handle_data_first answer_data
handle_data-Receiving M c n port ip_addr s l h short v =
    let (s', e, w) = take_data-Receiving M c n s l h v in
    (
      _,
      _,
      if_false (ltb 512 (length (M n))) overrun _ (ground arith) ∙ ap (answer_data ip_addr port) e,
      same_parts M c s' (if s'.rwnd.size == 0 then true else s'.nospace) w,
    )

update_window-Receiving :
    (M : ℕ → List ℕ) (c : ℕ) (s : SmEntry) → Receiving M c s → Receiving M c (update_window s).0
unfolding update_window
update_window-Receiving M c s v =
    if_elim (λ (r : SmEntry × List Action). Receiving M c r.0)
      (not s.is_free && (s.nospace && ltb 0 s.rwnd.size)) _ (s, []) (same_parts M c s false v) v

injective_done : (s t : SmEntry) (a b : List Action) → done s a ≡ done t b → s ≡ t
injective_done s t a b e = cc

injective_ok : (x y : List ℕ) (s t : SmEntry) → ok x s ≡ ok y t → (x ≡ y) × (s ≡ t)
injective_ok x y s t e = (cc, cc)

-- The application has the next message, or is told that there is none.
reads_next :
    (M : ℕ → List ℕ) (c len : ℕ) (s : SmEntry) (text : List ℕ) (s' : SmEntry)
    → Receiving M c s
    → length (M c) ≤ len
    → k_recvfrom_first len s ≡ ok text s'
    → (text ≡ M c) × Receiving M (suc c) s'
reads_next M c len s text s' v room e = elim (Bool-cases (there c s 0)) [
  | inl t ↦
      (let (after, f, w) = k_recvfrom-next M c len s v room t in
        let same = injective_ok text (M c) s' after (sym e ∙ f) in
        (same.0, subst (Receiving M (suc c)) (sym same.1) w))
  | inr t ↦ absurd (refused text s' (sym (k_recvfrom-early M c len s v t) ∙ e))
]
  where
    refused : (x : List ℕ) (t : SmEntry) → err enomessage ≡ ok x t → ⊥
    refused x t e = cc

Happens-Receiving :
    (M : ℕ → List ℕ) (c d : ℕ) (s s' : SmEntry)
    → ((n : ℕ) → length (M n) ≤ 512)
    → Receiving M c s
    → Happens M c s d s'
    → Receiving M d s'
Happens-Receiving M c d s s' short v (arrives n port ip_addr s'' actions l h e) =
    let (after, sent, f, w) = handle_data-Receiving M c n port ip_addr s l h (short n) v in
    subst (Receiving M c) (injective_done after s' sent actions (sym f ∙ e)) w
Happens-Receiving M c d s s' short v (reads len text s'' room e) =
    (reads_next M c len s text s' v room e).1
Happens-Receiving M c d s s' short v announces = update_window-Receiving M c s v

pub Reach-Receiving :
    (M : ℕ → List ℕ) (c : ℕ) (s : SmEntry)
    → ((n : ℕ) → length (M n) ≤ 512)
    → Reach M c s
    → Receiving M c s
Reach-Receiving M c s short (start pid sockid old v) = claim_entry-Receiving M pid sockid old v
Reach-Receiving M c s short (later {c = b} {s = old} reach h) =
    Happens-Receiving M b c old s short (Reach-Receiving M b old short reach) h

-- In the first version, over any run in which DATA packets of a stream arrive in any order, twice
-- or not at all, each of a message less than 256 ahead of the next to be read and at most 246
-- before it, and in which the application reads with enough room, what a read returns after c
-- reads is message c of the stream; messages have at most 512 bytes, as they arrive.
pub Reach-in_order :
    (M : ℕ → List ℕ) (c len : ℕ) (s : SmEntry) (text : List ℕ) (s' : SmEntry)
    → ((n : ℕ) → length (M n) ≤ 512)
    → Reach M c s
    → length (M c) ≤ len
    → k_recvfrom_first len s ≡ ok text s'
    → text ≡ M c
Reach-in_order M c len s text s' short reach room e =
    (reads_next M c len s text s' (Reach-Receiving M c s short reach) room e).0

-- In every state of such a run, with messages of at most 512 bytes, the arrival of the message to
-- be read next is handled without a loop that does not end, and a read with enough room then
-- returns it.
pub Reach-read :
    (M : ℕ → List ℕ) (c len port : ℕ) (ip_addr : List ℕ) (s : SmEntry)
    → ((n : ℕ) → length (M n) ≤ 512)
    → Reach M c s
    → length (M c) ≤ len
    → (s' : SmEntry) × (actions : List Action) × (s'' : SmEntry) × (handle_data_first ip_addr port
          (seq_number c)
          (M c)
          s
        ≡ done s' actions)
      × (k_recvfrom_first len s' ≡ ok (M c) s'')
unfolding handle_data_first answer_data
Reach-read M c len port ip_addr s short reach room =
    let (got, e, v, t) = take_data-next M c s (Reach-Receiving M c s short reach) in
    let kept = same_parts M c got (if got.rwnd.size == 0 then true else got.nospace) v in
    let (after, f, w) = k_recvfrom-next M c len _ kept room t in
    (
      _,
      _,
      after,
      if_false (ltb 512 (length (M c))) overrun _ (ground (arith, short c))
          ∙ ap (answer_data ip_addr port) e,
      f,
    )
