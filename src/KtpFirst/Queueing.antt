-- ===== src/KtpFirst/Queueing.antt =====
-- A message that the application of the first version sends waits behind those that wait already.
use networks_lab_cs39006_spr.Prelude.{
  ℕ, zero, suc, ◌+◌, ◌≤◌, ◌<◌, ◌≡◌, ◌≢◌, ◌⊎◌, inl, inr, sym, ap, ◌∙◌, subst, true, false, List, [],
  ◌∷◌, Option, none, some, some-injective, ◌==◌, if_true, if_false, Bool-cases, get_or, length,
  length-set, take, arith, get_or-set_self, get_or-set_ne,
}
use networks_lab_cs39006_spr.KtpFirst.Types.{SmEntry}
use networks_lab_cs39006_spr.KtpFirst.Receiver.{next_seqno}
use networks_lab_cs39006_spr.KtpFirst.Socket.{
  free_seq, is_index, uses_index, free_index, put_message,
}
use networks_lab_cs39006_spr.KtpFirst.Window.{seq_number}
use networks_lab_cs39006_spr.KtpFirst.Arrivals.{take-length}
use networks_lab_cs39006_spr.KtpFirst.Outbox.{Waits, Sending}

-- The first free number is that behind the messages that wait.
pub free_seq-Sending :
    (M : ℕ → List ℕ) (d fuel a j n : ℕ) (s : SmEntry)
    → a ≤ j
    → j + d ≡ n
    → d < fuel
    → n < a + 256
    → Sending M a n s
    → free_seq fuel (seq_number j) s.swnd ≡ some (seq_number n)
unfolding free_seq
free_seq-Sending M d zero a j n s l e h m v = absurd (omega arith)
free_seq-Sending M zero (suc fuel) a j n s l e h m v =
    let here : j ≡ n = omega arith in
    let pick : Option ℕ → Option ℕ = λ o. elim o [
      | none ↦ some (seq_number j)
      | some index ↦ free_seq fuel (next_seqno (seq_number j)) s.swnd
    ] in
    ap pick (v.bare (seq_number j) (omega arith) (λ i p q r. omega (arith, r)))
    ∙ ap (λ k. some (seq_number k)) here
free_seq-Sending M (suc d) (suc fuel) a j n s l e h m v =
    let (index, w) = v.waits j l (omega arith) in
    let pick : Option ℕ → Option ℕ = λ o. elim o [
      | none ↦ some (seq_number j)
      | some k ↦ free_seq fuel (next_seqno (seq_number j)) s.swnd
    ] in
    ap pick w.numbered
    ∙ ap (λ k. free_seq fuel k s.swnd)
        (let next : next_seqno (seq_number j) ≡ seq_number (suc j) = omega arith in next)
    ∙ free_seq-Sending M d fuel a (suc j) n s (omega arith) (omega arith) (omega arith) m v

-- A buffer that is found belongs to no number.
unused :
    (index j : ℕ) (os : List (Option ℕ))
    → uses_index index os ≡ false
    → get_or os j none ≢ some index
unfolding uses_index
unused index j [] h e = cc
unused index zero (o ∷ os) h e =
    let at : is_index index o ≡ true =
      ap (is_index index) e ∙ (let same : (index == index) ≡ true = ground arith in same) in
    ground arith
unused index (suc j) (o ∷ os) h e = unused index j os (ground arith) e

pub free_index-unused :
    (n i index : ℕ) (os : List (Option ℕ))
    → free_index n i os ≡ some index
    → (i ≤ index) × (index < i + n) × (uses_index index os ≡ false)
unfolding free_index
free_index-unused zero i index os e = cc
free_index-unused (suc n) i index os e = elim (Bool-cases (uses_index i os)) [
  | inl t ↦
      (let later =
          free_index-unused n (suc i) index os (sym (if_true (uses_index i os) _ (some i) t) ∙ e) in
        (omega (arith, later.0), omega (arith, later.1), later.2))
  | inr t ↦
      (let same : i ≡ index =
          some-injective i index (sym (if_false (uses_index i os) _ (some i) t) ∙ e) in
        (omega arith, omega arith, ap (λ k. uses_index k os) (sym same) ∙ t))
]

module _ (M : ℕ → List ℕ) (a n index : ℕ) (s : SmEntry) (v : Sending M a n s)
    (free : s.send_buffer_size ≢ 0) (inside : index < 10)
    (un : uses_index index s.swnd.wndw ≡ false) where
  queued : SmEntry
  queued = put_message (seq_number n) index (M n) s

  few : n < a + 10
  few = omega (arith, v.room, v.before)

  -- The numbers of the messages that wait keep their buffers.
  old_number :
      (i : ℕ)
      → a ≤ i
      → i < n
      → get_or queued.swnd.wndw (seq_number i) none ≡ get_or s.swnd.wndw (seq_number i) none
  unfolding queued put_message
  old_number i l h =
      get_or-set_ne s.swnd.wndw (seq_number n) (seq_number i) (some index) none
        (λ e. omega (arith, e, few))

  new_number : get_or queued.swnd.wndw (seq_number n) none ≡ some index
  unfolding queued put_message
  new_number =
      get_or-set_self s.swnd.wndw (seq_number n) (some index) none (omega (arith, v.numbers))

  other_buffer : (i k : ℕ) → get_or s.swnd.wndw (seq_number i) none ≡ some k → index ≢ k
  other_buffer i k e same = unused index (seq_number i) s.swnd.wndw un (e ∙ ap some (sym same))

  old-Waits : (i k : ℕ) → a ≤ i → i < n → Waits M s i k → Waits M queued i k
  unfolding queued put_message
  old-Waits i k l h w =
      let d = other_buffer i k w.numbered in
      record {
        inside = w.inside;
        numbered = old_number i l h ∙ w.numbered;
        length_kept = get_or-set_ne s.len_of_msg_send_buffer index k _ 0 d ∙ w.length_kept;
        text_kept =
            ap (take (length (M i))) (get_or-set_ne s.send_buffer index k _ [] d) ∙ w.text_kept;
      }

  new-Waits : Waits M queued n index
  unfolding queued put_message
  new-Waits = record {
    inside = inside;
    numbered = new_number;
    length_kept =
        get_or-set_self s.len_of_msg_send_buffer index (length (M n)) 0 (omega (arith, v.sizes));
    text_kept =
        ap (take (length (M n)))
          (get_or-set_self s.send_buffer index _ [] (omega (arith, v.buffers)))
        ∙ take-length (M n) _;
  }

  old_or_new : (i : ℕ) → i < suc n → (i < n) ⊎ (i ≡ n)
  old_or_new i h = ground arith

  queued_apart :
      (i j k : ℕ)
      → a ≤ i
      → i < suc n
      → a ≤ j
      → j < suc n
      → get_or queued.swnd.wndw (seq_number i) none ≡ some k
      → get_or queued.swnd.wndw (seq_number j) none ≡ some k
      → i ≡ j
  queued_apart i j k l h l' h' e e' = elim (old_or_new i h) [
    | inl p ↦ elim (old_or_new j h') [
      | inl q ↦ v.apart i j k l p l' q (sym (old_number i l p) ∙ e) (sym (old_number j l' q) ∙ e')
      | inr q ↦ absurd (
          other_buffer i k (sym (old_number i l p) ∙ e) (
            some-injective index k (
              sym new_number ∙ ap (λ m. get_or queued.swnd.wndw (seq_number m) none) (sym q) ∙ e')))
    ]
    | inr p ↦ elim (old_or_new j h') [
      | inl q ↦ absurd (
          other_buffer j k (sym (old_number j l' q) ∙ e') (
            some-injective index k
              (sym new_number ∙ ap (λ m. get_or queued.swnd.wndw (seq_number m) none) (sym p) ∙ e)))
      | inr q ↦ p ∙ sym q
    ]
  ]

  pub queued-Sending : Sending M a (suc n) (put_message (seq_number n) index (M n) s)
  unfolding queued put_message
  queued-Sending = record {
    numbers = length-set s.swnd.wndw (seq_number n) (some index) ∙ v.numbers;
    buffers = length-set s.send_buffer index _ ∙ v.buffers;
    sizes = length-set s.len_of_msg_send_buffer index _ ∙ v.sizes;
    claimed = v.claimed;
    before = omega (arith, v.before);
    room = omega (arith, v.room, v.before);
    waits = λ i l h. elim (old_or_new i h) [
      | inl p ↦ (let (k, w) = v.waits i l p in (k, old-Waits i k l p w))
      | inr p ↦ (index, subst (λ m. Waits M queued m index) (sym p) new-Waits)
    ];
    apart = queued_apart;
    bare = λ j h d.
        get_or-set_ne s.swnd.wndw (seq_number n) j (some index) none (d n v.before (omega arith))
        ∙ v.bare j h (λ i l p. d i l (omega arith));
  }
