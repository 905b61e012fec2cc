-- ===== src/KtpFirst/Outbox.antt =====
-- The send window of the first version: messages `a` up to `n` of a stream wait for acknowledgement.
use networks_lab_cs39006_spr.Prelude.{
  ℕ, zero, suc, ◌+◌, ◌-◌, ◌≤◌, ◌<◌, ◌≡◌, ◌≢◌, inl, inr, refl, sym, ap, ap₂, ◌∙◌, subst, List, [],
  Option, false, none, some, ◌==◌, if_true, if_false, ==_iff, ==-ne, get_or, set, length,
  length-set, take, arith, get_or-set_self, get_or-set_ne,
}
use networks_lab_cs39006_spr.KtpFirst.Types.{SmEntry}
use networks_lab_cs39006_spr.KtpFirst.Receiver.{
  Handled, done, next_seqno, release_seq, release_until, with_size, acknowledged, handle_ack_first,
}
use networks_lab_cs39006_spr.KtpFirst.Window.{seq_number}
use networks_lab_cs39006_spr.KtpFirst.Arrivals.{same_or_not}

-- The buffer of a message that waits.
pub record Waits (M : ℕ → List ℕ) (s : SmEntry) (i index : ℕ) : Type 0 where
  pub inside : index < 10
  pub numbered : get_or s.swnd.wndw (seq_number i) none ≡ some index
  pub length_kept : get_or s.len_of_msg_send_buffer index 0 ≡ length (M i)
  pub text_kept : take (length (M i)) (get_or s.send_buffer index []) ≡ M i

pub record Sending (M : ℕ → List ℕ) (a n : ℕ) (s : SmEntry) : Type 0 where
  pub numbers : length s.swnd.wndw ≡ 256
  pub buffers : length s.send_buffer ≡ 10
  pub sizes : length s.len_of_msg_send_buffer ≡ 10
  pub claimed : s.is_free ≡ false
  pub before : a ≤ n
  pub room : s.send_buffer_size + (n - a) ≡ 10
  pub waits : (i : ℕ) → a ≤ i → i < n → (index : ℕ) × Waits M s i index
  pub apart :
      (i j index : ℕ)
      → a ≤ i
      → i < n
      → a ≤ j
      → j < n
      → get_or s.swnd.wndw (seq_number i) none ≡ some index
      → get_or s.swnd.wndw (seq_number j) none ≡ some index
      → i ≡ j
  pub bare :
      (j : ℕ)
      → j < 256
      → ((i : ℕ) → a ≤ i → i < n → seq_number i ≢ j)
      → get_or s.swnd.wndw j none ≡ none

-- One number given up.
release-Sending :
    (M : ℕ → List ℕ) (a n : ℕ) (s : SmEntry)
    → a < n
    → Sending M a n s
    → Sending M (suc a) n (release_seq (seq_number a) s)
unfolding release_seq
release-Sending M a n s h v =
    let few : n ≤ a + 10 = omega (arith, v.room) in
    let other : (i : ℕ) → suc a ≤ i → i < n → seq_number a ≢ seq_number i =
      λ i l m e. omega (arith, e, few) in
    let old : (i index : ℕ)
        → suc a ≤ i
        → i < n
        → get_or (set s.swnd.wndw (seq_number a) none) (seq_number i) none
          ≡ get_or s.swnd.wndw (seq_number i) none =
      λ i index l m.
        get_or-set_ne s.swnd.wndw (seq_number a) (seq_number i) none none (other i l m) in
    record {
      numbers = length-set s.swnd.wndw (seq_number a) none ∙ v.numbers;
      buffers = v.buffers;
      sizes = v.sizes;
      claimed = v.claimed;
      before = omega arith;
      room = omega (arith, v.room);
      waits = λ i l m.
          let (index, w) = v.waits i (omega arith) m in
          (
            index,
            record {
              inside = w.inside;
              numbered = old i index l m ∙ w.numbered;
              length_kept = w.length_kept;
              text_kept = w.text_kept;
            },
          );
      apart = λ i j index l m l' m' e e'.
          v.apart i j index (omega arith) m (omega arith) m' (sym (old i index l m) ∙ e)
            (sym (old j index l' m') ∙ e');
      bare = λ j l d. elim (same_or_not j (seq_number a)) [
        | inl e ↦
            subst (λ k. get_or (set s.swnd.wndw (seq_number a) none) k none ≡ none) (sym e)
              (get_or-set_self s.swnd.wndw (seq_number a) none none (omega (arith, v.numbers)))
        | inr ne ↦
            get_or-set_ne s.swnd.wndw (seq_number a) j none none (λ e. ne (sym e))
            ∙ v.bare j l (λ i p q. elim (same_or_not i a) [
              | inl e ↦ λ f. ne (sym f ∙ ap seq_number e)
              | inr f ↦ d i (omega arith) q
            ])
      ];
    }

-- The loop gives up the first `d` numbers.
release_until-Sending :
    (M : ℕ → List ℕ) (d fuel a n : ℕ) (s : SmEntry)
    → d < fuel
    → a + d ≤ n
    → Sending M a n s
    → (s' : SmEntry) × (release_until fuel (seq_number (a + d)) (seq_number a) s ≡ some s')
      × Sending M (a + d) n s'
unfolding release_until
release_until-Sending M d zero a n s h l v = absurd (omega arith)
release_until-Sending M zero (suc fuel) a n s h l v =
    let same : a ≡ a + 0 = omega arith in
    (
      s,
      if_true (seq_number a == seq_number (a + 0)) _ _
          ((==_iff (seq_number a) (seq_number (a + 0))).1 (ap seq_number same)),
      subst (λ b. Sending M b n s) same v,
    )
release_until-Sending M (suc d) (suc fuel) a n s h l v =
    let few : n ≤ a + 10 = omega (arith, v.room) in
    let ne : seq_number a ≢ seq_number (a + suc d) = λ e. omega (arith, e, few) in
    let far : suc a + d ≡ a + suc d = omega arith in
    let (s', e, w) =
      release_until-Sending M d fuel (suc a) n (release_seq (seq_number a) s) (omega arith)
        (omega arith) (release-Sending M a n s (omega arith) v) in
    (
      s',
      if_false (seq_number a == seq_number (a + suc d)) _ _
            (==-ne (seq_number a) (seq_number (a + suc d)) ne)
          ∙ ap₂ (λ last j. release_until fuel last j (release_seq (seq_number a) s))
              (ap seq_number (sym far))
              (let next : next_seqno (seq_number a) ≡ seq_number (suc a) = omega arith in next)
          ∙ e,
      subst (λ b. Sending M b n s') far w,
    )

-- The size and the start of the window are no part of this.
pub window-Sending :
    (M : ℕ → List ℕ) (a n size start : ℕ) (s : SmEntry)
    → Sending M a n s
    → Sending M a n
        (record s { swnd = record { wndw = s.swnd.wndw; size = size; start_seq = start } })
window-Sending M a n size start s v = record {
  numbers = v.numbers;
  buffers = v.buffers;
  sizes = v.sizes;
  claimed = v.claimed;
  before = v.before;
  room = v.room;
  waits = λ i l m.
      let (index, w) = v.waits i l m in
      (
        index,
        record {
          inside = w.inside;
          numbered = w.numbered;
          length_kept = w.length_kept;
          text_kept = w.text_kept;
        },
      );
  apart = v.apart;
  bare = v.bare;
}

-- An acknowledgement of a message that waits.
pub handle_ack-Sending :
    (M : ℕ → List ℕ) (a i n rwnd : ℕ) (s : SmEntry)
    → a ≤ i
    → i < n
    → Sending M a n s
    → s.swnd.start_seq ≡ seq_number a
    → (s' : SmEntry) × (handle_ack_first (seq_number i) rwnd s ≡ done s' [])
      × Sending M (suc i) n s'
      × (s'.swnd.start_seq ≡ seq_number (suc i))
      × (s'.swnd.size ≡ rwnd)
unfolding handle_ack_first
handle_ack-Sending M a i n rwnd s l h v start =
    let (index, w) = v.waits i l h in
    let d : ℕ = suc i - a in
    let far : a + d ≡ suc i = omega (arith, l) in
    let next : next_seqno (seq_number i) ≡ seq_number (a + d) = omega (arith, far) in
    let few : n ≤ a + 10 = omega (arith, v.room) in
    let (s', e, u) =
      release_until-Sending M d 256 a n s (omega (arith, h, few)) (omega (arith, h, far)) v in
    let act : Option ℕ → Handled = λ o. elim o [
      | none ↦ done (with_size rwnd s) []
      | some k ↦
          acknowledged (next_seqno (seq_number i)) rwnd
            (release_until 256 (next_seqno (seq_number i)) s.swnd.start_seq s)
    ] in
    let after : SmEntry =
      with_size rwnd (record s' { swnd = record (s'.swnd) { start_seq = seq_number (a + d) } }) in
    (
      after,
      ap act w.numbered
          ∙ ap₂ (λ last j. acknowledged last rwnd (release_until 256 last j s)) next start
          ∙ ap (acknowledged (seq_number (a + d)) rwnd) e,
      subst (λ b. Sending M b n after) far
          (window-Sending M (a + d) n rwnd (seq_number (a + d)) s' u),
      ap seq_number far,
      refl,
    )
