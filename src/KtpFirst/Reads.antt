-- ===== src/KtpFirst/Reads.antt =====
-- What an application of the first version reads is the next message of the stream.
use networks_lab_cs39006_spr.Prelude.{
  ℕ, zero, suc, ◌+◌, ◌-◌, ◌%◌, ◌≤◌, ◌<◌, ◌≡◌, ◌≢◌, inl, inr, refl, sym, ap, ◌∙◌, subst, true, false,
  List, [], ◌∷◌, Option, none, some, ltb, if◌then◌else◌, if_true, if_false, true≢false, get_or, set,
  length, length-set, take, arith, get_or-set_self, get_or-set_ne,
}
use networks_lab_cs39006_spr.KtpFirst.Types.{SmEntry}
use networks_lab_cs39006_spr.KtpFirst.Socket.{
  ok, err, enomessage, is_index, later_or, seq_of, free_buffer, min_len, read_at, k_recvfrom_first,
}
use networks_lab_cs39006_spr.KtpFirst.Window.{
  seq_number, distance, slot_of, there, Holding, HasRun, Receiving,
}
use networks_lab_cs39006_spr.KtpFirst.Arrivals.{same_or_not}

-- A number is found where it is the only one that has the buffer.
seq_of-none :
    (index i : ℕ) (os : List (Option ℕ))
    → ((j : ℕ) → j < length os → is_index index (get_or os j none) ≡ false)
    → seq_of index i os ≡ none
unfolding seq_of
seq_of-none index i [] h = refl
seq_of-none index i (o ∷ os) h =
    ap (λ r. later_or r (if is_index index o then some i else none))
      (seq_of-none index (suc i) os (λ j l. h (suc j) (omega arith)))
    ∙ if_false (is_index index o) (some i) none (h 0 (omega arith))

seq_of-some :
    (index i k : ℕ) (os : List (Option ℕ))
    → k < length os
    → is_index index (get_or os k none) ≡ true
    → ((j : ℕ) → j < length os → j ≢ k → is_index index (get_or os j none) ≡ false)
    → seq_of index i os ≡ some (i + k)
unfolding seq_of
seq_of-some index i k [] l e h = absurd (omega arith)
seq_of-some index i zero (o ∷ os) l e h =
    ap (λ r. later_or r (if is_index index o then some i else none))
      (seq_of-none index (suc i) os (λ j m. h (suc j) (omega arith) (omega arith)))
    ∙ if_true (is_index index o) (some i) none e
    ∙ ap some (let same : i ≡ i + 0 = omega arith in same)
seq_of-some index i (suc k) (o ∷ os) l e h =
    ap (λ r. later_or r (if is_index index o then some i else none))
      (seq_of-some index (suc i) k os (omega arith) e
        (λ j m d. h (suc j) (omega arith) (omega arith)))
    ∙ ap some (let same : suc i + k ≡ i + suc k = omega arith in same)

-- Only the number of message `c` has its buffer.
slot_of-pointer : (c : ℕ) → is_index (c % 10) (slot_of c (seq_number c)) ≡ true
slot_of-pointer c = ground arith

slot_of-other : (c j : ℕ) → j < 256 → j ≢ seq_number c → is_index (c % 10) (slot_of c j) ≡ false
slot_of-other c j h d = ground arith

seq_of-pointer :
    (M : ℕ → List ℕ) (c : ℕ) (s : SmEntry)
    → Holding M c s
    → seq_of s.receive_buffer_pointer 0 s.rwnd.wndw ≡ some (seq_number c)
seq_of-pointer M c s v =
    ap (λ p. seq_of p 0 s.rwnd.wndw) v.pointer
    ∙ seq_of-some (c % 10) 0 (seq_number c) s.rwnd.wndw (omega (arith, v.numbers))
        (ap (is_index (c % 10)) (v.slots (seq_number c) (omega arith)) ∙ slot_of-pointer c)
        (λ j l d.
          ap (is_index (c % 10)) (v.slots j (omega (arith, v.numbers)))
          ∙ slot_of-other c j (omega (arith, v.numbers)) d)
    ∙ ap some (let same : 0 + seq_number c ≡ seq_number c = omega arith in same)

slot_of-freed : (c : ℕ) → slot_of (suc c) ((seq_number c + 10) % 256) ≡ some (c % 10)
slot_of-freed c =
    let d : distance (suc c) ((seq_number c + 10) % 256) ≡ 9 = omega arith in
    if_true (ltb (distance (suc c) ((seq_number c + 10) % 256)) 10) _ none (ground (arith, d))
    ∙ ap (λ e. some ((suc c + e) % 10)) d
    ∙ ap some (let same : (suc c + 9) % 10 ≡ c % 10 = omega arith in same)

slot_of-gone : (c : ℕ) → slot_of (suc c) (seq_number c) ≡ none
slot_of-gone c =
    let d : 10 ≤ distance (suc c) (seq_number c) = omega arith in
    if_false (ltb (distance (suc c) (seq_number c)) 10) _ none (ground (arith, d))

shorter :
    (c d e : ℕ)
    → d ≡ suc e
    → d ≢ 10
    → (if ltb d 10 then some ((c + d) % 10) else none)
      ≡ (if ltb e 10 then some ((suc c + e) % 10) else none)
shorter c d e h n = ground arith

slot_of-kept :
    (c j : ℕ)
    → j < 256
    → j ≢ seq_number c
    → j ≢ (seq_number c + 10) % 256
    → slot_of c j ≡ slot_of (suc c) j
slot_of-kept c j h d e =
    let one : distance c j ≡ suc (distance (suc c) j) = omega arith in
    let ten : distance c j ≢ 10 = omega arith in
    shorter c (distance c j) (distance (suc c) j) one ten

module _ (M : ℕ → List ℕ) (c : ℕ) (s : SmEntry) (v : Holding M c s) where
  freed : SmEntry
  freed = free_buffer (seq_number c) s

  freed-slots : (j : ℕ) → j < 256 → get_or freed.rwnd.wndw j none ≡ slot_of (suc c) j
  unfolding freed
  freed-slots j h =
      let a : ℕ = seq_number c in
      let b : ℕ = (a + 10) % 256 in
      let once : List (Option ℕ) = set s.rwnd.wndw a none in
      let p : Option ℕ = some s.receive_buffer_pointer in
      elim (same_or_not j b) [
        | inl e ↦
            subst (λ i. get_or (set once b p) i none ≡ slot_of (suc c) i) (sym e)
              (get_or-set_self once b p none
                  (omega (arith, length-set s.rwnd.wndw a none, v.numbers))
                ∙ ap some v.pointer
                ∙ sym (slot_of-freed c))
        | inr d ↦ get_or-set_ne once b j p none (λ e. d (sym e)) ∙ (elim (same_or_not j a) [
          | inl e ↦
              subst (λ i. get_or once i none ≡ slot_of (suc c) i) (sym e)
                (get_or-set_self s.rwnd.wndw a none none (omega (arith, v.numbers))
                  ∙ sym (slot_of-gone c))
          | inr n ↦
              get_or-set_ne s.rwnd.wndw a j none none (λ e. n (sym e))
              ∙ v.slots j h
              ∙ slot_of-kept c j h n d
        ])
      ]

  -- The flag of the tenth message from now on is that of the buffer that was read.
  freed-there : (k : ℕ) → k < 9 → there (suc c) freed k ≡ there c s (suc k)
  unfolding freed
  freed-there k h =
      get_or-set_ne s.receive_buffer_valid s.receive_buffer_pointer ((suc c + k) % 10) false false
        (λ e. omega (arith, v.pointer, e))
      ∙ ap (λ i. get_or s.receive_buffer_valid i false)
          (let same : (suc c + k) % 10 ≡ (c + suc k) % 10 = omega arith in same)

  freed-last : there (suc c) freed 9 ≡ false
  unfolding freed
  freed-last =
      ap (λ i. get_or (set s.receive_buffer_valid s.receive_buffer_pointer false) i false)
        (let same : (suc c + 9) % 10 ≡ s.receive_buffer_pointer = omega (arith, v.pointer) in same)
      ∙ get_or-set_self s.receive_buffer_valid s.receive_buffer_pointer false false
          (omega (arith, v.pointer, v.flags))

  freed-before :
      (k : ℕ) → k < 10 → there (suc c) freed k ≡ true → (k < 9) × (there c s (suc k) ≡ true)
  freed-before k h t = elim (same_or_not k 9) [
    | inl e ↦ absurd (true≢false (sym t ∙ ap (there (suc c) freed) e ∙ freed-last))
    | inr d ↦ (omega arith, sym (freed-there k (omega arith)) ∙ t)
  ]

  freed-Holding : Holding M (suc c) freed
  unfolding freed
  freed-Holding = record {
    numbers =
        length-set (set s.rwnd.wndw (seq_number c) none) ((seq_number c + 10) % 256)
          (some s.receive_buffer_pointer)
        ∙ length-set s.rwnd.wndw (seq_number c) none
        ∙ v.numbers;
    flags = length-set s.receive_buffer_valid s.receive_buffer_pointer false ∙ v.flags;
    buffers = v.buffers;
    sizes = v.sizes;
    pointer = omega (arith, v.pointer);
    claimed = v.claimed;
    slots = freed-slots;
    length_kept = λ k h t.
        let u = freed-before k h t in
        subst (λ m. get_or s.len_of_msg_receive_buffer (m % 10) 0 ≡ length (M m))
          (let same : c + suc k ≡ suc c + k = omega arith in same)
          (v.length_kept (suc k) (omega (arith, u.0)) u.1);
    text_kept = λ k h t.
        let u = freed-before k h t in
        subst (λ m. take (length (M m)) (get_or s.receive_buffer (m % 10) []) ≡ M m)
          (let same : c + suc k ≡ suc c + k = omega arith in same)
          (v.text_kept (suc k) (omega (arith, u.0)) u.1);
  }

  freed-HasRun : (run : ℕ) → HasRun c (suc run) s → HasRun (suc c) run freed
  freed-HasRun run w = record {
    short = omega (arith, w.short);
    complete = λ k h. freed-there k (omega (arith, w.short)) ∙ w.complete (suc k) (omega arith);
    open_slot = λ h. elim (same_or_not run 9) [
      | inl e ↦ ap (there (suc c) freed) e ∙ freed-last
      | inr d ↦ freed-there run (omega (arith, w.short)) ∙ w.open_slot (omega (arith, w.short))
    ];
  }

take_whole_or_less : (len n : ℕ) → n ≤ len → min_len len n ≡ n
take_whole_or_less len n h = ground arith

freed-Receiving :
    (M : ℕ → List ℕ) (c : ℕ) (s : SmEntry) (v : Receiving M c s)
    → there c s 0 ≡ true
    → Receiving M (suc c) (freed M c s v.holding)
unfolding freed
freed-Receiving M c s v t =
    let some_run : v.run ≢ 0 =
      λ e. true≢false (sym t ∙ ap (there c s) (sym e) ∙ v.has_run.open_slot (omega (arith, e))) in
    record {
      holding = freed-Holding M c s v.holding;
      run = v.run - 1;
      has_run = freed-HasRun M c s v.holding (v.run - 1) (
          subst (λ r. HasRun c r s) (let same : v.run ≡ suc (v.run - 1) = omega arith in same)
            v.has_run);
      started =
          v.started
          ∙ ap seq_number (let same : c + v.run ≡ suc c + (v.run - 1) = omega arith in same);
    }

-- With room for it, the application gets the next message once it is there.
pub k_recvfrom-next :
    (M : ℕ → List ℕ) (c len : ℕ) (s : SmEntry)
    → Receiving M c s
    → length (M c) ≤ len
    → there c s 0 ≡ true
    → (s' : SmEntry) × (k_recvfrom_first len s ≡ ok (M c) s') × Receiving M (suc c) s'
unfolding k_recvfrom_first freed
k_recvfrom-next M c len s v room t =
    let zero_there : (c + 0) % 10 ≡ s.receive_buffer_pointer = omega (arith, v.holding.pointer) in
    let here : c + 0 ≡ c = omega arith in
    let flag : get_or s.receive_buffer_valid s.receive_buffer_pointer false ≡ true =
      ap (λ i. get_or s.receive_buffer_valid i false) (sym zero_there) ∙ t in
    let size : get_or s.len_of_msg_receive_buffer s.receive_buffer_pointer 0 ≡ length (M c) =
      ap (λ i. get_or s.len_of_msg_receive_buffer i 0) (sym zero_there)
      ∙ v.holding.length_kept 0 (omega arith) t
      ∙ ap (λ m. length (M m)) here in
    let text : take (length (M c)) (get_or s.receive_buffer s.receive_buffer_pointer []) ≡ M c =
      ap (λ i. take (length (M c)) (get_or s.receive_buffer i [])) (sym zero_there)
      ∙ subst (λ m. take (length (M m)) (get_or s.receive_buffer ((c + 0) % 10) []) ≡ M m) here
          (v.holding.text_kept 0 (omega arith) t) in
    (
      freed M c s v.holding,
      if_false s.is_free _ _ v.holding.claimed
          ∙ if_true (get_or s.receive_buffer_valid s.receive_buffer_pointer false) _ _ flag
          ∙ ap (λ o. read_at len o s) (seq_of-pointer M c s v.holding)
          ∙ ap (λ b. ok b (freed M c s v.holding))
              (ap (λ n. take (min_len len n) (get_or s.receive_buffer s.receive_buffer_pointer []))
                  size
                ∙ ap (λ n. take n (get_or s.receive_buffer s.receive_buffer_pointer []))
                    (take_whole_or_less len (length (M c)) room)
                ∙ text),
      freed-Receiving M c s v t,
    )

-- Before, it is told that there is none.
pub k_recvfrom-early :
    (M : ℕ → List ℕ) (c len : ℕ) (s : SmEntry)
    → Receiving M c s
    → there c s 0 ≡ false
    → k_recvfrom_first len s ≡ err enomessage
unfolding k_recvfrom_first
k_recvfrom-early M c len s v t =
    let zero_there : (c + 0) % 10 ≡ s.receive_buffer_pointer = omega (arith, v.holding.pointer) in
    if_false s.is_free _ _ v.holding.claimed
    ∙ if_false (get_or s.receive_buffer_valid s.receive_buffer_pointer false) _ _
        (ap (λ i. get_or s.receive_buffer_valid i false) (sym zero_there) ∙ t)
