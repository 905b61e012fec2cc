-- ===== src/KtpFirst/Arrivals.antt =====
-- A message that arrives at a window of the first version goes to its place.
use networks_lab_cs39006_spr.Prelude.{
  ℕ, ◌+◌, ◌-◌, ◌%◌, ◌≤◌, ◌<◌, ◌≡◌, ◌≢◌, ◌⊎◌, inl, inr, refl, sym, ap, ◌∙◌, subst, true, false, List,
  [], ◌∷◌, ◌++◌, Option, none, some, ◌==◌, if◌then◌else◌, if_true, if_false, ==_iff, ==-ne,
  Bool-cases, get_or, length, length-set, take, arith, get_or-set_self, get_or-set_ne,
}
use networks_lab_cs39006_spr.KtpFirst.Types.{SmEntry}
use networks_lab_cs39006_spr.KtpFirst.Receiver.{
  index_at, store_message, advance_start, started_at, take_data,
}
use networks_lab_cs39006_spr.KtpFirst.Window.{
  seq_number, slot_of-message, slot_of-outside, there, Holding, HasRun, Receiving,
  advance_start-HasRun,
}

pub take-length : (xs ys : List ℕ) → take (length xs) (xs ++ ys) ≡ xs
take-length [] ys = refl
take-length (x ∷ xs) ys = ap (λ r. x ∷ r) (take-length xs ys)

pub same_or_not : (k i : ℕ) → (k ≡ i) ⊎ (k ≢ i)
same_or_not k i = ground arith

module _ (M : ℕ → List ℕ) (c k : ℕ) (s : SmEntry) (h : k < 10) (v : Holding M c s) where
  stored : SmEntry
  stored = store_message ((c + k) % 10) (M (c + k)) s

  stored-there : there c stored k ≡ true
  unfolding store_message stored
  stored-there =
      get_or-set_self s.receive_buffer_valid ((c + k) % 10) true false (omega (arith, v.flags))

  stored-other : (i : ℕ) → i < 10 → i ≢ k → there c stored i ≡ there c s i
  unfolding store_message stored
  stored-other i l d =
      get_or-set_ne s.receive_buffer_valid ((c + k) % 10) ((c + i) % 10) true false
        (λ e. d (omega arith))

  stored-Holding : Holding M c stored
  unfolding store_message stored
  stored-Holding =
      let apart : (i : ℕ) → i < 10 → i ≢ k → (c + k) % 10 ≢ (c + i) % 10 =
        λ i l d e. d (omega arith) in
      record {
        numbers = v.numbers;
        flags = length-set s.receive_buffer_valid ((c + k) % 10) true ∙ v.flags;
        buffers = length-set s.receive_buffer ((c + k) % 10) _ ∙ v.buffers;
        sizes = length-set s.len_of_msg_receive_buffer ((c + k) % 10) _ ∙ v.sizes;
        pointer = v.pointer;
        claimed = v.claimed;
        slots = v.slots;
        length_kept = λ i l t. elim (same_or_not i k) [
          | inl e ↦
              subst
                (λ j. get_or stored.len_of_msg_receive_buffer ((c + j) % 10) 0 ≡ length (M (c + j)))
                (sym e)
                (get_or-set_self s.len_of_msg_receive_buffer ((c + k) % 10) (length (M (c + k))) 0
                  (omega (arith, v.sizes)))
          | inr d ↦
              get_or-set_ne s.len_of_msg_receive_buffer ((c + k) % 10) ((c + i) % 10) _ 0
                (apart i l d)
              ∙ v.length_kept i l (sym (stored-other i l d) ∙ t)
        ];
        text_kept = λ i l t. elim (same_or_not i k) [
          | inl e ↦
              subst
                (λ j.
                  take (length (M (c + j))) (get_or stored.receive_buffer ((c + j) % 10) [])
                  ≡ M (c + j))
                (sym e)
                (ap (take (length (M (c + k)))) (
                    get_or-set_self s.receive_buffer ((c + k) % 10) _ [] (omega (arith, v.buffers)))
                  ∙ take-length (M (c + k)) _)
          | inr d ↦
              ap (take (length (M (c + i))))
                (get_or-set_ne s.receive_buffer ((c + k) % 10) ((c + i) % 10) _ [] (apart i l d))
              ∙ v.text_kept i l (sym (stored-other i l d) ∙ t)
        ];
      }

  -- The window's start moves past what is there.
  stored-run :
      (r : ℕ)
      → HasRun c r s
      → (run : ℕ) × (advance_start 256 (seq_number (c + r)) stored ≡ some (seq_number (c + run)))
        × HasRun c run stored
  stored-run r w =
      advance_start-HasRun c (10 - r) r 256 stored stored-Holding.slots (omega (arith, w.short))
        (omega arith)
        (λ i l. elim (same_or_not i k) [
          | inl e ↦ ap (there c stored) e ∙ stored-there
          | inr d ↦ stored-other i (omega (arith, w.short)) d ∙ w.complete i l
        ])

  -- A message behind a gap leaves the start where it is.
  gap-HasRun : (r : ℕ) → HasRun c r s → r ≢ k → HasRun c r stored
  gap-HasRun r w d = record {
    short = w.short;
    complete = λ i l. elim (same_or_not i k) [
      | inl e ↦ ap (there c stored) e ∙ stored-there
      | inr n ↦ stored-other i (omega (arith, w.short)) n ∙ w.complete i l
    ];
    open_slot = λ l. stored-other r l d ∙ w.open_slot l;
  }

restart-Receiving :
    (M : ℕ → List ℕ) (c run : ℕ) (s : SmEntry)
    → Holding M c s
    → HasRun c run s
    → Receiving M c (record s { rwnd = record (s.rwnd) { start_seq = seq_number (c + run) } })
restart-Receiving M c run s v w = record {
  holding = record {
    numbers = v.numbers;
    flags = v.flags;
    buffers = v.buffers;
    sizes = v.sizes;
    pointer = v.pointer;
    claimed = v.claimed;
    slots = v.slots;
    length_kept = v.length_kept;
    text_kept = v.text_kept;
  };
  run = run;
  has_run = record { short = w.short; complete = w.complete; open_slot = w.open_slot };
  started = refl;
}

take_data-inside :
    (M : ℕ → List ℕ) (c k : ℕ) (s : SmEntry)
    → k < 10
    → Receiving M c s
    → (s' : SmEntry) × (take_data (seq_number (c + k)) (M (c + k)) s ≡ some s')
      × Receiving M c s'
      × (there c s' k ≡ true)
unfolding take_data stored
take_data-inside M c k s h v =
    let index : ℕ = (c + k) % 10 in
    let after : SmEntry = stored M c k s h v.holding in
    let act : Option ℕ → Option SmEntry = λ o. elim o [
      | none ↦ some s
      | some i ↦
          (let placed = store_message i (M (c + k)) s in
            if seq_number (c + k) == s.rwnd.start_seq
            then started_at placed (advance_start 256 s.rwnd.start_seq placed)
            else if get_or s.receive_buffer_valid i false
            then some s
            else some placed)
    ] in
    let at : index_at s.rwnd (seq_number (c + k)) ≡ some index =
      v.holding.slots (seq_number (c + k)) (omega arith) ∙ slot_of-message c k h in
    elim (same_or_not v.run k) [
      | inl e ↦
          (let (run, found, w) = stored-run M c k s h v.holding v.run v.has_run in
            let start : seq_number (c + k) ≡ s.rwnd.start_seq =
              ap (λ r. seq_number (c + r)) (sym e) ∙ sym v.started in
            (
              record after { rwnd = record (after.rwnd) { start_seq = seq_number (c + run) } },
              ap act at
                  ∙ if_true (seq_number (c + k) == s.rwnd.start_seq) _ _
                      ((==_iff (seq_number (c + k)) s.rwnd.start_seq).1 start)
                  ∙ ap (started_at after) (ap (λ j. advance_start 256 j after) v.started ∙ found),
              restart-Receiving M c run after (stored-Holding M c k s h v.holding) w,
              stored-there M c k s h v.holding,
            ))
      | inr d ↦
          (let elsewhere : seq_number (c + k) ≢ s.rwnd.start_seq =
              λ e. d (omega (arith, e, v.started, v.has_run.short)) in
            let other =
              ap act at
              ∙ if_false (seq_number (c + k) == s.rwnd.start_seq) _ _
                  (==-ne (seq_number (c + k)) s.rwnd.start_seq elsewhere) in
            elim (Bool-cases (there c s k)) [
              | inl t ↦ (s, other ∙ if_true (get_or s.receive_buffer_valid index false) _ _ t, v, t)
              | inr t ↦ (
                after,
                other ∙ if_false (get_or s.receive_buffer_valid index false) _ _ t,
                record {
                  holding = stored-Holding M c k s h v.holding;
                  run = v.run;
                  has_run = gap-HasRun M c k s h v.holding v.run v.has_run d;
                  started = v.started;
                },
                stored-there M c k s h v.holding,
              )
            ])
    ]

-- A message that the application has read already is not taken again, and none too far ahead is.
take_data-outside :
    (M : ℕ → List ℕ) (c n : ℕ) (s : SmEntry)
    → (n < c) ⊎ (c + 10 ≤ n)
    → c ≤ n + 246
    → n < c + 256
    → Receiving M c s
    → take_data (seq_number n) (M n) s ≡ some s
unfolding take_data
take_data-outside M c n s h l m v =
    let act : Option ℕ → Option SmEntry = λ o. elim o [
      | none ↦ some s
      | some i ↦
          (let placed = store_message i (M n) s in
            if seq_number n == s.rwnd.start_seq
            then started_at placed (advance_start 256 s.rwnd.start_seq placed)
            else if get_or s.receive_buffer_valid i false
            then some s
            else some placed)
    ] in
    ap act (v.holding.slots (seq_number n) (omega arith) ∙ slot_of-outside c n h l m)

out_or_in : (n c : ℕ) → ((n < c) ⊎ (c + 10 ≤ n)) ⊎ ((c ≤ n) × (n < c + 10))
out_or_in n c = ground arith

pub take_data-Receiving :
    (M : ℕ → List ℕ) (c n : ℕ) (s : SmEntry)
    → c ≤ n + 246
    → n < c + 256
    → Receiving M c s
    → (s' : SmEntry) × (take_data (seq_number n) (M n) s ≡ some s') × Receiving M c s'
take_data-Receiving M c n s l h v = elim (out_or_in n c) [
  | inl t ↦ (s, take_data-outside M c n s t l h v, v)
  | inr t ↦
      (let k : ℕ = n - c in
        let same : c + k ≡ n = omega (arith, t.0) in
        subst
          (λ m. (s' : SmEntry) × (take_data (seq_number m) (M m) s ≡ some s') × Receiving M c s')
          same (let r = take_data-inside M c k s (omega (arith, same, t.1)) v in (r.0, r.1, r.2)))
]

-- The message that is to be read next is there once it has arrived.
pub take_data-next :
    (M : ℕ → List ℕ) (c : ℕ) (s : SmEntry)
    → Receiving M c s
    → (s' : SmEntry) × (take_data (seq_number c) (M c) s ≡ some s')
      × Receiving M c s'
      × (there c s' 0 ≡ true)
take_data-next M c s v =
    subst
      (λ m.
        (s' : SmEntry) × (take_data (seq_number m) (M m) s ≡ some s')
        × Receiving M c s'
        × (there c s' 0 ≡ true))
      (let same : c + 0 ≡ c = omega arith in same) (take_data-inside M c 0 s (omega arith) v)
