-- ===== src/KtpFirst/Accepted.antt =====
-- `k_sendto` of the first version takes a message whenever fewer than ten wait.
use networks_lab_cs39006_spr.Prelude.{
  ℕ, zero, suc, ◌+◌, ◌-◌, ◌%◌, ◌≤◌, ◌<◌, ◌≡◌, ◌≢◌, ◌⊎◌, inl, inr, refl, sym, ap, ap₂, ◌∙◌, true,
  not, ◌||◌, List, [], ◌∷◌, Option, none, some, some-injective, ltb, ◌==◌, if◌then◌else◌, if_true,
  if_false, Bool-cases, Option-cases, ==_iff, ==-ne, get_or, length, strcmp_eq, arith,
}
use networks_lab_cs39006_spr.Prelude.Pigeonhole.{pigeonhole}
use networks_lab_cs39006_spr.KtpFirst.Types.{SmEntry}
use networks_lab_cs39006_spr.KtpFirst.Socket.{
  ok, err, enospace, free_seq, uses_index, free_index, put_message, put_at, k_sendto_first,
}
use networks_lab_cs39006_spr.KtpFirst.Window.{seq_number}
use networks_lab_cs39006_spr.KtpFirst.Outbox.{Sending}
use networks_lab_cs39006_spr.KtpFirst.Queueing.{free_seq-Sending, free_index-unused, queued-Sending}

-- A buffer in use has a number.
used_by :
    (index : ℕ) (os : List (Option ℕ))
    → uses_index index os ≡ true
    → (j : ℕ) × (j < length os) × (get_or os j none ≡ some index)
unfolding uses_index
used_by index [] e = cc
used_by index (none ∷ os) e = let (j, h, q) = used_by index os e in (suc j, omega (arith, h), q)
used_by index (some i ∷ os) e = elim (Bool-cases (index == i)) [
  | inl t ↦ (0, omega arith, ap some (sym ((==_iff index i).0 t)))
  | inr t ↦
      (let (j, h, q) = used_by index os (ground (arith, e, t)) in (suc j, omega (arith, h), q))
]

-- With no free buffer, all are in use.
all_used :
    (n i : ℕ) (os : List (Option ℕ))
    → free_index n i os ≡ none
    → (k : ℕ) → i ≤ k
    → k < i + n
    → uses_index k os ≡ true
unfolding free_index
all_used zero i os e k l h = absurd (omega arith)
all_used (suc n) i os e k l h = elim (Bool-cases (uses_index i os)) [
  | inl t ↦ elim (i_or_later i k l) [
    | inl q ↦ ap (λ m. uses_index m os) (sym q) ∙ t
    | inr p ↦
        all_used n (suc i) os (sym (if_true (uses_index i os) _ (some i) t) ∙ e) k p (omega arith)
  ]
  | inr t ↦ absurd (cc (if_false (uses_index i os) (free_index n (suc i) os) (some i) t, e))
]
  where
    i_or_later : (i k : ℕ) → i ≤ k → (i ≡ k) ⊎ (suc i ≤ k)
    i_or_later i k l = ground arith

module _ (M : ℕ → List ℕ) (a n : ℕ) (s : SmEntry) (v : Sending M a n s) where
  -- The message that a number with a buffer belongs to.
  pub message_of :
      (j index : ℕ)
      → j < 256
      → get_or s.swnd.wndw j none ≡ some index
      → (i : ℕ) × (a ≤ i) × (i < n) × (seq_number i ≡ j)
  message_of j index h e =
      let i : ℕ = a + (j + 255 + 256 - a % 256) % 256 in
      elim (below_or_not i n) [
        | inl p ↦ (i, omega arith, p, omega (arith, h))
        | inr q ↦ absurd (cc (e, v.bare j h (λ k l m f. omega (arith, l, m, f, q, h, v.room))))
      ]
    where
      below_or_not : (i n : ℕ) → (i < n) ⊎ (n ≤ i)
      below_or_not i n = ground arith

  module _ (none_free : free_index 10 0 s.swnd.wndw ≡ none) where
    holder :
        (k : ℕ)
        → k < 10
        → (i : ℕ) × (a ≤ i) × (i < n) × (get_or s.swnd.wndw (seq_number i) none ≡ some k)
    holder k h =
        let (j, l, e) =
          used_by k s.swnd.wndw (all_used 10 0 s.swnd.wndw none_free k (omega arith) h) in
        let (i, p, q, f) = message_of j k (omega (arith, l, v.numbers)) e in
        (i, p, q, ap (λ m. get_or s.swnd.wndw m none) f ∙ e)

    -- How far the holder of a buffer is from the first message that waits.
    abbrev place : (k : ℕ) → (k < 10) ⊎ (10 ≤ k) → ℕ
    place k (inl h) = (holder k h).0 - a
    place k (inr h) = k

    below_ten : (k : ℕ) → (k < 10) ⊎ (10 ≤ k)
    below_ten k = ground arith

    place_below : (k : ℕ) → k < 10 → (d : (k < 10) ⊎ (10 ≤ k)) → place k d < n - a
    place_below k h (inl l) = let (i, p, q, e) = holder k l in omega (arith, p, q)
    place_below k h (inr l) = absurd (omega arith)

    place_differ :
        (i j : ℕ)
        → i < 10
        → j < 10
        → (d : (i < 10) ⊎ (10 ≤ i)) → (d' : (j < 10) ⊎ (10 ≤ j)) → place i d ≡ place j d'
        → i ≡ j
    place_differ i j h l (inr p) d' e = absurd (omega arith)
    place_differ i j h l (inl p) (inr q) e = absurd (omega arith)
    place_differ i j h l (inl p) (inl q) e =
        let (x, x_from, x_to, x_has) = holder i p in
        let (y, y_from, y_to, y_has) = holder j q in
        let same : x ≡ y = omega (arith, e, x_from, y_from) in
        some-injective i j
          (sym x_has ∙ ap (λ m. get_or s.swnd.wndw (seq_number m) none) same ∙ y_has)

    ten_wait : 10 ≤ n - a
    ten_wait =
        pigeonhole 10 (n - a) (λ k. place k (below_ten k)) (λ k h. place_below k h (below_ten k))
          (λ i j h l. place_differ i j h l (below_ten i) (below_ten j))

  pub free_index-Sending :
      s.send_buffer_size ≢ 0 → (index : ℕ) × (free_index 10 0 s.swnd.wndw ≡ some index)
  free_index-Sending free = elim (Option-cases (free_index 10 0 s.swnd.wndw)) [
    | inl e ↦ absurd (omega (arith, ten_wait e, v.room, free))
    | inr e ↦ e
  ]

-- A call for the bound address.
pub sent :
    (M : ℕ → List ℕ) (n dest_port : ℕ) (dest_ip : List ℕ) (s : SmEntry)
    → strcmp_eq s.ip_addr dest_ip ≡ true
    → s.port ≡ dest_port
    → k_sendto_first dest_ip dest_port (M n) s ≡ (
        if s.send_buffer_size == 0
        then err enospace
        else put_at (free_seq 256 s.swnd.start_seq s.swnd) (free_index 10 0 s.swnd.wndw) (M n) s)
unfolding k_sendto_first
sent M n dest_port dest_ip s ip port =
    let same : (s.port == dest_port) ≡ true = (==_iff s.port dest_port).1 port in
    if_false (not (strcmp_eq s.ip_addr dest_ip) || not (s.port == dest_port)) _ _ (cc (ip, same))

-- A message while fewer than ten wait.
pub k_sendto_first-Sending :
    (M : ℕ → List ℕ) (a n dest_port : ℕ) (dest_ip : List ℕ) (s : SmEntry)
    → Sending M a n s
    → s.swnd.start_seq ≡ seq_number a
    → strcmp_eq s.ip_addr dest_ip ≡ true
    → s.port ≡ dest_port
    → length (M n) ≤ 512
    → (n < a + 10
        → (s' : SmEntry) × (k_sendto_first dest_ip dest_port (M n) s ≡ ok (length (M n)) s')
          × Sending M a (suc n) s'
          × (s'.swnd.start_seq ≡ seq_number a)
          × (s'.swnd.size ≡ s.swnd.size))
      × (a + 10 ≤ n → k_sendto_first dest_ip dest_port (M n) s ≡ err enospace)
unfolding k_sendto_first put_message
k_sendto_first-Sending M a n dest_port dest_ip s v start ip port short = (
  (λ few.
      let free : s.send_buffer_size ≢ 0 = omega (arith, few, v.room, v.before) in
      let (index, found) = free_index-Sending M a n s v free in
      let (low, high, un) = free_index-unused 10 0 index s.swnd.wndw found in
      let number : free_seq 256 s.swnd.start_seq s.swnd ≡ some (seq_number n) =
        ap (λ j. free_seq 256 j s.swnd) start
        ∙ free_seq-Sending M (n - a) 256 a a n s (omega arith) (omega (arith, v.before))
            (omega (arith, few)) (omega (arith, few)) v in
      (
        put_message (seq_number n) index (M n) s,
        sent M n dest_port dest_ip s ip port
            ∙ if_false (s.send_buffer_size == 0) _ _ (==-ne s.send_buffer_size 0 free)
            ∙ ap₂ (λ x y. put_at x y (M n) s) number found
            ∙ if_false (ltb 512 (length (M n))) _ _ (ground (arith, short)),
        queued-Sending M a n index s v free high un,
        start,
        refl,
      )),
  (λ full.
      sent M n dest_port dest_ip s ip port
      ∙ if_true (s.send_buffer_size == 0) _ _
          ((==_iff s.send_buffer_size 0).1 (omega (arith, full, v.room)))),
)
