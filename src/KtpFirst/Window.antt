-- ===== src/KtpFirst/Window.antt =====
-- The receive window of the first version: which buffer each sequence number has while message `c` of
-- the stream is the next to be read. Message `n` has the number `(n + 1) % 256`.
use networks_lab_cs39006_spr.Prelude.{
  ℕ, zero, suc, ◌+◌, ◌-◌, ◌%◌, ◌≤◌, ◌<◌, ◌≡◌, ◌⊎◌, ap, ◌∙◌, Bool, true, false, List, [], Option,
  none, some, ltb, if◌then◌else◌, if_true, if_false, get_or, length, take, arith, Bool-cases, inl,
  inr,
}
use networks_lab_cs39006_spr.KtpFirst.Types.{SmEntry}
use networks_lab_cs39006_spr.KtpFirst.Receiver.{next_seqno, index_at, is_there, advance_start}

abbrev pub seq_number : ℕ → ℕ
seq_number n = (n + 1) % 256

-- How far a sequence number is from that of message `c`.
abbrev pub distance : ℕ → ℕ → ℕ
distance c j = (j + 511 - c % 256) % 256

abbrev pub slot_of : ℕ → ℕ → Option ℕ
slot_of c j = if ltb (distance c j) 10 then some ((c + distance c j) % 10) else none

pub slot_of-message : (c k : ℕ) → k < 10 → slot_of c (seq_number (c + k)) ≡ some ((c + k) % 10)
slot_of-message c k h =
    let d : distance c (seq_number (c + k)) ≡ k = omega arith in
    if_true (ltb (distance c (seq_number (c + k))) 10) _ none (ground (arith, d))
    ∙ ap (λ e. some ((c + e) % 10)) d

pub slot_of-outside :
    (c n : ℕ) → (n < c) ⊎ (c + 10 ≤ n) → c ≤ n + 246 → n < c + 256 → slot_of c (seq_number n) ≡ none
slot_of-outside c n (inl h) l m =
    let d : 10 ≤ distance c (seq_number n) = omega arith in
    if_false (ltb (distance c (seq_number n)) 10) _ none (ground (arith, d))
slot_of-outside c n (inr h) l m =
    let d : 10 ≤ distance c (seq_number n) = omega arith in
    if_false (ltb (distance c (seq_number n)) 10) _ none (ground (arith, d))

pub slot_of-behind : (c : ℕ) → slot_of c (seq_number (c + 10)) ≡ none
slot_of-behind c =
    let d : distance c (seq_number (c + 10)) ≡ 10 = omega arith in
    if_false (ltb (distance c (seq_number (c + 10))) 10) _ none (ground (arith, d))

-- The messages of the stream from `c` on that are there.
abbrev pub there : ℕ → SmEntry → ℕ → Bool
there c s k = get_or s.receive_buffer_valid ((c + k) % 10) false

-- The buffers hold messages of the stream `M` from `c` on, the next one to be read.
pub record Holding (M : ℕ → List ℕ) (c : ℕ) (s : SmEntry) : Type 0 where
  pub numbers : length s.rwnd.wndw ≡ 256
  pub flags : length s.receive_buffer_valid ≡ 10
  pub buffers : length s.receive_buffer ≡ 10
  pub sizes : length s.len_of_msg_receive_buffer ≡ 10
  pub claimed : s.is_free ≡ false
  pub pointer : s.receive_buffer_pointer ≡ c % 10
  pub slots : (j : ℕ) → j < 256 → get_or s.rwnd.wndw j none ≡ slot_of c j
  pub length_kept :
      (k : ℕ)
      → k < 10
      → there c s k ≡ true
      → get_or s.len_of_msg_receive_buffer ((c + k) % 10) 0 ≡ length (M (c + k))
  pub text_kept :
      (k : ℕ)
      → k < 10
      → there c s k ≡ true
      → take (length (M (c + k))) (get_or s.receive_buffer ((c + k) % 10) []) ≡ M (c + k)

-- The first `run` of them are there, and the next is not.
pub record HasRun (c run : ℕ) (s : SmEntry) : Type 0 where
  pub short : run ≤ 10
  pub complete : (k : ℕ) → k < run → there c s k ≡ true
  pub open_slot : run < 10 → there c s run ≡ false

pub record Receiving (M : ℕ → List ℕ) (c : ℕ) (s : SmEntry) : Type 0 where
  pub holding : Holding M c s
  pub run : ℕ
  pub has_run : HasRun c run s
  pub started : s.rwnd.start_seq ≡ seq_number (c + run)

below_suc : (k m : ℕ) → k < suc m → (k < m) ⊎ (k ≡ m)
below_suc k m h = ground arith

-- The loop stops behind the messages that are there without a gap.
pub advance_start-HasRun :
    (c d m fuel : ℕ) (s : SmEntry)
    → ((j : ℕ) → j < 256 → get_or s.rwnd.wndw j none ≡ slot_of c j)
    → m + d ≡ 10
    → d < fuel
    → ((k : ℕ) → k < m → there c s k ≡ true)
    → (run : ℕ) × (advance_start fuel (seq_number (c + m)) s ≡ some (seq_number (c + run)))
      × HasRun c run s
unfolding advance_start
advance_start-HasRun c zero m zero s w e f h = absurd (omega arith)
advance_start-HasRun c (suc d) m zero s w e f h = absurd (omega arith)
advance_start-HasRun c zero m (suc fuel) s w e f h =
    let at : index_at s.rwnd (seq_number (c + m)) ≡ none =
      w (seq_number (c + m)) (omega arith)
      ∙ ap (λ k. slot_of c (seq_number (c + k))) (let ten : m ≡ 10 = omega arith in ten)
      ∙ slot_of-behind c in
    (
      m,
      if_false (is_there s.receive_buffer_valid (index_at s.rwnd (seq_number (c + m)))) _ _
          (ap (is_there s.receive_buffer_valid) at),
      record { short = omega arith; complete = h; open_slot = λ l. absurd (omega arith) },
    )
advance_start-HasRun c (suc d) m (suc fuel) s w e f h =
    let at : is_there s.receive_buffer_valid (index_at s.rwnd (seq_number (c + m))) ≡ there c s m =
      ap (is_there s.receive_buffer_valid)
        (w (seq_number (c + m)) (omega arith) ∙ slot_of-message c m (omega arith)) in
    elim (Bool-cases (there c s m)) [
      | inl t ↦
          (let more : (k : ℕ) → k < suc m → there c s k ≡ true =
              λ k l. elim (below_suc k m l) [ inl p ↦ h k p | inr p ↦ ap (there c s) p ∙ t ] in
            let (run, found, v) =
              advance_start-HasRun c d (suc m) fuel s w (omega arith) (omega arith) more in
            (
              run,
              if_true (is_there s.receive_buffer_valid (index_at s.rwnd (seq_number (c + m)))) _ _
                    (at ∙ t)
                  ∙ ap (λ j. advance_start fuel j s)
                      (let same : next_seqno (seq_number (c + m)) ≡ seq_number (c + suc m) =
                          omega arith in
                        same)
                  ∙ found,
              v,
            ))
      | inr t ↦ (
        m,
        if_false (is_there s.receive_buffer_valid (index_at s.rwnd (seq_number (c + m)))) _ _
            (at ∙ t),
        record { short = omega arith; complete = h; open_slot = λ l. t },
      )
    ]
