-- ===== src/KtpFirst/Outgoing.antt =====
-- What the first version's sending thread sends, and the numbers that it goes through.
use networks_lab_cs39006_spr.Prelude.{
  ℕ, zero, suc, ◌+◌, ◌%◌, ◌≤◌, ◌<◌, ◌≡◌, ◌≢◌, ◌⊎◌, inl, inr, ap, ◌∙◌, subst, false, List, [], ◌∷◌,
  ◌++◌, Option, some, ltb, ◌==◌, if_true, if_false, ==_iff, ==-ne, get_or, length, take, take-whole,
  arith, All,
}
use networks_lab_cs39006_spr.KtpFirst.Types.{SmEntry, Action, sendto}
use networks_lab_cs39006_spr.KtpFirst.Packet.{bits, data_packet}
use networks_lab_cs39006_spr.KtpFirst.Receiver.{next_seqno}
use networks_lab_cs39006_spr.KtpFirst.Sender.{before_seqs, window_seqs}
use networks_lab_cs39006_spr.KtpFirst.Window.{seq_number}
use networks_lab_cs39006_spr.KtpFirst.Arrivals.{same_or_not}
use networks_lab_cs39006_spr.KtpFirst.Outbox.{Waits, Sending}

-- Some element has the property.
abbrev pub OneOf {ℓ} : {A : Type ℓ} → (A → Type 0) → List A → Type 0
OneOf P [] = ⊥
OneOf P (x ∷ xs) = P x ⊎ OneOf P xs

-- The action sends message `i` of the stream, with its number, to the socket's other end.
pub record Carries (M : ℕ → List ℕ) (s : SmEntry) (i : ℕ) (action : Action) : Type 0 where
  pub packet : List ℕ
  pub made : data_packet (seq_number i) (length (M i)) (M i) ≡ some packet
  pub sent : action ≡ sendto s.udp_sockid s.ip_addr s.port packet

-- It sends a message that waits.
abbrev pub CarriesWaiting : (M : ℕ → List ℕ) → (a n : ℕ) → SmEntry → Action → Type 0
CarriesWaiting M a n s action = (i : ℕ) × (a ≤ i) × (i < n) × Carries M s i action

-- `d` sequence numbers from `j` on.
abbrev pub run : (d j : ℕ) → List ℕ
run zero j = []
run (suc d) j = j ∷ run d (next_seqno j)

pub window_seqs-run :
    (d fuel j : ℕ)
    → d < fuel
    → d < 256
    → j < 256
    → window_seqs fuel ((j + d) % 256) j ≡ some (run d j)
unfolding window_seqs
window_seqs-run d zero j h m l = absurd (omega arith)
window_seqs-run zero (suc fuel) j h m l =
    let same : j ≡ (j + 0) % 256 = omega arith in
    if_true (j == (j + 0) % 256) _ _ ((==_iff j ((j + 0) % 256)).1 same)
window_seqs-run (suc d) (suc fuel) j h m l =
    let ne : j ≢ (j + suc d) % 256 = λ e. omega (arith, e) in
    let last : (j + suc d) % 256 ≡ (next_seqno j + d) % 256 = omega arith in
    if_false (j == (j + suc d) % 256) _ _ (==-ne j ((j + suc d) % 256) ne)
    ∙ ap (before_seqs j) (
        ap (λ k. window_seqs fuel k (next_seqno j)) last
        ∙ window_seqs-run d fuel (next_seqno j) (omega arith) (omega arith) (omega arith))

-- The numbers of the window are below 256.
pub run-All : (d j : ℕ) → j < 256 → All (λ k. k < 256) (run d j)
run-All zero j h = tt
run-All (suc d) j h = (h, run-All d (next_seqno j) (omega arith))

-- The numbers of the messages from `a` up to `a + d`.
pub run-OneOf :
    (d a i : ℕ) → a ≤ i → i < a + d → OneOf (λ k. k ≡ seq_number i) (run d (seq_number a))
run-OneOf zero a i l h = absurd (omega arith)
run-OneOf (suc d) a i l h = elim (same_or_not a i) [
  | inl e ↦ inl (ap seq_number e)
  | inr ne ↦ inr (
      subst (λ k. OneOf (λ m. m ≡ seq_number i) (run d k))
        (let next : seq_number (suc a) ≡ next_seqno (seq_number a) = omega arith in next)
        (run-OneOf d (suc a) i (omega arith) (omega arith)))
]

-- The packet made from a buffer is the packet of the message that waits there.
pub packet_of :
    (M : ℕ → List ℕ) (i index : ℕ) (s : SmEntry)
    → length (M i) ≤ 509
    → Waits M s i index
    → (packet : List ℕ) × (data_packet
          (seq_number i)
          (get_or s.len_of_msg_send_buffer index 0)
          (get_or s.send_buffer index [])
        ≡ some packet)
      × (data_packet (seq_number i) (length (M i)) (M i) ≡ some packet)
unfolding data_packet
packet_of M i index s h w =
    let packet : List ℕ = b'1' ∷ bits 8 (seq_number i) ++ bits 10 (length (M i)) ++ M i in
    let fits : (k : ℕ) → k ≤ 509 → ltb 528 (19 + k) ≡ false = λ k p. ground arith in
    let whole : take (length (M i)) (M i) ≡ M i = take-whole (length (M i)) (M i) (omega arith) in
    let made : List ℕ → Option (List ℕ) =
      λ bytes. some (b'1' ∷ bits 8 (seq_number i) ++ bits 10 (length (M i)) ++ bytes) in
    (
      packet,
      ap (λ k. data_packet (seq_number i) k (get_or s.send_buffer index [])) w.length_kept
          ∙ if_false (ltb 528 (19 + length (M i))) _ _ (fits (length (M i)) h)
          ∙ ap made w.text_kept,
      if_false (ltb 528 (19 + length (M i))) _ _ (fits (length (M i)) h) ∙ ap made whole,
    )

abbrev pub at : List (Option ℕ) → SmEntry → SmEntry
at times s = record s { last_sent_time = times }

-- The times are no part of what waits.
pub times-Sending :
    (M : ℕ → List ℕ) (a n : ℕ) (times : List (Option ℕ)) (s : SmEntry)
    → Sending M a n s
    → Sending M a n (at times s)
times-Sending M a n times s v = record {
  numbers = v.numbers;
  buffers = v.buffers;
  sizes = v.sizes;
  claimed = v.claimed;
  before = v.before;
  room = v.room;
  waits = λ i l m.
      let (index, w) = v.waits i l m in
      (
        index,
        record {
          inside = w.inside;
          numbered = w.numbered;
          length_kept = w.length_kept;
          text_kept = w.text_kept;
        },
      );
  apart = v.apart;
  bare = v.bare;
}
