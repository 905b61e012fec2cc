-- ===== src/KtpFirst/Files.antt =====
-- The applications user1.c and user2.c of "Assignment 4 Initial": a file over the calls.
use networks_lab_cs39006_spr.Prelude.{
  ℕ, suc, ◌+◌, ◌-◌, ◌≤◌, ◌<◌, ◌≡◌, ◌≢◌, refl, ap, ap₂, ◌∙◌, Bool, true, false, List, [], ◌∷◌, ◌++◌,
  map, some, ltb, ◌==◌, if◌then◌else◌, if_true, if_false, ==-ne, length, All, arith, strcmp_eq,
}
use networks_lab_cs39006_spr.KtpFirst.Types.{SmEntry}
use networks_lab_cs39006_spr.KtpFirst.Socket.{fault, free_seq, k_sendto_first, put_at}
use networks_lab_cs39006_spr.KtpFirst.Window.{seq_number}
use networks_lab_cs39006_spr.KtpFirst.Queueing.{free_seq-Sending}
use networks_lab_cs39006_spr.KtpFirst.Accepted.{sent, free_index-Sending}
use networks_lab_cs39006_spr.KtpFirst.Course.{Reach, Reach-Running}

-- A piece of the file behind the digit 0.
abbrev pub piece_message : List ℕ → List ℕ
piece_message piece = b'0' ∷ piece

abbrev pub end_message : List ℕ
end_message = b'1' ∷ []

-- The messages that user1.c sends for what `read` returns, up to nothing, each until it is accepted.
unfoldable pub sent_messages : List (List ℕ) → List (List ℕ)
sent_messages [] = end_message ∷ []
sent_messages ([] ∷ reads) = end_message ∷ []
sent_messages ((c ∷ cs) ∷ reads) = piece_message (c ∷ cs) ∷ sent_messages reads

-- What `k_recvfrom` returns: bytes, ENOMESSAGE, or another error.
pub data Received : Type 0 where
  got : List ℕ → Received
  no_message failed : Received

-- What is written to the file, and whether the end was received.
pub record Output : Type 0 where
  pub bytes : List ℕ
  pub ended : Bool

abbrev pub after_write : List ℕ → Output → Output
after_write cs rest = record { bytes = cs ++ rest.bytes; ended = rest.ended }

-- The loop of user2.c. No bytes at all are asked for again.
unfoldable pub write_messages : List Received → Output
write_messages [] = record { bytes = []; ended = false }
write_messages (no_message ∷ results) = write_messages results
write_messages (failed ∷ results) = record { bytes = []; ended = false }
write_messages (got [] ∷ results) = write_messages results
write_messages (got (c ∷ cs) ∷ results) =
    let rest = after_write cs (write_messages results) in
    if c == b'1' then record { bytes = []; ended = true } else rest

-- No result is an error but ENOMESSAGE.
abbrev pub NoFailure : List Received → Type 0
NoFailure [] = Unit
NoFailure (no_message ∷ results) = NoFailure results
NoFailure (failed ∷ results) = ⊥
NoFailure (got m ∷ results) = NoFailure results

abbrev pub messages_of : List Received → List (List ℕ)
messages_of [] = []
messages_of (no_message ∷ results) = messages_of results
messages_of (failed ∷ results) = messages_of results
messages_of (got m ∷ results) = m ∷ messages_of results

abbrev pub all_bytes : List (List ℕ) → List ℕ
all_bytes [] = []
all_bytes (piece ∷ pieces) = piece ++ all_bytes pieces

write_messages-messages_of :
    (results : List Received)
    → NoFailure results
    → write_messages results ≡ write_messages (map got (messages_of results))
unfolding write_messages
write_messages-messages_of [] h = refl
write_messages-messages_of (no_message ∷ results) h = write_messages-messages_of results h
write_messages-messages_of (failed ∷ results) h = absurd h
write_messages-messages_of (got [] ∷ results) h = write_messages-messages_of results h
write_messages-messages_of (got (c ∷ cs) ∷ results) h =
    ap (λ w. if c == b'1' then record { bytes = []; ended = true } else after_write cs w)
      (write_messages-messages_of results h)

write_messages-file :
    (pieces : List (List ℕ))
    → All (λ p. 0 < length p) pieces
    → write_messages (map got (sent_messages pieces))
      ≡ record { bytes = all_bytes pieces; ended = true }
unfolding write_messages sent_messages
write_messages-file [] h = refl
write_messages-file ([] ∷ pieces) h = absurd (omega (arith, h.0))
write_messages-file ((c ∷ cs) ∷ pieces) h =
    ap (after_write (c ∷ cs)) (write_messages-file pieces h.1)

-- Where the calls return just the messages sent for some pieces, in order, what is written is the
-- pieces, and the end is seen.
pub write_messages-sent_messages :
    (pieces : List (List ℕ)) (results : List Received)
    → All (λ p. 0 < length p) pieces
    → NoFailure results
    → messages_of results ≡ sent_messages pieces
    → write_messages results ≡ record { bytes = all_bytes pieces; ended = true }
write_messages-sent_messages pieces results h f e =
    write_messages-messages_of results f
    ∙ ap (λ ms. write_messages (map got ms)) e
    ∙ write_messages-file pieces h

-- In every state of such a run in which fewer than ten messages wait, the call with which the
-- sending application passes a full piece of 512 bytes on, with its digit in front, copies past
-- the end of a buffer.
pub k_sendto_first-piece_message :
    (M : ℕ → List ℕ) (a n dest_port : ℕ) (dest_ip piece : List ℕ) (s : SmEntry)
    → ((i : ℕ) → length (M i) ≤ 509)
    → Reach M a n s
    → strcmp_eq s.ip_addr dest_ip ≡ true
    → s.port ≡ dest_port
    → n < a + 10
    → length piece ≡ 512
    → k_sendto_first dest_ip dest_port (piece_message piece) s ≡ fault
k_sendto_first-piece_message M a n dest_port dest_ip piece s short r ip port few full =
    let w = Reach-Running M a n s short r in
    let v = w.sending in
    let free : s.send_buffer_size ≢ 0 = omega (arith, few, v.room, v.before) in
    let (index, found) = free_index-Sending M a n s v free in
    let number : free_seq 256 s.swnd.start_seq s.swnd ≡ some (seq_number n) =
      ap (λ j. free_seq 256 j s.swnd) w.started
      ∙ free_seq-Sending M (n - a) 256 a a n s (omega arith) (omega (arith, v.before))
          (omega (arith, few)) (omega (arith, few)) v in
    sent (λ i. piece_message piece) 0 dest_port dest_ip s ip port
    ∙ if_false (s.send_buffer_size == 0) _ _ (==-ne s.send_buffer_size 0 free)
    ∙ ap₂ (λ x y. put_at x y (piece_message piece) s) number found
    ∙ if_true (ltb 512 (suc (length piece))) _ _ (ground (arith, full))
