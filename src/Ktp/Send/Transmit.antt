-- ===== src/Ktp/Send/Transmit.antt =====
-- The packets that leave: `transmit_segment`, and the round of `SThread` around it.
use networks_lab_cs39006_spr.Prelude.{
  ℕ, zero, suc, ◌+◌, ◌%◌, ◌<◌, ◌≡◌, refl, some, ◌==◌, ==_iff, ==-ne, arith, ap, ◌∙◌, subst, if_true,
  if_false, List, [], ◌∷◌, ◌++◌, length, get_elem?,
}
use native.Mathlib.Decide.{ℕ_discrete}
use networks_lab_cs39006_spr.Ktp.Types.{KtpSocket, Action, sendto, max_message, seq_num}
use networks_lab_cs39006_spr.Ktp.Window.{next_seq, distance}
use networks_lab_cs39006_spr.Ktp.Packet.{create_dat_packet}
use networks_lab_cs39006_spr.Ktp.Socket.{slot}
use networks_lab_cs39006_spr.Ktp.Sender.{send_data, prepend_data, transmit_segment}
use networks_lab_cs39006_spr.Ktp.Receive.Offset.{dat_packet}

-- The packet of one sequence number, to the peer of the socket.
abbrev pub data_of : KtpSocket → ℕ → Action
data_of s seq = sendto s.sockfd s.dest (dat_packet seq (slot s.send_buffer (seq % max_message)))

send_data_lem : (s : KtpSocket) (seq : ℕ) → send_data s seq ≡ data_of s seq ∷ []
unfolding send_data create_dat_packet
send_data_lem s seq = refl

-- One packet for each number of the segment, in order.
pub record Segment (s : KtpSocket) (first count : ℕ) (actions : List Action) : Type 0 where
  pub counted : length actions ≡ count
  pub each : (k : ℕ) → k < count → get_elem? actions k ≡ some (data_of s ((first + k) % seq_num))

Segment-cons :
    (s : KtpSocket) (first count : ℕ) (actions : List Action)
    → first < seq_num
    → Segment s (next_seq first) count actions
    → Segment s first (suc count) (data_of s first ∷ actions)
Segment-cons s first count actions h g = record { counted = ap suc g.counted; each = nth }
  where
    nth :
        (k : ℕ)
        → k < suc count
        → get_elem? (data_of s first ∷ actions) k ≡ some (data_of s ((first + k) % seq_num))
    nth zero p =
        ap (λ n. some (data_of s n))
          (let same : first ≡ (first + 0) % seq_num = omega arith in same)
    nth (suc k) p =
        g.each k (omega arith)
        ∙ ap (λ n. some (data_of s n))
            (let same : (next_seq first + k) % seq_num ≡ (first + suc k) % seq_num = omega arith in
              same)

-- With one round of fuel for each number, the transmission ends and sends one packet for each
-- number from the first up to the one before the last, in order, each with the message of its slot
-- to the socket's peer.
pub transmit_segment_lem :
    (fuel : ℕ) (s : KtpSocket) (first last : ℕ)
    → first < seq_num
    → last < seq_num
    → distance first last < fuel
    → (actions : List Action) × (transmit_segment fuel s first last ≡ some actions)
      × Segment s first (distance first last) actions
unfolding transmit_segment
transmit_segment_lem zero s first last hf hl f = absurd (omega arith)
transmit_segment_lem (suc fuel) s first last hf hl f = elim (ℕ_discrete first last) [
  | yes done ↦ (
    [],
    if_true (first == last) _ _ ((==_iff _ _).1 done),
    record { counted = omega arith; each = λ k p. absurd (omega arith) },
  )
  | no more ↦
      let (actions, r, g) =
        transmit_segment_lem fuel s (next_seq first) last (omega arith) hl (omega arith) in
      (
        data_of s first ∷ actions,
        if_false (first == last) _ _ (==-ne _ _ more)
            ∙ ap (prepend_data s first) r
            ∙ ap (λ a. some (a ++ actions)) (send_data_lem s first),
        subst (λ n. Segment s first n (data_of s first ∷ actions))
            (let count : suc (distance (next_seq first) last) ≡ distance first last = omega arith in
              count)
            (Segment-cons s first (distance (next_seq first) last) actions hf g),
      )
]
