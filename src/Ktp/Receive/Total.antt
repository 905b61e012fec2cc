-- ===== src/Ktp/Receive/Total.antt =====
-- The receiving thread always comes back from a DATA packet, and answers it as the window says.
use networks_lab_cs39006_spr.Prelude.{
  ℕ, ◌%◌, ◌<◌, ◌≡◌, ◌≢◌, refl, true, false, List, [], ◌∷◌, ◌⊎◌, inl, inr, Bool-cases, ◌==◌, ==_iff,
  ==-ne, ==-false, arith, subst, ap, ◌∙◌,
}
use native.Mathlib.Decide.{ℕ_discrete}
use networks_lab_cs39006_spr.Ktp.Types.{
  IpPort, KtpSocket, Window, Action, sendto, max_message, seq_num,
}
use networks_lab_cs39006_spr.Ktp.Window.{
  inwndw, wndwsize, next_seq, distance, inwndw_iff, wndwsize-distance,
}
use networks_lab_cs39006_spr.Ktp.Socket.{slot_empty}
use networks_lab_cs39006_spr.Ktp.Receiver.{running, store_data, handle_data, send_ack}
use networks_lab_cs39006_spr.Ktp.Invariant.Defs.{IsWindow, IsSocket}
use networks_lab_cs39006_spr.Ktp.Receive.Deliver.{ack_packet, send_ack_lem, handle_data-in_order}

-- A message that fits but is not the next one is stored, and nothing is sent.
pub handle_data-out_of_order :
    (seq : ℕ) (m : List ℕ) (sender : IpPort) (s : KtpSocket)
    → inwndw seq s.rwnd.head s.rwnd.tail ≡ true
    → seq ≢ s.rwnd.head
    → slot_empty s.recv_buffer (seq % max_message) ≡ true
    → handle_data seq m sender s
      ≡ running (record s { nospace = false; recv_buffer = store_data seq m s.recv_buffer }, [])
unfolding handle_data
handle_data-out_of_order seq m sender s fits other free =
    rw (fits, free, ==-ne seq s.rwnd.head other)

-- A message whose slot is in use is dropped.
pub handle_data-duplicate :
    (seq : ℕ) (m : List ℕ) (sender : IpPort) (s : KtpSocket)
    → inwndw seq s.rwnd.head s.rwnd.tail ≡ true
    → slot_empty s.recv_buffer (seq % max_message) ≡ false
    → handle_data seq m sender s ≡ running (record s { nospace = false }, [])
unfolding handle_data
handle_data-duplicate seq m sender s fits used = rw (fits, used)

not_full : (w : Window) → (wndwsize w == 0) ≡ false → w.head ≢ w.tail
unfolding wndwsize
not_full w e = ground arith

is_full : (w : Window) → IsWindow w → (wndwsize w == 0) ≡ true → w.head ≡ w.tail
unfolding wndwsize
is_full w v e = ground arith

-- What a packet outside the window may change and send.
pub record Refused (seq : ℕ) (sender : IpPort) (s s' : KtpSocket) (actions : List Action)
    : Type 0 where
  pub buffer_kept : s'.recv_buffer ≡ s.recv_buffer
  pub rwnd_kept : s'.rwnd ≡ s.rwnd
  pub acked_kept : s'.last_acked ≡ s.last_acked
  pub reply :
      ((s.rwnd.head ≡ s.rwnd.tail)
        × (s'.nospace ≡ true)
        × (actions ≡ sendto s.sockfd sender (ack_packet 0 s.last_acked 0) ∷ []))
      ⊎ ((s.rwnd.head ≢ s.rwnd.tail)
          × (next_seq seq ≡ s.rwnd.head)
          × (actions
              ≡ sendto s.sockfd sender (ack_packet seq seq (distance s.rwnd.head s.rwnd.tail))
                ∷ []))
      ⊎ ((s.rwnd.head ≢ s.rwnd.tail) × (next_seq seq ≢ s.rwnd.head) × (actions ≡ []))

-- A DATA packet outside the window changes neither the receive buffer nor the window: a closed
-- window is advertised again and recorded, the number just before the window is acknowledged
-- again, and any other number is ignored.
pub handle_data-outside :
    (seq : ℕ) (m : List ℕ) (sender : IpPort) (s : KtpSocket)
    → IsSocket s
    → inwndw seq s.rwnd.head s.rwnd.tail ≡ false
    → (s' : KtpSocket) × (actions : List Action) × (handle_data seq m sender s
        ≡ running (s', actions))
      × Refused seq sender s s' actions
unfolding handle_data
handle_data-outside seq m sender s v out = elim (Bool-cases (wndwsize s.rwnd == 0)) [
  | inl full ↦ (
    record s { nospace = true },
    send_ack s.sockfd sender 0 s.last_acked 0,
    rw (out, full),
    record {
      buffer_kept = refl;
      rwnd_kept = refl;
      acked_kept = refl;
      reply = inl (is_full s.rwnd v.rwnd_in full, refl, send_ack_lem s sender 0 s.last_acked 0);
    },
  )
  | inr free ↦ elim (Bool-cases (next_seq seq == s.rwnd.head)) [
    | inl again ↦ (
      s,
      send_ack s.sockfd sender seq seq (wndwsize s.rwnd),
      rw (out, free, again),
      record {
        buffer_kept = refl;
        rwnd_kept = refl;
        acked_kept = refl;
        reply = inr (
            inl (
              not_full s.rwnd free,
              (==_iff _ _).0 again,
              send_ack_lem s sender seq seq (wndwsize s.rwnd)
                  ∙ ap (λ n. sendto s.sockfd sender (ack_packet seq seq n) ∷ [])
                      (wndwsize-distance s.rwnd v.rwnd_in.head_in v.rwnd_in.tail_in),
            ));
      },
    )
    | inr far ↦ (
      s,
      [],
      rw (out, free, far),
      record {
        buffer_kept = refl;
        rwnd_kept = refl;
        acked_kept = refl;
        reply = inr (inr (not_full s.rwnd free, ==-false _ _ far, refl));
      },
    )
  ]
]

-- On a well-formed socket the receiving thread comes back from every DATA packet with a number
-- below 256: no loop of the handler runs for ever.
pub handle_data_returns :
    (seq : ℕ) (m : List ℕ) (sender : IpPort) (s : KtpSocket)
    → IsSocket s
    → seq < seq_num
    → (r : KtpSocket × List Action) × (handle_data seq m sender s ≡ running r)
handle_data_returns seq m sender s v h = elim (Bool-cases (inwndw seq s.rwnd.head s.rwnd.tail)) [
  | inr out ↦
      let (s', actions, r, _) = handle_data-outside seq m sender s v out in ((s', actions), r)
  | inl fits ↦ elim (Bool-cases (slot_empty s.recv_buffer (seq % max_message))) [
    | inr used ↦ (_, handle_data-duplicate seq m sender s fits used)
    | inl free ↦ elim (ℕ_discrete seq s.rwnd.head) [
      | no other ↦ (_, handle_data-out_of_order seq m sender s fits other free)
      | yes same ↦
          let (s', actions, r, _) =
            handle_data-in_order m sender s v
              (omega (
                arith,
                (inwndw_iff seq s.rwnd h v.rwnd_in.head_in v.rwnd_in.tail_in).0 fits,
                wndwsize-distance s.rwnd,
              ))
              (subst (λ n. slot_empty s.recv_buffer (n % max_message) ≡ true) same free) in
          ((s', actions), ap (λ n. handle_data n m sender s) same ∙ r)
    ]
  ]
]
