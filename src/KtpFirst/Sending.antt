-- ===== src/KtpFirst/Sending.antt =====
-- A round of the first version's sending thread: what it sends are messages that wait.
use networks_lab_cs39006_spr.Prelude.{
  ℕ, ◌≤◌, ◌<◌, ◌≡◌, ◌⊎◌, inl, inr, refl, sym, ap, ◌∙◌, subst, Bool, true, false, ◌||◌, List, [],
  ◌∷◌, Option, none, some, some-injective, if_true, if_false, Bool-cases, Option-cases, get_or, set,
  length, arith, get_or-set_ne, true≢false, All,
}
use networks_lab_cs39006_spr.KtpFirst.Types.{SmEntry, Action, sendto}
use networks_lab_cs39006_spr.KtpFirst.Packet.{data_packet}
use networks_lab_cs39006_spr.KtpFirst.Receiver.{done, index_at}
use networks_lab_cs39006_spr.KtpFirst.Sender.{
  is_unsent, before_action, sent_packet, send_seq, send_window,
}
use networks_lab_cs39006_spr.KtpFirst.Window.{seq_number}
use networks_lab_cs39006_spr.KtpFirst.Arrivals.{same_or_not}
use networks_lab_cs39006_spr.KtpFirst.Outbox.{Waits, Sending}
use networks_lab_cs39006_spr.KtpFirst.Outgoing.{OneOf, Carries, CarriesWaiting, packet_of, at}
use networks_lab_cs39006_spr.KtpFirst.Accepted.{message_of}

-- What the loop over the numbers `js` comes to.
abbrev pub Sent :
    (M : ℕ → List ℕ) → (a n now : ℕ) → (resend : Bool) → SmEntry → List (Option ℕ) → List ℕ → Type 0
Sent M a n now resend s times js =
    (times' : List (Option ℕ)) × (actions : List Action) × (send_window resend now js (at times s)
      ≡ done (at times' s) actions)
    × All (CarriesWaiting M a n s) actions
    × ((i : ℕ)
        → a ≤ i
        → i < n
        → OneOf (λ k. k ≡ seq_number i) js
        → (resend ≡ true) ⊎ (get_or times (seq_number i) none ≡ none)
        → OneOf (Carries M s i) actions)

module _ (M : ℕ → List ℕ) (a n now : ℕ) (resend : Bool) (s : SmEntry) (v : Sending M a n s)
    (short : (i : ℕ) → a ≤ i → i < n → length (M i) ≤ 509) where
  abbrev due : ℕ → List (Option ℕ) → Bool
  due j times = resend || is_unsent (get_or times j none)

  due_when :
      (j i : ℕ) (times : List (Option ℕ))
      → j ≡ seq_number i
      → (resend ≡ true) ⊎ (get_or times (seq_number i) none ≡ none)
      → due j times ≡ true
  due_when j i times e (inl t) = ap (λ b. b || is_unsent (get_or times j none)) t
  due_when j i times e (inr t) =
      ap (λ o. resend || is_unsent o) (ap (λ k. get_or times k none) e ∙ t) ∙ or_yes resend
    where
      or_yes : (b : Bool) → (b || true) ≡ true
      or_yes true = refl
      or_yes false = refl

  -- A number that no message has is passed over.
  no_number :
      (j : ℕ) (js : List ℕ) (times : List (Option ℕ))
      → index_at s.swnd j ≡ none
      → Sent M a n now resend s times js
      → Sent M a n now resend s times (j ∷ js)
  unfolding send_window send_seq
  no_number j js times e (times', actions, eq, all, some_of) = (
    times',
    actions,
    ap (λ o. send_seq resend now j o (at times s) (send_window resend now js)) e ∙ eq,
    all,
    λ i l h o u. elim o [
      | inl q ↦ (let (index, w) = v.waits i l h in absurd (cc (e, q, w.numbered)))
      | inr o' ↦ some_of i l h o' u
    ],
  )

  -- A message that was sent waits for its timeout.
  not_due :
      (j index : ℕ) (js : List ℕ) (times : List (Option ℕ))
      → index_at s.swnd j ≡ some index
      → due j times ≡ false
      → Sent M a n now resend s times js
      → Sent M a n now resend s times (j ∷ js)
  unfolding send_window send_seq
  not_due j index js times e f (times', actions, eq, all, some_of) = (
    times',
    actions,
    ap (λ o. send_seq resend now j o (at times s) (send_window resend now js)) e
        ∙ if_false (due j times) _ _ f
        ∙ eq,
    all,
    λ i l h o u. elim o [
      | inl q ↦ absurd (true≢false (sym (due_when j i times q u) ∙ f))
      | inr o' ↦ some_of i l h o' u
    ],
  )

  -- A message that is due is sent.
  is_due :
      (j index : ℕ) (js : List ℕ) (times : List (Option ℕ))
      → index_at s.swnd j ≡ some index
      → j < 256
      → due j times ≡ true
      → Sent M a n now resend s (set times j (some now)) js
      → Sent M a n now resend s times (j ∷ js)
  unfolding send_window send_seq
  is_due j index js times e below t (times', actions, eq, all, some_of) =
      let (i, l, h, f) = message_of M a n s v j index (omega arith) e in
      let (k, w) = v.waits i l h in
      let same : k ≡ index = some-injective k index (sym w.numbered ∙ ap (index_at s.swnd) f ∙ e) in
      let (packet, made, whole) =
        packet_of M i index s (short i l h) (subst (Waits M s i) same w) in
      let action : Action = sendto s.udp_sockid s.ip_addr s.port packet in
      let carries : Carries M s i action = record { packet = packet; made = whole; sent = refl } in
      let buffered : data_packet j (get_or s.len_of_msg_send_buffer index 0)
            (get_or s.send_buffer index [])
          ≡ some packet =
        ap
          (λ m.
            data_packet m (get_or s.len_of_msg_send_buffer index 0) (get_or s.send_buffer index []))
          (sym f)
        ∙ made in
      (
        times',
        action ∷ actions,
        ap (λ o. send_seq resend now j o (at times s) (send_window resend now js)) e
            ∙ if_true (due j times) _ _ t
            ∙ ap (λ p. sent_packet j now p (at times s) (send_window resend now js)) buffered
            ∙ ap (before_action action) eq,
        ((i, l, h, carries), all),
        λ i' l' h' o u.
            let first : j ≡ seq_number i' → Carries M s i' action = λ q.
              let one : i ≡ i' = omega (arith, f, q, l, h, l', h', v.room) in
              subst (λ m. Carries M s m action) one carries in
            elim (same_or_not j (seq_number i')) [
              | inl q ↦ inl (first q)
              | inr ne ↦ elim o [
                | inl q ↦ absurd (ne q)
                | inr o' ↦ inr (
                    some_of i' l' h' o' (elim u [
                      | inl r ↦ inl r
                      | inr r ↦ inr (get_or-set_ne times j (seq_number i') (some now) none ne ∙ r)
                    ]))
              ]
            ],
      )

  pub send_window-Sent :
      (js : List ℕ) (times : List (Option ℕ))
      → All (λ k. k < 256) js
      → Sent M a n now resend s times js
  unfolding send_window
  send_window-Sent [] times b = (times, [], refl, tt, λ i l h o u. absurd o)
  send_window-Sent (j ∷ js) times b = elim (Option-cases (index_at s.swnd j)) [
    | inl e ↦ no_number j js times e (send_window-Sent js times b.1)
    | inr (index, e) ↦ elim (Bool-cases (due j times)) [
      | inl t ↦ is_due j index js times e b.0 t (send_window-Sent js (set times j (some now)) b.1)
      | inr f ↦ not_due j index js times e f (send_window-Sent js times b.1)
    ]
  ]
