-- ===== src/KtpFirst/Rounds.antt =====
-- A whole round of the first version's sending thread for one entry.
use networks_lab_cs39006_spr.Prelude.{
  ℕ, ◌+◌, ◌%◌, ◌≤◌, ◌<◌, ◌≡◌, ◌⊎◌, inl, inr, refl, ap, ◌∙◌, Bool, true, false, ◌||◌, List, [], ◌∷◌,
  none, some, if_false, get_or, length, arith, All,
}
use networks_lab_cs39006_spr.KtpFirst.Types.{SmEntry, Action}
use networks_lab_cs39006_spr.KtpFirst.Receiver.{done}
use networks_lab_cs39006_spr.KtpFirst.Sender.{is_late, any_late, window_seqs, send_seqs, send_entry}
use networks_lab_cs39006_spr.KtpFirst.Window.{seq_number}
use networks_lab_cs39006_spr.KtpFirst.Outbox.{Sending}
use networks_lab_cs39006_spr.KtpFirst.Outgoing.{
  OneOf, Carries, CarriesWaiting, run, window_seqs-run, run-All, run-OneOf, times-Sending,
}
use networks_lab_cs39006_spr.KtpFirst.Sending.{send_window-Sent}

-- One late number is a timeout.
any_late-OneOf :
    (now m : ℕ) (s : SmEntry) (js : List ℕ)
    → OneOf (λ j. j ≡ m) js
    → is_late now (get_or s.last_sent_time m none) ≡ true
    → any_late now s js ≡ true
unfolding any_late
any_late-OneOf now m s [] o e = absurd o
any_late-OneOf now m s (j ∷ js) (inl q) e =
    ap (λ k. is_late now (get_or s.last_sent_time k none) || any_late now s js) q
    ∙ ap (λ b. b || any_late now s js) e
any_late-OneOf now m s (j ∷ js) (inr o) e =
    ap (λ b. is_late now (get_or s.last_sent_time j none) || b) (any_late-OneOf now m s js o e)
    ∙ or_yes (is_late now (get_or s.last_sent_time j none))
  where
    or_yes : (b : Bool) → (b || true) ≡ true
    or_yes true = refl
    or_yes false = refl

-- It is time for message `i`: it has not been sent, or a number of the window is late.
abbrev pub IsDue : (now a i : ℕ) → SmEntry → Type 0
IsDue now a i s =
    (get_or s.last_sent_time (seq_number i) none ≡ none)
    ⊎ ((k : ℕ) × (a ≤ k)
        × (k < a + s.swnd.size)
        × (is_late now (get_or s.last_sent_time (seq_number k) none) ≡ true))

-- A round.
pub send_entry-Sending :
    (M : ℕ → List ℕ) (a n now : ℕ) (s : SmEntry)
    → Sending M a n s
    → s.swnd.start_seq ≡ seq_number a
    → s.swnd.size < 256
    → ((i : ℕ) → a ≤ i → i < n → length (M i) ≤ 509)
    → (s' : SmEntry) × (actions : List Action) × (send_entry now s ≡ done s' actions)
      × Sending M a n s'
      × (s'.swnd ≡ s.swnd)
      × All (CarriesWaiting M a n s) actions
      × ((i : ℕ)
          → a ≤ i
          → i < n
          → i < a + s.swnd.size
          → IsDue now a i s
          → OneOf (Carries M s i) actions)
unfolding send_entry
send_entry-Sending M a n now s v start few short =
    let d : ℕ = s.swnd.size in
    let js : List ℕ = run d (seq_number a) in
    let resend : Bool = any_late now s js in
    let numbers : window_seqs 256 ((s.swnd.start_seq + d) % 256) s.swnd.start_seq ≡ some js =
      ap (λ j. window_seqs 256 ((j + d) % 256) j) start
      ∙ window_seqs-run d 256 (seq_number a) few few (omega arith) in
    let (times, actions, eq, all, some_of) =
      send_window-Sent M a n now resend s v short js s.last_sent_time
        (run-All d (seq_number a) (omega arith)) in
    (
      record s { last_sent_time = times },
      actions,
      if_false s.is_free _ _ v.claimed ∙ ap (λ o. send_seqs now o s) numbers ∙ eq,
      times-Sending M a n times s v,
      refl,
      all,
      λ i l h m u. some_of i l h (run-OneOf d a i l m) (elim u [
        | inl e ↦ inr e
        | inr (k, p, q, late) ↦
            inl (any_late-OneOf now (seq_number k) s js (run-OneOf d a k p q) late)
      ]),
    )
