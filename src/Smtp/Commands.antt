-- ===== src/Smtp/Commands.antt =====
-- Each command of `handle_client` in "Assignment 6/mysmtp_server.c" keeps the session valid.
use networks_lab_cs39006_spr.Prelude.{
  ℕ, ◌≡◌, refl, true, false, not, List, [], ◌∷◌, if_split, if_elim, not-false, strcmp_eq,
  strcmp_eq→eq, drop, arith, ◌⊎◌, inl, inr,
}
use networks_lab_cs39006_spr.Smtp.Address.{is_empty, check_valid_email}
use networks_lab_cs39006_spr.Smtp.State.{Session, command, sends, running, domain, scan_word}
use networks_lab_cs39006_spr.Smtp.Session.{
  helo, with_sender, mail_from, with_recipient, rcpt_to, in_phase, data_command,
}
use networks_lab_cs39006_spr.Smtp.Valid.{IsSession, After, Good, good}

pub stay : (s : Session) → IsSession s → After s (running s)
stay s v = (v, λ e. (e, refl))

refuse-Good :
    (s : Session) (d b : List ℕ)
    → s.state ≡ 0
    → IsSession s
    → Good s (
      running (record {
        phase = command;
        state = s.state;
        helo_received = s.helo_received;
        helo_domain = d;
        sender = s.sender;
        recipient = s.recipient;
      }),
      sends b ∷ [],
    )
refuse-Good s d b e v = good s _ (
  (
    record {
      greeted = λ h. absurd (omega arith);
      ungreeted = λ h. v.ungreeted e;
      from_valid = λ h. absurd (omega arith);
      from_domain = λ h. absurd (omega arith);
      to_valid = λ h. absurd (omega arith);
      in_body = tt;
    },
    λ h. (let k : s.helo_received ≡ false = v.ungreeted e in absurd cc),
  ),
  (tt, tt),
)

greet-Good :
    (s : Session) (d b : List ℕ)
    → s.state ≡ 0
    → IsSession s
    → Good s (
      running (record {
        phase = command;
        state = 1;
        helo_received = true;
        helo_domain = d;
        sender = s.sender;
        recipient = s.recipient;
      }),
      sends b ∷ [],
    )
greet-Good s d b e v = good s _ (
  (
    record {
      greeted = λ h. refl;
      ungreeted = λ h. absurd (omega arith);
      from_valid = λ h. absurd (omega arith);
      from_domain = λ h. absurd (omega arith);
      to_valid = λ h. absurd (omega arith);
      in_body = tt;
    },
    λ h. (let k : s.helo_received ≡ false = v.ungreeted e in absurd cc),
  ),
  (tt, tt),
)

pub helo-Good : (s : Session) (buffer : List ℕ) → s.state ≡ 0 → IsSession s → Good s (helo s buffer)
unfolding helo
helo-Good s buffer e v =
    if_elim (Good s) (is_empty (domain buffer)) _ _ (refuse-Good s (domain buffer) _ e v)
      (greet-Good s (domain buffer) _ e v)

-- A sender that is refused leaves the session in state 1.
sender-Good :
    (s : Session) (sender b : List ℕ)
    → s.state ≡ 1
    → IsSession s
    → Good s (with_sender s sender s.state, sends b ∷ [])
unfolding with_sender
sender-Good s sender b e v = good s _ (
  (
    record {
      greeted = v.greeted;
      ungreeted = v.ungreeted;
      from_valid = λ h. absurd (omega arith);
      from_domain = λ h. absurd (omega arith);
      to_valid = λ h. absurd (omega arith);
      in_body = tt;
    },
    λ h. (h, refl),
  ),
  (tt, tt),
)

accept-Good :
    (s : Session) (sender : List ℕ) (b : List ℕ)
    → s.state ≡ 1
    → IsSession s
    → check_valid_email sender ≡ true
    → domain sender ≡ s.helo_domain
    → Good s (with_sender s sender 2, sends b ∷ [])
unfolding with_sender
accept-Good s sender b e v c d = good s _ (
  (
    record {
      greeted = λ h. v.greeted (omega arith);
      ungreeted = λ h. absurd (omega arith);
      from_valid = λ h. c;
      from_domain = λ h. d;
      to_valid = λ h. absurd (omega arith);
      in_body = tt;
    },
    λ h. (h, refl),
  ),
  (tt, tt),
)

pub mail_from-Good :
    (s : Session) (buffer : List ℕ) → s.state ≡ 1 → IsSession s → Good s (mail_from s buffer)
unfolding mail_from
mail_from-Good s buffer e v =
    let sender = scan_word (drop 10 buffer) s.sender in
    if_split (Good s) (not (check_valid_email sender)) _ _ (λ n. sender-Good s sender _ e v)
      (λ n.
        if_split (Good s) (not (strcmp_eq (domain sender) s.helo_domain)) _ _
          (λ m. sender-Good s sender _ e v)
          (λ m.
            accept-Good s sender _ e v (not-false _ n)
              (strcmp_eq→eq (domain sender) s.helo_domain (not-false _ m))))

recipient-Good :
    (s : Session) (recipient : List ℕ) (b : List ℕ) (state : ℕ)
    → s.state ≡ 2
    → (state ≡ 2) ⊎ (state ≡ 3) × (check_valid_email recipient ≡ true)
    → IsSession s
    → Good s (with_recipient s recipient state, sends b ∷ [])
unfolding with_recipient
recipient-Good s recipient b state e c v = good s _ (
  (
    record {
      greeted = λ h. v.greeted (omega arith);
      ungreeted =
          λ h. elim c [ inl k ↦ absurd (omega arith) | inr k ↦ absurd (omega (arith, k.0)) ];
      from_valid = λ h. v.from_valid (omega arith);
      from_domain = λ h. v.from_domain (omega arith);
      to_valid = λ h. elim c [ inl k ↦ absurd (omega arith) | inr k ↦ k.1 ];
      in_body = tt;
    },
    λ h. (h, refl),
  ),
  (tt, tt),
)

pub rcpt_to-Good :
    (s : Session) (buffer : List ℕ) → s.state ≡ 2 → IsSession s → Good s (rcpt_to s buffer)
unfolding rcpt_to
rcpt_to-Good s buffer e v =
    let recipient = scan_word (drop 8 buffer) s.recipient in
    if_split (Good s) (not (check_valid_email recipient)) _ _
      (λ n. recipient-Good s recipient _ s.state e (inl e) v)
      (λ n. recipient-Good s recipient _ 3 e (inr (refl, not-false _ n)) v)

pub data-Good : (s : Session) → s.state ≡ 3 → IsSession s → Good s (data_command s)
unfolding data_command in_phase
data-Good s e v = good s _ (
  (
    record {
      greeted = v.greeted;
      ungreeted = v.ungreeted;
      from_valid = v.from_valid;
      from_domain = v.from_domain;
      to_valid = v.to_valid;
      in_body = (e, omega arith);
    },
    λ h. (h, refl),
  ),
  (tt, tt),
)
