-- ===== src/Smtp/Valid.antt =====
-- What `handle_client` of "Assignment 6/mysmtp_server.c" keeps true of its locals, and what it may do.
use networks_lab_cs39006_spr.Prelude.{ℕ, ◌≤◌, ◌<◌, ◌≡◌, true, false, List, length, All}
use networks_lab_cs39006_spr.Smtp.Address.{check_valid_email}
use networks_lab_cs39006_spr.Smtp.State.{
  Session, Phase, command, body, Action, sends, stores, lists, gets, Next, running, closed, overrun,
  domain, message_size,
}

-- DATA is collected in state 3 only, and what is collected fits its buffer.
abbrev pub InBody : Phase → ℕ → Type 0
InBody command state = Unit
InBody (body message) state = (state ≡ 3) × (length message < message_size)

pub record IsSession (s : Session) : Type 0 where
  pub greeted : 0 < s.state → s.helo_received ≡ true
  pub ungreeted : s.state ≡ 0 → s.helo_received ≡ false
  pub from_valid : 2 ≤ s.state → check_valid_email s.sender ≡ true
  pub from_domain : 2 ≤ s.state → domain s.sender ≡ s.helo_domain
  pub to_valid : 3 ≤ s.state → check_valid_email s.recipient ≡ true
  pub in_body : InBody s.phase s.state

-- What may be done for a client that has introduced itself with a domain.
abbrev pub Permitted : List ℕ → Action → Type 0
Permitted d (sends b) = Unit
Permitted d (stores recipient sender message) =
    (check_valid_email sender ≡ true)
    × (domain sender ≡ d)
    × (check_valid_email recipient ≡ true)
    × (length message < message_size)
Permitted d (lists recipient) = (check_valid_email recipient ≡ true) × (domain recipient ≡ d)
Permitted d (gets recipient id) = (check_valid_email recipient ≡ true) × (domain recipient ≡ d)

-- The actions that need HELO.
abbrev pub Guarded : Session → Action → Type 0
Guarded s (sends b) = Unit
Guarded s (stores recipient sender message) =
    (s.helo_received ≡ true) × Permitted s.helo_domain (stores recipient sender message)
Guarded s (lists recipient) = (s.helo_received ≡ true) × Permitted s.helo_domain (lists recipient)
Guarded s (gets recipient id) =
    (s.helo_received ≡ true) × Permitted s.helo_domain (gets recipient id)

-- A greeted session keeps its domain.
abbrev pub Greeted : Session → Session → Type 0
Greeted s s' = s.helo_received ≡ true → (s'.helo_received ≡ true) × (s'.helo_domain ≡ s.helo_domain)

abbrev pub After : Session → Next → Type 0
After s (running s') = IsSession s' × Greeted s s'
After s closed = Unit
After s overrun = Unit

pub record Good (s : Session) (r : Next × List Action) : Type 0 where
  pub after : After s r.0
  pub acts : All (Guarded s) r.1

pub good : (s : Session) (r : Next × List Action) → After s r.0 × All (Guarded s) r.1 → Good s r
good s r h = record { after = h.0; acts = h.1 }
