-- ===== src/Smtp/Permitted.antt =====
-- A whole dialogue of "Assignment 6/mysmtp_server.c" touches mail of one domain only.
use networks_lab_cs39006_spr.Prelude.{
  ℕ, ◌≡◌, refl, sym, ◌∙◌, true, List, [], ◌∷◌, ◌++◌, All, All-append, subst, arith,
}
use networks_lab_cs39006_spr.Smtp.State.{
  Session, Action, sends, stores, lists, gets, Next, running, closed, overrun, new_session,
}
use networks_lab_cs39006_spr.Smtp.Session.{Received, receive, handle_client, go_on}
use networks_lab_cs39006_spr.Smtp.Valid.{IsSession, Permitted, Guarded, After}
use networks_lab_cs39006_spr.Smtp.Rounds.{receive-Good}

-- The domain of the dialogue is the one that the session has, if it has one.
abbrev Has : Session → List ℕ → Type 0
Has s d = s.helo_received ≡ true → s.helo_domain ≡ d

permit_one : (s : Session) (d : List ℕ) (a : Action) → Has s d → Guarded s a → Permitted d a
permit_one s d (sends b) h g = tt
permit_one s d (stores recipient sender message) h g =
    subst (λ e. Permitted e (stores recipient sender message)) (h g.0) g.1
permit_one s d (lists recipient) h g = subst (λ e. Permitted e (lists recipient)) (h g.0) g.1
permit_one s d (gets recipient id) h g = subst (λ e. Permitted e (gets recipient id)) (h g.0) g.1

permit :
    (s : Session) (d : List ℕ) (actions : List Action)
    → Has s d
    → All (Guarded s) actions
    → All (Permitted d) actions
permit s d [] h g = tt
permit s d (a ∷ actions) h g = (permit_one s d a h g.0, permit s d actions h g.1)

abbrev One : Session → List Action → Type 0
One s actions = (d : List ℕ) × (Has s d × All (Permitted d) actions)

first-One :
    (s : Session) (now : List Action) (n : Next) (rest : Session → List Action)
    → All (Guarded s) now
    → After s n
    → ((s' : Session) → IsSession s' → One s' (rest s'))
    → One s (now ++ go_on rest n)
unfolding go_on
first-One s now (running s') rest g (v, k) ih =
    let later = ih s' v in
    let has : Has s later.0 = λ e. sym (k e).1 ∙ later.1.0 (k e).0 in
    (
      later.0,
      (has, All-append (Permitted later.0) now (rest s') (permit s later.0 now has g) later.1.1),
    )
first-One s now closed rest g a ih = (
  s.helo_domain,
  (
    λ e. refl,
    All-append (Permitted s.helo_domain) now [] (permit s s.helo_domain now (λ e. refl) g) tt,
  ),
)
first-One s now overrun rest g a ih = (
  s.helo_domain,
  (
    λ e. refl,
    All-append (Permitted s.helo_domain) now [] (permit s s.helo_domain now (λ e. refl) g) tt,
  ),
)

session-One :
    (inputs : List (List ℕ × Received)) (s : Session) → IsSession s → One s (handle_client s inputs)
unfolding handle_client
session-One [] s v = (s.helo_domain, (λ e. refl, tt))
session-One ((stale, r) ∷ rest) s v =
    let g = receive-Good s.phase s stale r refl v in
    first-One s (receive s.phase s stale r).1 (receive s.phase s stale r).0
      (λ s'. handle_client s' rest) g.acts g.after (λ s' w. session-One rest s' w)

new_session-IsSession : IsSession new_session
new_session-IsSession = record {
  greeted = λ h. absurd (omega arith);
  ungreeted = λ h. refl;
  from_valid = λ h. absurd (omega arith);
  from_domain = λ h. absurd (omega arith);
  to_valid = λ h. absurd (omega arith);
  in_body = tt;
}

-- In a dialogue, whatever the inputs, there is one domain such that every message stored has a
-- valid sender of that domain, a valid recipient and fewer than 40960 bytes, and every mailbox
-- listed or read belongs to a valid address of that domain.
pub handle_client-Permitted :
    (inputs : List (List ℕ × Received))
    → (d : List ℕ) × All (Permitted d) (handle_client new_session inputs)
handle_client-Permitted inputs =
    let one = session-One inputs new_session new_session-IsSession in (one.0, one.1.1)

-- From a valid session that has had its HELO, all that is stored, listed or read on further inputs
-- is permitted for the domain that HELO gave, which no later command changes.
pub greeted-Permitted :
    (s : Session) (inputs : List (List ℕ × Received))
    → IsSession s
    → s.helo_received ≡ true
    → All (Permitted s.helo_domain) (handle_client s inputs)
greeted-Permitted s inputs v e =
    let one = session-One inputs s v in
    subst (λ d. All (Permitted d) (handle_client s inputs)) (sym (one.1.0 e)) one.1.1
