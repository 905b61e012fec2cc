-- ===== src/Smtp/Rounds.antt =====
-- What `handle_client` of "Assignment 6/mysmtp_server.c" does with a message, a request to read mail, and
-- any input.
use networks_lab_cs39006_spr.Prelude.{
  skip_spaces, ℕ, ◌<◌, ◌≡◌, refl, Bool, true, not, ◌&&◌, List, [], ◌∷◌, ◌++◌, length, if_split,
  if_elim, not-false, and-right, ==_iff, ◌==◌, ltb, ltb→lt, strcmp_eq, strcmp_eq→eq, strncmp_eq,
  codes, cstring, drop, arith, length-append, subst, ◌-◌, ◌+◌,
}
use networks_lab_cs39006_spr.Smtp.Address.{check_valid_email}
use networks_lab_cs39006_spr.Smtp.State.{
  Session, Phase, command, body, Action, sends, lists, gets, running, closed, overrun, domain,
  message_size, scan_word, after_word,
}
use networks_lab_cs39006_spr.Smtp.Session.{
  in_phase, finish_data, collect, guarded, list_command, get_mail, dispatch, Received, bytes, ended,
  in_command, in_body, receive,
}
use Prim.Native.String.{String}
use networks_lab_cs39006_spr.Smtp.Commands.{
  stay, helo-Good, mail_from-Good, rcpt_to-Good, data-Good,
}
use networks_lab_cs39006_spr.Smtp.Valid.{IsSession, InBody, Guarded, Good, good}

finish-Good :
    (s : Session) (message : List ℕ)
    → s.state ≡ 3
    → length message < message_size
    → IsSession s
    → Good s (finish_data s message)
unfolding finish_data in_phase
finish-Good s message e lt v = good s _ (
  (
    record {
      greeted = λ h. v.greeted (omega arith);
      ungreeted = λ h. absurd (omega arith);
      from_valid = λ h. absurd (omega arith);
      from_domain = λ h. absurd (omega arith);
      to_valid = λ h. absurd (omega arith);
      in_body = tt;
    },
    λ h. (h, refl),
  ),
  (
    (
      v.greeted (omega arith),
      (v.from_valid (omega arith), v.from_domain (omega arith), v.to_valid (omega arith), lt),
    ),
    (tt, tt),
  ),
)

more-Good :
    (s : Session) (message : List ℕ)
    → s.state ≡ 3
    → length message < message_size
    → IsSession s
    → Good s (in_phase s (body message) s.state, [])
unfolding in_phase
more-Good s message e lt v = good s _ (
  (
    record {
      greeted = v.greeted;
      ungreeted = v.ungreeted;
      from_valid = v.from_valid;
      from_domain = v.from_domain;
      to_valid = v.to_valid;
      in_body = (e, lt);
    },
    λ h. (h, refl),
  ),
  tt,
)

collect-Good :
    (s : Session) (message buffer : List ℕ)
    → s.state ≡ 3
    → length message < message_size
    → IsSession s
    → Good s (collect s message buffer)
unfolding collect
collect-Good s message buffer e lt v = if_elim (Good s) _ _ _ (finish-Good s message e lt v) (
    if_split (Good s) (ltb (length message + length buffer) (message_size - 1)) _ _
      (λ h.
        more-Good s (message ++ buffer) e
          (omega
            (arith, length-append message buffer, ltb→lt (length message + length buffer) 40959 h))
          v)
      (λ h. finish-Good s message e lt v))

guarded-Good :
    (s : Session) (address : List ℕ) (a : Action) (forbidden : String) (n : ℕ)
    → IsSession s
    → (check_valid_email address ≡ true → domain address ≡ s.helo_domain → Guarded s a)
    → Good s (guarded s address (a ∷ []) forbidden n)
unfolding guarded
guarded-Good s address a forbidden n v g =
    if_split (Good s) (not (check_valid_email address)) _ _ (λ e. (good s _ (stay s v, (tt, tt))))
      (λ e.
        if_split (Good s) (not (strcmp_eq (domain address) s.helo_domain)) _ _
          (λ f. (good s _ (stay s v, (tt, tt))))
          (λ f. good s _ (
            stay s v,
            (g (not-false _ e) (strcmp_eq→eq (domain address) s.helo_domain (not-false _ f)), tt),
          )))

list-Good :
    (s : Session) (stale buffer : List ℕ) → IsSession s → Good s (list_command s stale buffer)
unfolding list_command
list-Good s stale buffer v =
    if_split (Good s) (not s.helo_received) _ _ (λ e. (good s _ (stay s v, (tt, tt))))
      (λ e.
        guarded-Good s (scan_word (drop 4 buffer) stale) (lists (scan_word (drop 4 buffer) stale))
          "403 FORBIDDEN. LIST DOMAIN MUST MATCH HELO DOMAIN" 49 v (λ c d. (not-false _ e, (c, d))))

get-Good : (s : Session) (stale buffer : List ℕ) → IsSession s → Good s (get_mail s stale buffer)
unfolding get_mail
get-Good s stale buffer v =
    if_split (Good s) (not s.helo_received) _ _ (λ e. (good s _ (stay s v, (tt, tt))))
      (λ e.
        guarded-Good s (scan_word (drop 8 buffer) stale)
          (gets (scan_word (drop 8 buffer) stale) (after_word (skip_spaces (drop 8 buffer))))
          "403 FORBIDDEN: GET_MAIL DOMAIN MUST MATCH HELO DOMAIN" 53 v
          (λ c d. (not-false _ e, (c, d))))

quit-Good : (s : Session) (b : List ℕ) → Good s (closed, sends b ∷ [])
quit-Good s b = good s (closed, sends b ∷ []) (tt, (tt, tt))

reply-Good : (s : Session) (b : List ℕ) → IsSession s → Good s (running s, sends b ∷ [])
reply-Good s b v = good s (running s, sends b ∷ []) (stay s v, (tt, tt))

overrun-Good : (s : Session) → Good s (overrun, [])
overrun-Good s = good s (overrun, []) (tt, tt)

in_state : (b : Bool) (n k : ℕ) → (b && (n == k)) ≡ true → n ≡ k
in_state b n k e = (==_iff n k).0 (and-right b (n == k) e)

dispatch-Good :
    (s : Session) (stale buffer : List ℕ) → IsSession s → Good s (dispatch s stale buffer)
unfolding dispatch
dispatch-Good s stale buffer v =
    if_elim (Good s) (strncmp_eq buffer (codes "QUIT")) _ _ (quit-Good s _) (
      if_split (Good s) (strncmp_eq buffer (codes "HELO") && (s.state == 0)) _ _
        (λ e. helo-Good s buffer (in_state (strncmp_eq buffer (codes "HELO")) s.state 0 e) v)
        (λ _.
          if_split (Good s) (strncmp_eq buffer (codes "MAIL FROM:") && (s.state == 1)) _ _
            (λ e.
              mail_from-Good s buffer
                (in_state (strncmp_eq buffer (codes "MAIL FROM:")) s.state 1 e) v)
            (λ _.
              if_split (Good s) (strncmp_eq buffer (codes "RCPT TO:") && (s.state == 2)) _ _
                (λ e.
                  rcpt_to-Good s buffer
                    (in_state (strncmp_eq buffer (codes "RCPT TO:")) s.state 2 e) v)
                (λ _.
                  if_split (Good s) (strncmp_eq buffer (codes "DATA") && (s.state == 3)) _ _
                    (λ e. data-Good s (in_state (strncmp_eq buffer (codes "DATA")) s.state 3 e) v)
                    (λ _.
                      if_elim (Good s) (strncmp_eq buffer (codes "LIST")) _ _
                        (list-Good s stale buffer v)
                        (if_elim (Good s) (strncmp_eq buffer (codes "GET_MAIL")) _ _
                          (get-Good s stale buffer v) (reply-Good s _ v)))))))

pub receive-Good :
    (p : Phase) (s : Session) (stale : List ℕ) (r : Received)
    → s.phase ≡ p
    → IsSession s
    → Good s (receive p s stale r)
unfolding receive in_command in_body
receive-Good command s stale ended e v = good s _ (tt, tt)
receive-Good command s stale (bytes b) e v =
    if_elim (Good s) _ _ _ (overrun-Good s) (dispatch-Good s stale (cstring b) v)
receive-Good (body message) s stale ended e v =
    let w = subst (λ p. InBody p s.state) e v.in_body in finish-Good s message w.0 w.1 v
receive-Good (body message) s stale (bytes b) e v =
    let w = subst (λ p. InBody p s.state) e v.in_body in
    if_elim (Good s) _ _ _ (overrun-Good s) (collect-Good s message (cstring b) w.0 w.1 v)
