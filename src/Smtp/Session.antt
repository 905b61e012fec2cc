-- ===== src/Smtp/Session.antt =====
-- The dialogue of `handle_client` in "Assignment 6/mysmtp_server.c", one `recv` at a time.
use networks_lab_cs39006_spr.Prelude.{
  skip_spaces, ℕ, ◌+◌, ◌-◌, true, not, ◌&&◌, List, [], ◌∷◌, ◌++◌, leb, ltb, ◌==◌, if◌then◌else◌,
  codes, strcmp_eq, strncmp_eq, cstring, drop, length,
}
use Prim.Native.String.{String}
use networks_lab_cs39006_spr.Smtp.Address.{buffer_size, is_empty, check_valid_email}
use networks_lab_cs39006_spr.Smtp.State.{
  message_size, Phase, command, body, Session, Action, stores, lists, gets, Next, running, closed,
  overrun, reply, after_word, scan_word, domain,
}

unfoldable pub helo : Session → List ℕ → Next × List Action
helo s buffer =
    let d = domain buffer in
    if is_empty d
    then (
      running (record {
        phase = command;
        state = s.state;
        helo_received = s.helo_received;
        helo_domain = d;
        sender = s.sender;
        recipient = s.recipient;
      }),
      reply "400 ERR. INVALID DOMAIN" 25 ∷ [],
    )
    else (
      running (record {
        phase = command;
        state = 1;
        helo_received = true;
        helo_domain = d;
        sender = s.sender;
        recipient = s.recipient;
      }),
      reply "200 OK. HELO ACCEPTED" 22 ∷ [],
    )

-- The session with the sender that was read, in a state.
unfoldable pub with_sender : Session → List ℕ → ℕ → Next
with_sender s sender state = running (record {
  phase = command;
  state = state;
  helo_received = s.helo_received;
  helo_domain = s.helo_domain;
  sender = sender;
  recipient = s.recipient;
})

unfoldable pub mail_from : Session → List ℕ → Next × List Action
unfolding scan_word with_sender
mail_from s buffer =
    let sender = scan_word (drop 10 buffer) s.sender in
    if not (check_valid_email sender)
    then (with_sender s sender s.state, reply "400 ERR. INVALID EMAIL FORMAT" 29 ∷ [])
    else if not (strcmp_eq (domain sender) s.helo_domain)
    then (
      with_sender s sender s.state,
      reply "403 FORBIDDEN: SENDER DOMAIN DOES NOT MATCH HELO DOMAIN" 56 ∷ [],
    )
    else (with_sender s sender 2, reply "200 OK. RECEIVED SENDER EMAIL" 30 ∷ [])

unfoldable pub with_recipient : Session → List ℕ → ℕ → Next
with_recipient s recipient state = running (record {
  phase = command;
  state = state;
  helo_received = s.helo_received;
  helo_domain = s.helo_domain;
  sender = s.sender;
  recipient = recipient;
})

unfoldable pub rcpt_to : Session → List ℕ → Next × List Action
unfolding scan_word with_recipient
rcpt_to s buffer =
    let recipient = scan_word (drop 8 buffer) s.recipient in
    if not (check_valid_email recipient)
    then (with_recipient s recipient s.state, reply "400 ERR: INVALID EMAIL FORMAT" 29 ∷ [])
    else (with_recipient s recipient 3, reply "200 OK. RECEIVED RECIPIENT EMAIL" 33 ∷ [])

-- The session in another loop and state.
unfoldable pub in_phase : Session → Phase → ℕ → Next
in_phase s phase state = running (record {
  phase = phase;
  state = state;
  helo_received = s.helo_received;
  helo_domain = s.helo_domain;
  sender = s.sender;
  recipient = s.recipient;
})

unfoldable pub data_command : Session → Next × List Action
unfolding in_phase
data_command s =
    (in_phase s (body []) s.state, reply "Enter your message (end with a single dot '.'):" 49 ∷ [])

-- Behind the loop of DATA.
unfoldable pub finish_data : Session → List ℕ → Next × List Action
unfolding in_phase
finish_data s message = (
  in_phase s command 1,
  stores s.recipient s.sender message ∷ reply "200 OK. RECEIVED MAIL BODY" 27 ∷ [],
)

-- One round of the loop of DATA, on what was received.
unfoldable pub collect : Session → List ℕ → List ℕ → Next × List Action
unfolding finish_data in_phase
collect s message buffer =
    if strcmp_eq buffer (codes ".\r\n")
    then finish_data s message
    else if ltb (length message + length buffer) (message_size - 1)
    then (in_phase s (body (message ++ buffer)) s.state, [])
    else finish_data s message

-- LIST and GET_MAIL begin with the same checks, on the address that was read.
unfoldable pub guarded : Session → List ℕ → List Action → String → ℕ → Next × List Action
guarded s address actions forbidden n =
    if not (check_valid_email address)
    then (running s, reply "400 ERR. INVALID EMAIL FORMAT" 29 ∷ [])
    else if not (strcmp_eq (domain address) s.helo_domain)
    then (running s, reply forbidden n ∷ [])
    else (running s, actions)

-- `stale` is what the uninitialised `list_recipient` holds where LIST has no argument.
unfoldable pub list_command : Session → List ℕ → List ℕ → Next × List Action
unfolding guarded scan_word
list_command s stale buffer =
    if not s.helo_received
    then (running s, reply "403 FORBIDDEN. MUST SEND HELO FIRST" 36 ∷ [])
    else (let address = scan_word (drop 4 buffer) stale in
        guarded s address (lists address ∷ []) "403 FORBIDDEN. LIST DOMAIN MUST MATCH HELO DOMAIN"
          49)

-- The text that `%d` is to read is passed on.
unfoldable pub get_mail : Session → List ℕ → List ℕ → Next × List Action
unfolding guarded scan_word
get_mail s stale buffer =
    if not s.helo_received
    then (running s, reply "403 FORBIDDEN. MUST SEND HELO FIRST" 36 ∷ [])
    else (let address = scan_word (drop 8 buffer) stale in
        guarded s address (gets address (after_word (skip_spaces (drop 8 buffer))) ∷ [])
          "403 FORBIDDEN: GET_MAIL DOMAIN MUST MATCH HELO DOMAIN" 53)

unfoldable pub dispatch : Session → List ℕ → List ℕ → Next × List Action
unfolding helo mail_from rcpt_to data_command list_command get_mail
dispatch s stale buffer =
    if strncmp_eq buffer (codes "QUIT")
    then (closed, reply "200 OK. Goodbye" 16 ∷ [])
    else if strncmp_eq buffer (codes "HELO") && (s.state == 0)
    then helo s buffer
    else if strncmp_eq buffer (codes "MAIL FROM:") && (s.state == 1)
    then mail_from s buffer
    else if strncmp_eq buffer (codes "RCPT TO:") && (s.state == 2)
    then rcpt_to s buffer
    else if strncmp_eq buffer (codes "DATA") && (s.state == 3)
    then data_command s
    else if strncmp_eq buffer (codes "LIST")
    then list_command s stale buffer
    else if strncmp_eq buffer (codes "GET_MAIL")
    then get_mail s stale buffer
    else (running s, reply "400 ERR" 8 ∷ [])

-- What `recv` of up to 4096 bytes returns: some bytes, or `n <= 0`.
pub data Received : Type 0 where
  bytes : List ℕ → Received
  ended : Received

unfoldable pub in_command : Session → List ℕ → Received → Next × List Action
unfolding dispatch
in_command s stale ended = (closed, [])
in_command s stale (bytes b) =
    if leb buffer_size (length b) then (overrun, []) else dispatch s stale (cstring b)

unfoldable pub in_body : Session → List ℕ → Received → Next × List Action
unfolding collect finish_data
in_body s message ended = finish_data s message
in_body s message (bytes b) =
    if leb buffer_size (length (cstring b)) then (overrun, []) else collect s message (cstring b)

unfoldable pub receive : Phase → Session → List ℕ → Received → Next × List Action
unfolding in_command in_body
receive command s stale r = in_command s stale r
receive (body message) s stale r = in_body s message r

unfoldable pub go_on : (Session → List Action) → Next → List Action
go_on rest (running s) = rest s
go_on rest closed = []
go_on rest overrun = []

-- `handle_client`: what is done on the inputs one after the other, each with what the
-- uninitialised buffer of LIST or GET_MAIL then holds.
unfoldable pub handle_client : Session → List (List ℕ × Received) → List Action
unfolding receive go_on
handle_client s [] = []
handle_client s ((stale, r) ∷ rest) =
    let round = receive s.phase s stale r in round.1 ++ go_on (λ s'. handle_client s' rest) round.0
