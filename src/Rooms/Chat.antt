-- ===== src/Rooms/Chat.antt =====
-- LT1/LT1_SetA/server.c: a client's message goes to the other clients.
use networks_lab_cs39006_spr.Prelude.{
  ℕ, ◌+◌, not, ◌&&◌, List, [], ◌∷◌, ◌++◌, Option, none, some, ltb, leb, ◌==◌, if◌then◌else◌, codes,
  cstring, length, set, take,
}
use networks_lab_cs39006_spr.Rooms.Slots.{
  max_clients, buffer_size, Room, Action, sends, closes, Received, bytes, ended, Inputs, is_set,
  behind, serve_slots,
}

-- The loop of `broadcast_message`, over the slots in use.
unfoldable pub send_others : ℕ → List ℕ → List ℕ → List Action
send_others sender text [] = []
send_others sender text (c ∷ cs) =
    let rest = send_others sender text cs in
    if ltb 0 c && not (c == sender) then sends c text ∷ rest else rest

-- `address` is the sender's address and port as text.
abbrev pub chat_line : (address message : List ℕ) → List ℕ
chat_line address message = take (1023) (codes "Client " ++ address ++ codes " says: " ++ message)

unfoldable pub broadcast_message : ℕ → List ℕ → List ℕ → Room → List Action
unfolding send_others
broadcast_message sender message address r =
    send_others sender (chat_line address message) (take r.client_count r.clients)

-- `accept` returns a descriptor, or -1.
unfoldable pub handle_new_connection : Option ℕ → Room → Room × List Action
handle_new_connection none r = (r, [])
handle_new_connection (some fd) r =
    if leb max_clients r.client_count then (r, closes fd ∷ []) else (
      record { clients = set r.clients r.client_count fd; client_count = r.client_count + 1 },
      if leb 2 (r.client_count + 1)
          then sends fd (codes "Server: You are now connected to the chat.\n") ∷ []
          else [],
    )

-- A message that fills the buffer has its NUL written behind it.
unfoldable pub process_client_message :
    (ℕ → List ℕ) → Received → ℕ → ℕ → Room → Option (Room × List Action)
unfolding broadcast_message
process_client_message address ended fd index r =
    some (record r { clients = set r.clients index 0 }, closes fd ∷ [])
process_client_message address (bytes b) fd index r =
    if leb buffer_size (length b)
    then none
    else if ltb r.client_count 2
    then some (r, [])
    else some (r, broadcast_message fd (cstring b) (address fd) r)

-- The new connection of a round.
unfoldable pub accept_client : Inputs → Room → Room × List Action
unfolding handle_new_connection
accept_client inputs r =
    if inputs.server_ready then handle_new_connection inputs.accepted r else (r, [])

-- One round of the loop of `main`; `address` is what `getpeername` tells of each descriptor.
unfoldable pub round : (ℕ → List ℕ) → Inputs → Room → Option (Room × List Action)
unfolding accept_client process_client_message serve_slots
round address inputs r =
    let (r', greeting) = accept_client inputs r in
    behind greeting (
      serve_slots (λ s. s) (λ fd i s. process_client_message address (inputs.received fd) fd i s)
        (is_set inputs r) r'.client_count 0 r')
