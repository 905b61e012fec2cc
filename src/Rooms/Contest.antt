-- ===== src/Rooms/Contest.antt =====
-- LT1/LT1_SetB/server.c: in each round every client sends a number, and all are told the greatest.
use networks_lab_cs39006_spr.Prelude.{
  ℕ, zero, suc, ◌+◌, ◌-◌, ◌%◌, ◌^◌, Bool, true, false, List, [], ◌∷◌, ◌++◌, Option, none, some, ltb,
  leb, ◌==◌, if◌then◌else◌, codes, cstring, get_or, length, replicate, set, take,
}
use networks_lab_cs39006_spr.Prelude.Int.{ℤ, pos, negsuc, gtb}
use networks_lab_cs39006_spr.Prelude.Decimal.{decimal, strtol}
use networks_lab_cs39006_spr.Rooms.Slots.{
  max_clients, buffer_size, Room, empty_room, Action, sends, closes, Received, bytes, ended, Inputs,
  is_set, behind, serve_slots,
}

-- `numbers`, where -1 stands for no number yet, and `round_number`.
pub record Contest : Type 0 where
  pub room : Room
  pub numbers : List ℤ
  pub round_number : ℕ

abbrev pub no_number : ℤ
no_number = negsuc 0

-- `{-1}` sets the first entry, and the others are 0.
abbrev pub new_contest : Contest
new_contest = record {
  room = empty_room;
  numbers = no_number ∷ replicate 4 (pos 0);
  round_number = 1;
}

-- The loop of `broadcast_message`, over the slots in use.
unfoldable pub send_all : List ℕ → List ℕ → List Action
send_all message [] = []
send_all message (c ∷ cs) =
    let rest = send_all message cs in if ltb 0 c then sends c message ∷ rest else rest

unfoldable pub broadcast_all : List ℕ → Room → List Action
unfolding send_all
broadcast_all message r = send_all message (take r.client_count r.clients)

-- The messages, each cut to the buffer.
abbrev pub ask_number : ℕ → List ℕ
ask_number n = take 1023 (codes "Server: Send your number for Round " ++ decimal n ++ 10 ∷ [])

abbrev pub duplicate : ℕ → List ℕ
duplicate n =
    take 1023
      (codes "Server: Duplicate messages for Round " ++ decimal n ++ codes " are not allowed.\n")

abbrev pub number_text : ℤ → List ℕ
number_text (pos n) = decimal n
number_text (negsuc n) = b'-' ∷ decimal (suc n)

-- `address` is the winner's address and port as text.
unfoldable pub result_message : ℕ → ℤ → List ℕ → List ℕ
result_message n max_number address = take 1023 (
    codes "Server: Maximum Number Received in Round "
    ++ decimal n
    ++ codes " is: "
    ++ number_text max_number
    ++ codes ". From "
    ++ address
    ++ 10 ∷ [])

unfoldable pub next_message : ℕ → List ℕ
next_message n = take 1023 (codes "Server: Enter the number for Round " ++ decimal n ++ codes ":\n")

-- `accept` returns a descriptor, or -1.
unfoldable pub accept_player : Option ℕ → Contest → Contest × List Action
accept_player none s = (s, [])
accept_player (some fd) s = if leb max_clients s.room.client_count then (s, closes fd ∷ []) else (
  record {
    room = record {
      clients = set s.room.clients s.room.client_count fd;
      client_count = s.room.client_count + 1;
    };
    numbers = set s.numbers s.room.client_count no_number;
    round_number = s.round_number;
  },
  sends fd (ask_number s.round_number) ∷ [],
)

-- The `int` of 32 bits that a `long` is cut to: its low bits, as two's complement.
abbrev pub cut_int : ℕ → ℤ
cut_int n = if ltb (n % 2 ^ 32) (2 ^ 31) then pos (n % 2 ^ 32) else negsuc (2 ^ 32 - 1 - n % 2 ^ 32)

abbrev pub at_most : ℕ → ℕ → ℕ
at_most limit n = if ltb limit n then limit else n

-- What `strtol` returns, which stops at the ends of a `long` of 64 bits, cut to an `int`.
abbrev pub int_of : Option (Bool × ℕ) → ℤ
int_of none = pos 0
int_of (some (false, n)) = cut_int (at_most (2 ^ 63 - 1) n)
int_of (some (true, n)) = cut_int (2 ^ 64 - at_most (2 ^ 63) n)

-- `atoi`, as `(int) strtol`.
unfoldable pub atoi : List ℕ → ℤ
unfolding strtol
atoi text = int_of (strtol text)

abbrev pub is_given : ℤ → Bool
is_given (pos n) = true
is_given (negsuc zero) = false
is_given (negsuc (suc n)) = true

-- `received_count`, `max_number` and `max_index`, where `none` is -1.
pub record Tally : Type 0 where
  pub received_count : ℕ
  pub max_number : ℤ
  pub max_index : Option ℕ

abbrev pub no_tally : Tally
no_tally = record { received_count = 0; max_number = no_number; max_index = none }

abbrev pub count_number : ℕ → ℤ → Tally → Tally
count_number i n t =
    if is_given n
    then (if gtb n t.max_number
        then record { received_count = t.received_count + 1; max_number = n; max_index = some i }
        else record t { received_count = t.received_count + 1 })
    else t

-- The loop over the numbers in use, from index `i` on.
unfoldable pub tally : ℕ → List ℤ → Tally → Tally
tally i [] t = t
tally i (n ∷ ns) t = tally (suc i) ns (count_number i n t)

-- With a number from every client the round is over. Where the index of the greatest is -1, the
-- source reads the array of clients in front of its start.
unfoldable pub finish_round : (ℕ → List ℕ) → ℤ → Option ℕ → Contest → Option (Contest × List Action)
unfolding result_message next_message broadcast_all
finish_round address max_number none s = none
finish_round address max_number (some i) s = some (
  record {
    room = s.room;
    numbers = replicate max_clients no_number;
    round_number = s.round_number + 1;
  },
  broadcast_all (result_message s.round_number max_number (address (get_or s.room.clients i 0)))
        s.room
      ++ broadcast_all (next_message (s.round_number + 1)) s.room,
)

unfoldable pub take_number : (ℕ → List ℕ) → ℤ → ℕ → Contest → Option (Contest × List Action)
unfolding tally finish_round
take_number address n index s =
    let s' = record s { numbers = set s.numbers index n } in
    let t = tally 0 (take s.room.client_count s'.numbers) no_tally in
    if t.received_count == s.room.client_count
    then finish_round address t.max_number t.max_index s'
    else some (s', [])

-- A message that fills the buffer has its NUL written behind it.
unfoldable pub process_number :
    (ℕ → List ℕ) → Received → ℕ → ℕ → Contest → Option (Contest × List Action)
unfolding take_number atoi
process_number address ended fd index s = some (
  record s {
    room = record { clients = set s.room.clients index 0; client_count = s.room.client_count };
  },
  closes fd ∷ [],
)
process_number address (bytes b) fd index s =
    if leb buffer_size (length b)
    then none
    else if is_given (get_or s.numbers index no_number)
    then some (s, sends fd (duplicate s.round_number) ∷ [])
    else take_number address (atoi (cstring b)) index s

unfoldable pub accept_if_ready : Inputs → Contest → Contest × List Action
unfolding accept_player
accept_if_ready inputs s = if inputs.server_ready then accept_player inputs.accepted s else (s, [])

-- One round of the loop of `main`; `address` is what `getpeername` tells of each descriptor.
unfoldable pub contest_round : (ℕ → List ℕ) → Inputs → Contest → Option (Contest × List Action)
unfolding accept_if_ready process_number serve_slots
contest_round address inputs s =
    let (s', greeting) = accept_if_ready inputs s in
    behind greeting (
      serve_slots (λ c. c.room) (λ fd i c. process_number address (inputs.received fd) fd i c)
        (is_set inputs s.room) s'.room.client_count 0 s')
