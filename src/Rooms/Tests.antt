-- ===== src/Rooms/Tests.antt =====
-- Runs of the servers of LT1, and their theorems on them.
use networks_lab_cs39006_spr.Prelude.{
  ℕ, ◌≡◌, ◌≢◌, ◌↔◌, refl, Bool, true, false, ◌||◌, zero, suc, get_elem?, List, [], ◌∷◌, none, some,
  ◌==◌, codes, cstring, set, arith, some-injective,
}
use networks_lab_cs39006_spr.Prelude.Int.{pos, negsuc}
use networks_lab_cs39006_spr.Prelude.Decimal.{digits_value}
use networks_lab_cs39006_spr.Rooms.Slots.{
  Room, empty_room, Action, sends, bytes, ended, Inputs, run_rounds, is_set,
}
use networks_lab_cs39006_spr.Rooms.Chat.{chat_line, process_client_message, accept_client, round}
use networks_lab_cs39006_spr.Rooms.Contest.{
  Contest, new_contest, no_number, contest_round, process_number, atoi,
}
use networks_lab_cs39006_spr.Rooms.Loops.{Returns}
use networks_lab_cs39006_spr.Rooms.Stalled.{Missing, contest_round-Missing}
use networks_lab_cs39006_spr.Rooms.Maximum.{Announced, process_number-Announced}
use networks_lab_cs39006_spr.Rooms.Relay.{InUse, Occurs, process_client_message-InUse}
use networks_lab_cs39006_spr.Rooms.Seats.{IsRoom, SendsTo, Reach, start, later}
use networks_lab_cs39006_spr.Rooms.Full.{Reach-SendsTo, full-SendsTo}

abbrev local : ℕ → List ℕ
local fd = codes "127.0.0.1:4000"

-- A round in which a client comes, and one in which a client sends some bytes.
abbrev joins : ℕ → Inputs
joins fd = record {
  server_ready = true;
  accepted = some fd;
  ready = λ g. false;
  received = λ g. ended;
}

abbrev says : ℕ → List ℕ → Inputs
says fd text = record {
  server_ready = false;
  accepted = none;
  ready = λ g. g == fd;
  received = λ g. bytes text;
}

abbrev leaves : ℕ → Inputs
leaves fd = record {
  server_ready = false;
  accepted = none;
  ready = λ g. g == fd;
  received = λ g. ended;
}

abbrev seated : ℕ → List ℕ → Room
seated n clients = record { clients = clients; client_count = n }

abbrev room_1 : Room
room_1 = seated 1 (4 ∷ 0 ∷ 0 ∷ 0 ∷ 0 ∷ [])

abbrev room_2 : Room
room_2 = seated 2 (4 ∷ 5 ∷ 0 ∷ 0 ∷ 0 ∷ [])

abbrev room_3 : Room
room_3 = seated 3 (4 ∷ 5 ∷ 6 ∷ 0 ∷ 0 ∷ [])

abbrev room_4 : Room
room_4 = seated 4 (4 ∷ 5 ∷ 6 ∷ 7 ∷ 0 ∷ [])

abbrev room_5 : Room
room_5 = seated 5 (4 ∷ 5 ∷ 6 ∷ 7 ∷ 8 ∷ [])

process_client_message-InUse_example :
    (actions : List Action) × (process_client_message local (bytes (codes "hi")) 5 1 room_3
      ≡ some (room_3, actions))
    × ((to : ℕ) (text : List ℕ)
        → Occurs (sends to text) actions
          ↔ (InUse room_3 to × (to ≢ 5) × (text ≡ chat_line (local 5) (cstring (codes "hi")))))
process_client_message-InUse_example =
    process_client_message-InUse local (codes "hi") 5 1 room_3 (omega arith) (omega arith)

abbrev occurs : List ℕ → ℕ → Bool
occurs [] fd = false
occurs (c ∷ cs) fd = (c == fd) || occurs cs fd

not_among : (cs : List ℕ) (fd : ℕ) → occurs cs fd ≡ false → (i : ℕ) → get_elem? cs i ≢ some fd
not_among [] fd h i e = cc
not_among (c ∷ cs) fd h zero e = let same : c ≡ fd = some-injective c fd e in ground arith
not_among (c ∷ cs) fd h (suc i) e = not_among cs fd (ground arith) i e

-- Four clients come one after the other, and then a fifth.
one : Reach local room_1
unfolding round is_set
one = later (joins 4) start (λ fd. tt) (omega arith, not_among empty_room.clients 4 refl) refl

two : Reach local room_2
unfolding round is_set
two = later (joins 5) one (λ fd. tt) (omega arith, not_among room_1.clients 5 refl) refl

three : Reach local room_3
unfolding round is_set
three = later (joins 6) two (λ fd. tt) (omega arith, not_among room_2.clients 6 refl) refl

four : Reach local room_4
unfolding round is_set
four = later (joins 7) three (λ fd. tt) (omega arith, not_among room_3.clients 7 refl) refl

five : Reach local room_5
unfolding round is_set
five = later (joins 8) four (λ fd. tt) (omega arith, not_among room_4.clients 8 refl) refl

Reach-SendsTo_example :
    Returns IsRoom
      (SendsTo (InUse (accept_client (joins 8) room_4).0))
      (round local (joins 8) room_4)
Reach-SendsTo_example =
    Reach-SendsTo local (joins 8) room_4 four (λ fd. tt)
      (omega arith, not_among room_4.clients 8 refl)

-- All leave, and still nobody gets in.
abbrev evening : List Inputs
evening = says 4 (codes "bye") ∷ leaves 4 ∷ leaves 5 ∷ leaves 6 ∷ leaves 7 ∷ leaves 8 ∷ joins 9 ∷ []

full-SendsTo_example :
    Returns
      (λ s. s.client_count ≡ 5)
      (SendsTo (InUse room_5))
      (run_rounds (round local) evening room_5)
full-SendsTo_example = full-SendsTo local evening room_5 five refl (
  (λ fd. omega arith),
  ((λ fd. tt), ((λ fd. tt), ((λ fd. tt), ((λ fd. tt), ((λ fd. tt), ((λ fd. tt), tt)))))),
)

-- A contest of two, of whom the first leaves before the round is over.
abbrev left : Contest
left = record {
  room = seated 2 (0 ∷ 5 ∷ 0 ∷ 0 ∷ 0 ∷ []);
  numbers = no_number ∷ no_number ∷ pos 0 ∷ pos 0 ∷ pos 0 ∷ [];
  round_number = 1;
}

left_reached :
    (actions : List Action) × (run_rounds
        (contest_round local)
        (joins 4 ∷ joins 5 ∷ leaves 4 ∷ [])
        new_contest
      ≡ some (left, actions))
unfolding run_rounds contest_round is_set
left_reached = (_, refl)

left-Missing : Missing 0 1 left
left-Missing = record {
  used = omega arith;
  few = omega arith;
  slots = refl;
  places = refl;
  gone = refl;
  silent = refl;
  same = refl;
}

contest_round-Missing_example :
    Returns
      (Missing 0 1)
      (λ a. Unit)
      (run_rounds (contest_round local) (says 5 (codes "7") ∷ joins 6 ∷ []) left)
contest_round-Missing_example =
    contest_round-Missing 0 1 local (says 5 (codes "7") ∷ joins 6 ∷ []) left left-Missing
      ((λ fd. omega arith), ((λ fd. tt), tt))

-- The second of two clients sends the last number.
abbrev open_round : Contest
open_round = record {
  room = seated 2 (4 ∷ 5 ∷ 0 ∷ 0 ∷ 0 ∷ []);
  numbers = pos 3 ∷ no_number ∷ pos 0 ∷ pos 0 ∷ pos 0 ∷ [];
  round_number = 1;
}

process_number-Announced_example :
    (s' : Contest) × (actions : List Action) × (process_number local
        (bytes (codes "12"))
        5
        1
        open_round
      ≡ some (s', actions))
    × Announced local (set open_round.numbers 1 (atoi (cstring (codes "12")))) open_round s' actions
unfolding atoi digits_value
process_number-Announced_example =
    process_number-Announced local (codes "12") 5 1 open_round (omega arith) refl (omega arith)
      (refl, (refl, tt)) 0 3 refl

-- With negative numbers only, the array of clients is read in front of its start; and -1 is no number.
all_negative :
    process_number local
      (bytes (codes "-5"))
      5
      1
      (record open_round { numbers = negsuc 6 ∷ no_number ∷ [] })
    ≡ none
unfolding process_number atoi digits_value
all_negative = refl

minus_one :
    (s : Contest) × (process_number local (bytes (codes "-1")) 5 1 open_round ≡ some (s, []))
    × (s.numbers ≡ open_round.numbers)
unfolding process_number atoi digits_value
minus_one = (_, refl, refl)

-- Numbers past the range of `int`.
past_int :
    (atoi (codes "4294967295") ≡ negsuc 0)
    × (atoi (codes "4294967296") ≡ pos 0)
    × (atoi (codes "99999999999999999999") ≡ negsuc 0)
    × (atoi (codes "-2147483649") ≡ pos 2147483647)
unfolding atoi digits_value
past_int = (refl, refl, refl, refl)
