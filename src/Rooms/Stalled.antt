-- ===== src/Rooms/Stalled.antt =====
-- LT1/LT1_SetB/server.c: a client that leaves before it has sent its number holds up its round for
-- ever.
use networks_lab_cs39006_spr.Prelude.{
  ℕ, zero, suc, ◌+◌, ◌≤◌, ◌<◌, ◌≡◌, ◌≢◌, sym, ◌∙◌, subst, if_false, ◌&&◌, List, [], ◌∷◌, Option,
  none, some, ltb, leb, ◌==◌, if_split, if_elim, some-injective, ap, length-take, length-set,
  get_elem?-set_ne, get_or-set_ne, get_or, get_elem?, set, take, length, cstring, All, arith,
}
use networks_lab_cs39006_spr.Prelude.Int.{ℤ}
use networks_lab_cs39006_spr.Rooms.Slots.{
  Action, Received, bytes, ended, Inputs, is_set, serve_slot, run_rounds,
}
use networks_lab_cs39006_spr.Rooms.Contest.{
  Contest, no_number, is_given, Tally, no_tally, count_number, tally, take_number, process_number,
  accept_player, accept_if_ready, contest_round, atoi,
}
use networks_lab_cs39006_spr.Rooms.Loops.{
  Returns, IsShort, AreShort, behind-Returns, serve_slots-Returns, run_rounds-Returns,
}

-- The client of slot `i` is gone, and its number has not come, in round `n`.
pub record Missing (i n : ℕ) (s : Contest) : Type 0 where
  pub used : i < s.room.client_count
  pub few : s.room.client_count ≤ 5
  pub slots : length s.room.clients ≡ 5
  pub places : length s.numbers ≡ 5
  pub gone : get_or s.room.clients i 0 ≡ 0
  pub silent : get_elem? s.numbers i ≡ some no_number
  pub same : s.round_number ≡ n

count_number_le :
    (i : ℕ) (n : ℤ) (t : Tally) → (count_number i n t).received_count ≤ t.received_count + 1
count_number_le i n t = ground arith

tally_le :
    (i : ℕ) (ns : List ℤ) (t : Tally) → (tally i ns t).received_count ≤ t.received_count + length ns
unfolding tally
tally_le i [] t = omega arith
tally_le i (n ∷ ns) t =
    omega (arith, tally_le (suc i) ns (count_number i n t), count_number_le i n t)

-- One number that is missing is enough for the count to fall short.
tally-missing :
    (i j k : ℕ) (ns : List ℤ) (t : Tally)
    → get_elem? ns i ≡ some no_number
    → i < k
    → (tally j (take k ns) t).received_count < t.received_count + k
unfolding tally
tally-missing i j k [] t e h = cc
tally-missing i j zero (n ∷ ns) t e h = absurd (omega arith)
tally-missing zero j (suc k) (n ∷ ns) t e h =
    let missing : n ≡ no_number = some-injective n no_number e in
    let same : (count_number j n t).received_count ≡ t.received_count =
      ap (λ m. (count_number j m t).received_count) missing in
    omega (arith, tally_le (suc j) (take k ns) (count_number j n t), same, length-take k ns)
tally-missing (suc i) j (suc k) (n ∷ ns) t e h = omega (
  arith,
  tally-missing i (suc j) k ns (count_number j n t) e (omega arith),
  count_number_le j n t,
)

-- A new connection takes a slot behind those in use.
accept_player-Missing :
    (i n : ℕ) (accepted : Option ℕ) (s : Contest)
    → Missing i n s
    → Missing i n (accept_player accepted s).0
unfolding accept_player
accept_player-Missing i n none s m = m
accept_player-Missing i n (some fd) s m =
    if_split (λ (r : Contest × List Action). Missing i n r.0) (leb 5 s.room.client_count) _ _
      (λ e. m)
      (λ e.
        let behind : s.room.client_count ≢ i = λ same. omega (arith, m.used, same) in
        record {
          used = omega (arith, m.used);
          few = ground (arith, m.few);
          slots = length-set s.room.clients s.room.client_count fd ∙ m.slots;
          places = length-set s.numbers s.room.client_count no_number ∙ m.places;
          gone = get_or-set_ne s.room.clients s.room.client_count i fd 0 behind ∙ m.gone;
          silent = get_elem?-set_ne s.numbers no_number behind ∙ m.silent;
          same = m.same;
        })

accept-Missing :
    (i n : ℕ) (inputs : Inputs) (s : Contest)
    → Missing i n s
    → Missing i n (accept_if_ready inputs s).0
unfolding accept_if_ready
accept-Missing i n inputs s m =
    if_elim (λ (r : Contest × List Action). Missing i n r.0) inputs.server_ready _ (s, [])
      (accept_player-Missing i n inputs.accepted s m) m

-- A round of a slot that is not the one of the client that is gone.
number-Missing :
    (i n j : ℕ) (k : ℤ) (address : ℕ → List ℕ) (s : Contest)
    → Missing i n s
    → j ≢ i
    → Returns (Missing i n) (λ a. Unit) (take_number address k j s)
unfolding take_number
number-Missing i n j k address s m d =
    let s' : Contest = record s { numbers = set s.numbers j k } in
    let kept : Missing i n s' = record {
      used = m.used;
      few = m.few;
      slots = m.slots;
      places = length-set s.numbers j k ∙ m.places;
      gone = m.gone;
      silent = get_elem?-set_ne s.numbers k d ∙ m.silent;
      same = m.same;
    } in
    let short = tally-missing i 0 s.room.client_count s'.numbers no_tally kept.silent m.used in
    subst (Returns (Missing i n) (λ a. Unit {0}))
      (sym (
        if_false
          ((tally 0 (take s.room.client_count s'.numbers) no_tally).received_count
            == s.room.client_count)
          _ (some (s', [])) (ground (arith, short))))
      (kept, tt)

all_actions : (actions : List Action) → All (λ a. Unit {0}) actions
all_actions [] = tt
all_actions (a ∷ actions) = (tt, all_actions actions)

process-Missing :
    (i n j fd : ℕ) (received : Received) (address : ℕ → List ℕ) (s : Contest)
    → Missing i n s
    → j ≢ i
    → IsShort received
    → Returns (Missing i n) (λ a. Unit) (process_number address received fd j s)
unfolding process_number
process-Missing i n j fd ended address s m d v = (
  record {
    used = m.used;
    few = m.few;
    slots = length-set s.room.clients j 0 ∙ m.slots;
    places = m.places;
    gone = get_or-set_ne s.room.clients j i 0 0 d ∙ m.gone;
    silent = m.silent;
    same = m.same;
  },
  (tt, tt),
)
process-Missing i n j fd (bytes b) address s m d v =
    if_split (Returns (Missing i n) (λ a. Unit {0})) (leb 1024 (length b)) none _
      (λ e. absurd (ground (arith, v)))
      (λ e.
        if_elim (Returns (Missing i n) (λ a. Unit {0})) (is_given (get_or s.numbers j no_number)) _
          _ (m, (tt, tt)) (number-Missing i n j (atoi (cstring b)) address s m d))

round_keeps :
    (i n : ℕ) (address : ℕ → List ℕ) (inputs : Inputs) (s : Contest)
    → AreShort inputs
    → Missing i n s
    → Returns (Missing i n) (λ a. Unit) (contest_round address inputs s)
unfolding contest_round serve_slot
round_keeps i n address inputs s v m =
    let start = accept_if_ready inputs s in
    let isset = is_set inputs s.room in
    behind-Returns (Missing i n) (λ a. Unit {0}) start.1 _ (all_actions start.1)
      (serve_slots-Returns (Missing i n) (λ a. Unit {0}) (λ c. c.room)
        (λ fd j c. process_number address (inputs.received fd) fd j c) isset
        (λ j t p.
          let fd = get_or t.room.clients j 0 in
          if_split (Returns (Missing i n) (λ a. Unit {0})) (ltb 0 fd && isset fd) _ (some (t, []))
            (λ e.
              process-Missing i n j fd (inputs.received fd) address t p
                (λ same.
                  let none_there : fd ≡ 0 = ap (λ k. get_or t.room.clients k 0) same ∙ p.gone in
                  ground arith)
                (v fd))
            (λ e. (p, tt)))
        start.0.room.client_count 0 start.0 (accept-Missing i n inputs s m))

-- Once a client in use has left without a number in a round, that round is never over: whatever
-- rounds follow, with messages of fewer than 1024 bytes, the server runs on, the slot stays empty
-- and without a number, and the round number stays the same.
pub contest_round-Missing :
    (i n : ℕ) (address : ℕ → List ℕ) (rounds : List Inputs) (s : Contest)
    → Missing i n s
    → All AreShort rounds
    → Returns (Missing i n) (λ a. Unit) (run_rounds (contest_round address) rounds s)
contest_round-Missing i n address rounds s m v =
    run_rounds-Returns (Missing i n) (λ a. Unit {0}) (contest_round address)
      (λ inputs t short p. round_keeps i n address inputs t short p) rounds s v m
