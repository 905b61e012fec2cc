-- ===== src/Rooms/Maximum.antt =====
-- LT1/LT1_SetB/server.c: the number that is announced is the greatest, and from the right client.
use networks_lab_cs39006_spr.Prelude.{
  ℕ, suc, ◌+◌, ◌≤◌, ◌<◌, ◌≡◌, ◌⊎◌, inl, inr, refl, ap, sym, ◌∙◌, true, false, List, [], ◌∷◌, ◌++◌,
  none, some, leb, ◌==◌, if_true, if_false, true≢false, All-get_elem?, get_or, get_elem?, set, take,
  replicate, length, length-take, length-set, cstring, All, arith,
}
use networks_lab_cs39006_spr.Prelude.Int.{ℤ, pos, gtb}
use networks_lab_cs39006_spr.Rooms.Slots.{Action, bytes}
use networks_lab_cs39006_spr.Rooms.Contest.{
  Contest, no_number, is_given, Tally, no_tally, count_number, tally, finish_round, take_number,
  atoi, process_number, broadcast_all, result_message, next_message,
}

-- Every client has given a number.
abbrev pub AllGiven : List ℤ → Type 0
AllGiven ns = All (λ n. is_given n ≡ true) ns

tally-counts :
    (i : ℕ) (ns : List ℤ) (t : Tally)
    → AllGiven ns
    → (tally i ns t).received_count ≡ t.received_count + length ns
unfolding tally
tally-counts i [] t v = omega arith
tally-counts i (n ∷ ns) t v =
    let one : (count_number i n t).received_count ≡ t.received_count + 1 = ground (arith, v.0) in
    omega (arith, tally-counts (suc i) ns (count_number i n t) v.1, one)

gtb_trans : (a b c : ℤ) → gtb a b ≡ false → gtb b c ≡ false → gtb a c ≡ false
gtb_trans a b c e h = ground arith

gtb_same : (a : ℤ) → gtb a a ≡ false
gtb_same a = ground arith

-- What a tally has found in a list that begins at index `i`, from an earlier one.
record Found (i : ℕ) (ns : List ℤ) (t r : Tally) : Type 0 where
  above : gtb t.max_number r.max_number ≡ false
  greatest : All (λ n. (is_given n ≡ true) → gtb n r.max_number ≡ false) ns
  place :
      ((r.max_index ≡ t.max_index) × (r.max_number ≡ t.max_number))
      ⊎ ((k : ℕ) × (r.max_index ≡ some (i + k)) × (get_elem? ns k ≡ some r.max_number))

count_number-place :
    (i : ℕ) (n : ℤ) (t : Tally)
    → (((count_number i n t).max_index ≡ t.max_index)
        × ((count_number i n t).max_number ≡ t.max_number))
      ⊎ (((count_number i n t).max_index ≡ some i) × ((count_number i n t).max_number ≡ n))
count_number-place i n t = ground arith

tally-Found : (i : ℕ) (ns : List ℤ) (t : Tally) → Found i ns t (tally i ns t)
unfolding tally
tally-Found i [] t = record {
  above = gtb_same t.max_number;
  greatest = tt;
  place = inl (refl, refl);
}
tally-Found i (n ∷ ns) t =
    let u = count_number i n t in
    let rest = tally-Found (suc i) ns u in
    record {
      above =
          gtb_trans t.max_number u.max_number (tally (suc i) ns u).max_number (ground arith)
            rest.above;
      greatest = (
        (λ g.
            gtb_trans n u.max_number (tally (suc i) ns u).max_number (ground (arith, g))
              rest.above),
        rest.greatest,
      );
      place = elim rest.place [
        | inl (p, q) ↦ elim (count_number-place i n t) [
          | inl (a, b) ↦ inl (p ∙ a, q ∙ b)
          | inr (a, b) ↦ inr (
            0,
            p ∙ a ∙ ap some (let same : i ≡ i + 0 = omega arith in same),
            ap some (sym (q ∙ b)),
          )
        ]
        | inr (k, p, q) ↦
            inr (suc k, p ∙ ap some (let same : suc i + k ≡ i + suc k = omega arith in same), q)
      ];
    }

-- What is done when the last number has come: everybody is told the greatest, which a client in use
-- has given, and the next round begins with no numbers.
pub record Announced (address : ℕ → List ℕ) (numbers : List ℤ) (s s' : Contest)
    (actions : List Action) : Type 0 where
  pub winner : ℕ
  pub greatest : ℤ
  pub given : get_elem? (take s.room.client_count numbers) winner ≡ some greatest
  pub above : All (λ n. gtb n greatest ≡ false) (take s.room.client_count numbers)
  pub told :
      actions
      ≡ broadcast_all
          (result_message s.round_number greatest (address (get_or s.room.clients winner 0)))
          s.room
        ++ broadcast_all (next_message (s.round_number + 1)) s.room
  pub kept : s'.room ≡ s.room
  pub cleared : s'.numbers ≡ replicate 5 no_number
  pub next : s'.round_number ≡ s.round_number + 1

finish_round-Announced :
    (address : ℕ → List ℕ) (numbers : List ℤ) (s : Contest) (greatest : ℤ) (winner : ℕ)
    → get_elem? (take s.room.client_count numbers) winner ≡ some greatest
    → All (λ n. gtb n greatest ≡ false) (take s.room.client_count numbers)
    → (s' : Contest) × (actions : List Action) × (finish_round address greatest
          (some winner)
          (record s { numbers = numbers })
        ≡ some (s', actions))
      × Announced address numbers s s' actions
unfolding finish_round
finish_round-Announced address numbers s greatest winner e v = (
  _,
  _,
  refl,
  record {
    winner = winner;
    greatest = greatest;
    given = e;
    above = v;
    told = refl;
    kept = refl;
    cleared = refl;
    next = refl;
  },
)

all_below :
    (ns : List ℤ) (greatest : ℤ)
    → AllGiven ns
    → All (λ n. (is_given n ≡ true) → gtb n greatest ≡ false) ns
    → All (λ n. gtb n greatest ≡ false) ns
all_below [] greatest v h = tt
all_below (n ∷ ns) greatest v h = (h.0 v.0, all_below ns greatest v.1 h.1)

-- The last number that was missing, taken.
take_number-Announced :
    (address : ℕ → List ℕ) (k : ℤ) (index : ℕ) (s : Contest)
    → s.room.client_count ≤ length s.numbers
    → AllGiven (take s.room.client_count (set s.numbers index k))
    → (j m : ℕ) → get_elem? (take s.room.client_count (set s.numbers index k)) j ≡ some (pos m)
    → (s' : Contest) × (actions : List Action) × (take_number address k index s
        ≡ some (s', actions))
      × Announced address (set s.numbers index k) s s' actions
unfolding take_number
take_number-Announced address k index s h v j m e =
    let numbers : List ℤ = set s.numbers index k in
    let ns : List ℤ = take s.room.client_count numbers in
    let t : Tally = tally 0 ns no_tally in
    let found : Found 0 ns no_tally t = tally-Found 0 ns no_tally in
    let below = all_below ns t.max_number v found.greatest in
    let all : t.received_count ≡ s.room.client_count = omega (
      arith,
      tally-counts 0 ns no_tally v,
      length-take s.room.client_count numbers,
      length-set s.numbers index k,
    ) in
    let over =
      if_true (t.received_count == s.room.client_count)
        (finish_round address t.max_number t.max_index (record s { numbers = numbers }))
        (some (record s { numbers = numbers }, [])) (ground arith) in
    elim found.place [
      | inl (p, q) ↦ absurd (
          true≢false (
            ap (gtb (pos m)) (sym q)
            ∙ All-get_elem? (λ n. gtb n t.max_number ≡ false) ns j below e))
      | inr (w, p, q) ↦
          (let (s', actions, f, a) =
              finish_round-Announced address numbers s t.max_number w q below in
            (
              s',
              actions,
              over
                  ∙ ap (λ o. finish_round address t.max_number o (record s { numbers = numbers }))
                      (p ∙ ap some (let same : 0 + w ≡ w = omega arith in same))
                  ∙ f,
              a,
            ))
    ]

-- When a message of fewer than 1024 bytes, from a slot without a number, brings the last number of
-- a round, where the numbers are an array with a place for every client counted, the new one is
-- the int of 32 bits that atoi makes of the text, none of those in use is then the -1 that stands
-- for no number, and one of them is not negative, every open client is told a number in use that
-- no number in use exceeds, with the address of the client in its place, and then the next round,
-- which begins with no numbers.
pub process_number-Announced :
    (address : ℕ → List ℕ) (b : List ℕ) (fd index : ℕ) (s : Contest)
    → length b < 1024
    → is_given (get_or s.numbers index no_number) ≡ false
    → s.room.client_count ≤ length s.numbers
    → AllGiven (take s.room.client_count (set s.numbers index (atoi (cstring b))))
    → (j m : ℕ)
    → get_elem? (take s.room.client_count (set s.numbers index (atoi (cstring b)))) j ≡ some (pos m)
    → (s' : Contest) × (actions : List Action) × (process_number address (bytes b) fd index s
        ≡ some (s', actions))
      × Announced address (set s.numbers index (atoi (cstring b))) s s' actions
unfolding process_number
process_number-Announced address b fd index s short open_slot h v j m e =
    let (s', actions, f, a) = take_number-Announced address (atoi (cstring b)) index s h v j m e in
    (
      s',
      actions,
      if_false (leb 1024 (length b)) none _ (ground arith)
          ∙ if_false (is_given (get_or s.numbers index no_number)) _ _ open_slot
          ∙ f,
      a,
    )
