-- ===== src/Rooms/Full.antt =====
-- LT1/LT1_SetA/server.c over many rounds: whom it writes to, and what becomes of it once five clients
-- have come.
use networks_lab_cs39006_spr.Prelude.{
  ℕ, ◌+◌, ◌<◌, ◌≡◌, refl, sym, subst, List, [], Option, none, some, leb, if_split, if_elim,
  get_elem?, set, get_elem?-set_self, All, All-get_elem?, All-replicate, replicate, arith,
}
use networks_lab_cs39006_spr.Rooms.Slots.{Room, empty_room, Action, Inputs, is_set, run_rounds}
use networks_lab_cs39006_spr.Rooms.Chat.{handle_new_connection, accept_client, round}
use networks_lab_cs39006_spr.Rooms.Loops.{Returns, AreShort, behind-Returns, run_rounds-Returns}
use networks_lab_cs39006_spr.Rooms.Relay.{InUse}
use networks_lab_cs39006_spr.Rooms.Seats.{
  IsRoom, IsFresh, handle_new_connection-IsRoom, Kept, SendsTo, serve-Kept, Reach, start, later,
}

empty_room-IsRoom : IsRoom empty_room
empty_room-IsRoom = record {
  slots = refl;
  few = omega arith;
  first = λ i fd e p. absurd (all_zero i fd e p);
  distinct = λ i j fd e f p. absurd (all_zero i fd e p);
}
  where
    all_zero : (i fd : ℕ) → get_elem? empty_room.clients i ≡ some fd → 0 < fd → ⊥
    all_zero i fd e p =
        let zero_there : fd ≡ 0 =
          All-get_elem? (λ n. n ≡ 0) (replicate 5 0) i (All-replicate (λ n. n ≡ 0) 5 0 refl) e in
        omega arith

-- A new client is greeted, or turned away.
greeting-SendsTo :
    (r : Room) (accepted : Option ℕ)
    → IsRoom r
    → IsFresh r accepted
    → All
        (SendsTo (InUse (handle_new_connection accepted r).0))
        (handle_new_connection accepted r).1
unfolding handle_new_connection
greeting-SendsTo r none v new = tt
greeting-SendsTo r (some fd) v new =
    if_split (λ (s : Room × List Action). All (SendsTo (InUse s.0)) s.1) (leb 5 r.client_count) _ _
      (λ e. (tt, tt))
      (λ e.
        let r' : Room = record {
          clients = set r.clients r.client_count fd;
          client_count = r.client_count + 1;
        } in
        let there : InUse r' fd = (
          r.client_count,
          omega arith,
          get_elem?-set_self r.clients r.client_count fd (ground (arith, v.slots)),
          new.0,
        ) in
        if_elim (All (SendsTo (InUse r'))) (leb 2 (r.client_count + 1)) _ [] (there, tt) tt)

accept-Kept :
    (inputs : Inputs) (r : Room)
    → IsRoom r
    → IsFresh r inputs.accepted
    → IsRoom (accept_client inputs r).0
      × All (SendsTo (InUse (accept_client inputs r).0)) (accept_client inputs r).1
unfolding accept_client
accept-Kept inputs r v new =
    if_elim (λ (s : Room × List Action). IsRoom s.0 × All (SendsTo (InUse s.0)) s.1)
      inputs.server_ready _ (r, [])
      (
        handle_new_connection-IsRoom r inputs.accepted v new,
        greeting-SendsTo r inputs.accepted v new,
      )
      (v, tt)

round-Kept :
    (address : ℕ → List ℕ) (inputs : Inputs) (r : Room)
    → IsRoom r
    → AreShort inputs
    → IsFresh r inputs.accepted
    → Returns
        (Kept (InUse (accept_client inputs r).0) (accept_client inputs r).0.client_count)
        (SendsTo (InUse (accept_client inputs r).0))
        (round address inputs r)
unfolding round
round-Kept address inputs r v h new =
    let begun = accept_client inputs r in
    let kept = accept-Kept inputs r v new in
    behind-Returns (Kept (InUse begun.0) begun.0.client_count) (SendsTo (InUse begun.0)) begun.1 _
      kept.1
      (serve-Kept (InUse begun.0) begun.0.client_count address inputs (is_set inputs r)
        begun.0.client_count 0 begun.0 h
        (record { room = kept.0; same = refl; within = λ fd u. u }))

returned :
    (P : Room → Type 0) (Q : Action → Type 0) (o : Option (Room × List Action)) (s : Room)
    (actions : List Action)
    → o ≡ some (s, actions)
    → Returns P Q o
    → P s
returned P Q o s actions e v = (subst (Returns P Q) e v).0

Reach-IsRoom : (address : ℕ → List ℕ) (r : Room) → Reach address r → IsRoom r
Reach-IsRoom address r start = empty_room-IsRoom
Reach-IsRoom address r (later {r = old} {actions} inputs reach h new e) =
    (returned (Kept (InUse (accept_client inputs old).0) (accept_client inputs old).0.client_count)
      (SendsTo (InUse (accept_client inputs old).0)) (round address inputs old) r actions e
      (round-Kept address inputs old (Reach-IsRoom address old reach) h new)).room

weaken :
    (P P' : Room → Type 0) (Q : Action → Type 0) (o : Option (Room × List Action))
    → ((s : Room) → P s → P' s)
    → Returns P Q o
    → Returns P' Q o
weaken P P' Q none h v = v
weaken P P' Q (some (s, actions)) h v = (h s v.0, v.1)

-- In every state of the chat that is reached with fresh descriptors and messages of fewer than
-- 1024 bytes, a further such round ends, writes only to open clients in use after its accept, and
-- keeps the slots: five, those in use first, and no descriptor in two.
pub Reach-SendsTo :
    (address : ℕ → List ℕ) (inputs : Inputs) (r : Room)
    → Reach address r
    → AreShort inputs
    → IsFresh r inputs.accepted
    → Returns IsRoom (SendsTo (InUse (accept_client inputs r).0)) (round address inputs r)
Reach-SendsTo address inputs r reach h new =
    weaken _ IsRoom _ (round address inputs r) (λ s v. v.room)
      (round-Kept address inputs r (Reach-IsRoom address r reach) h new)

-- A server that is full turns the new client away.
full_connection :
    (U : ℕ → Type 0) (accepted : Option ℕ) (r : Room)
    → r.client_count ≡ 5
    → ((handle_new_connection accepted r).0 ≡ r)
      × All (SendsTo U) (handle_new_connection accepted r).1
unfolding handle_new_connection
full_connection U none r e = (refl, tt)
full_connection U (some fd) r e =
    if_split (λ (s : Room × List Action). (s.0 ≡ r) × All (SendsTo U) s.1) (leb 5 r.client_count) _
      _ (λ t. (refl, (tt, tt))) (λ t. absurd (ground arith))

full_accept :
    (U : ℕ → Type 0) (inputs : Inputs) (r : Room)
    → r.client_count ≡ 5
    → ((accept_client inputs r).0 ≡ r) × All (SendsTo U) (accept_client inputs r).1
unfolding accept_client
full_accept U inputs r e =
    if_elim (λ (s : Room × List Action). (s.0 ≡ r) × All (SendsTo U) s.1) inputs.server_ready _
      (r, []) (full_connection U inputs.accepted r e) (refl, tt)

full_round :
    (address : ℕ → List ℕ) (U : ℕ → Type 0) (inputs : Inputs) (r : Room)
    → AreShort inputs
    → Kept U 5 r
    → Returns (Kept U 5) (SendsTo U) (round address inputs r)
unfolding round
full_round address U inputs r h v =
    let begun = accept_client inputs r in
    let turned = full_accept U inputs r v.same in
    behind-Returns (Kept U 5) (SendsTo U) begun.1 _ turned.1 (
      serve-Kept U 5 address inputs (is_set inputs r) begun.0.client_count 0 begun.0 h
        (subst (Kept U 5) (sym turned.0) v))

-- Once five clients have been counted in a state that the chat reaches, then, whatever rounds
-- follow with messages of fewer than 1024 bytes, the count stays five and the server writes only
-- to the clients in use before these rounds, even when all of them have left.
pub full-SendsTo :
    (address : ℕ → List ℕ) (rounds : List Inputs) (r : Room)
    → Reach address r
    → r.client_count ≡ 5
    → All AreShort rounds
    → Returns (λ s. s.client_count ≡ 5) (SendsTo (InUse r)) (run_rounds (round address) rounds r)
full-SendsTo address rounds r reach full h =
    weaken _ (λ s. s.client_count ≡ 5) _ (run_rounds (round address) rounds r) (λ s v. v.same)
      (run_rounds-Returns (Kept (InUse r) 5) (SendsTo (InUse r)) (round address)
        (full_round address (InUse r)) rounds r h
        (record { room = Reach-IsRoom address r reach; same = full; within = λ fd u. u }))
