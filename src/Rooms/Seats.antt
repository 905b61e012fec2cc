-- ===== src/Rooms/Seats.antt =====
-- LT1/LT1_SetA/server.c: what all rounds of the chat keep, and what happens once its slots are full.
use networks_lab_cs39006_spr.Prelude.{
  ℕ, zero, suc, ◌+◌, ◌≤◌, ◌<◌, ◌≡◌, ◌≢◌, ◌⊎◌, inl, inr, refl, ap, sym, ◌∙◌, Bool, not, ◌&&◌, List,
  [], ◌∷◌, Option, none, some, ltb, leb, ◌==◌, if_split, if_elim, some-injective, get_or, get_elem?,
  set, length, length-set, cstring, All, arith, take,
}
use networks_lab_cs39006_spr.Rooms.Slots.{
  Room, empty_room, Action, sends, closes, Received, bytes, ended, Inputs, serve_slot, serve_slots,
}
use networks_lab_cs39006_spr.Rooms.Chat.{
  send_others, chat_line, handle_new_connection, process_client_message, round,
}
use networks_lab_cs39006_spr.Rooms.Loops.{Returns, IsShort, AreShort, serve_slots-Returns}
use networks_lab_cs39006_spr.Rooms.Relay.{InUse, get_elem?-take}

-- Five slots, of which those in use come first, and no descriptor stands in two.
pub record IsRoom (r : Room) : Type 0 where
  pub slots : length r.clients ≡ 5
  pub few : r.client_count ≤ 5
  pub first : (i fd : ℕ) → get_elem? r.clients i ≡ some fd → 0 < fd → i < r.client_count
  pub distinct :
      (i j fd : ℕ)
      → get_elem? r.clients i ≡ some fd
      → get_elem? r.clients j ≡ some fd
      → 0 < fd
      → i ≡ j

-- What a slot holds after a write.
pub set-slot :
    (xs : List ℕ) (k v i g : ℕ)
    → get_elem? (set xs k v) i ≡ some g
    → ((i ≡ k) × (v ≡ g)) ⊎ (get_elem? xs i ≡ some g)
set-slot [] k v i g e = inr e
set-slot (x ∷ xs) zero v zero g e = inl (refl, some-injective v g e)
set-slot (x ∷ xs) zero v (suc i) g e = inr e
set-slot (x ∷ xs) (suc k) v zero g e = inr e
set-slot (x ∷ xs) (suc k) v (suc i) g e = elim (set-slot xs k v i g e) [
  | inl (p, q) ↦ inl (ap suc p, q)
  | inr h ↦ inr h
]

-- A slot that is cleared.
clear-IsRoom : (r : Room) (k : ℕ) → IsRoom r → IsRoom (record r { clients = set r.clients k 0 })
clear-IsRoom r k v =
    let old : (i g : ℕ)
        → get_elem? (set r.clients k 0) i ≡ some g
        → 0 < g
        → get_elem? r.clients i ≡ some g =
      λ i g e p. elim (set-slot r.clients k 0 i g e) [
        | inl (a, b) ↦ absurd (omega arith)
        | inr h ↦ h
      ] in
    record {
      slots = length-set r.clients k 0 ∙ v.slots;
      few = v.few;
      first = λ i fd e p. v.first i fd (old i fd e p) p;
      distinct = λ i j fd e f p. v.distinct i j fd (old i fd e p) (old j fd f p) p;
    }

-- `accept` returns a descriptor that is not open, and not 0.
abbrev pub IsFresh : Room → Option ℕ → Type 0
IsFresh r none = Unit
IsFresh r (some fd) = (0 < fd) × ((i : ℕ) → get_elem? r.clients i ≢ some fd)

join-IsRoom :
    (r : Room) (fd : ℕ)
    → IsRoom r
    → IsFresh r (some fd)
    → r.client_count < 5
    → IsRoom
        (record { clients = set r.clients r.client_count fd; client_count = r.client_count + 1 })
join-IsRoom r fd v new h =
    let slot = set-slot r.clients r.client_count fd in
    record {
      slots = length-set r.clients r.client_count fd ∙ v.slots;
      few = omega arith;
      first = λ i g e p. elim (slot i g e) [
        | inl (a, b) ↦ omega arith
        | inr old ↦ omega (arith, v.first i g old p)
      ];
      distinct = λ i j g e f p. elim (slot i g e) [
        | inl (a, b) ↦ elim (slot j g f) [
          | inl (c, d) ↦ a ∙ sym c
          | inr old ↦ absurd (new.1 j (old ∙ ap some (sym b)))
        ]
        | inr old ↦ elim (slot j g f) [
          | inl (c, d) ↦ absurd (new.1 i (old ∙ ap some (sym d)))
          | inr other ↦ v.distinct i j g old other p
        ]
      ];
    }

pub handle_new_connection-IsRoom :
    (r : Room) (accepted : Option ℕ)
    → IsRoom r
    → IsFresh r accepted
    → IsRoom (handle_new_connection accepted r).0
unfolding handle_new_connection
handle_new_connection-IsRoom r none v new = v
handle_new_connection-IsRoom r (some fd) v new =
    if_split (λ (s : Room × List Action). IsRoom s.0) (leb 5 r.client_count) _ _ (λ e. v)
      (λ e. join-IsRoom r fd v new (ground arith))

-- Nobody is in use who was not among `U`, and the count stands still.
pub record Kept (U : ℕ → Type 0) (n : ℕ) (r : Room) : Type 0 where
  pub room : IsRoom r
  pub same : r.client_count ≡ n
  pub within : (fd : ℕ) → InUse r fd → U fd

-- Messages go to those in `U` only.
abbrev pub SendsTo : (ℕ → Type 0) → Action → Type 0
SendsTo U (sends fd text) = U fd
SendsTo U (closes fd) = Unit

send_others-SendsTo :
    (U : ℕ → Type 0) (sender : ℕ) (text : List ℕ) (r : Room) (n : ℕ) (cs : List ℕ)
    → ((fd : ℕ) → InUse r fd → U fd)
    → ((i fd : ℕ) → get_elem? (take n cs) i ≡ some fd → 0 < fd → InUse r fd)
    → All (SendsTo U) (send_others sender text (take n cs))
unfolding send_others
send_others-SendsTo U sender text r zero cs u h = tt
send_others-SendsTo U sender text r (suc n) [] u h = tt
send_others-SendsTo U sender text r (suc n) (c ∷ cs) u h =
    let rest = send_others-SendsTo U sender text r n cs u (λ i fd e p. h (suc i) fd e p) in
    if_split (All (SendsTo U)) (ltb 0 c && not (c == sender))
      (sends c text ∷ send_others sender text (take n cs)) (send_others sender text (take n cs))
      (λ e. (u c (h 0 c refl (ground arith)), rest)) (λ e. rest)

in_use :
    (r : Room) (i fd : ℕ)
    → get_elem? (take r.client_count r.clients) i ≡ some fd
    → 0 < fd
    → InUse r fd
in_use r i fd e p =
    let (inside, at) = (get_elem?-take r.client_count i r.clients fd).0 e in (i, inside, at, p)

pub process-Kept :
    (U : ℕ → Type 0) (n : ℕ) (address : ℕ → List ℕ) (received : Received) (fd i : ℕ) (r : Room)
    → Kept U n r
    → IsShort received
    → Returns (Kept U n) (SendsTo U) (process_client_message address received fd i r)
unfolding process_client_message
process-Kept U n address ended fd i r v h = (
  record {
    room = clear-IsRoom r i v.room;
    same = v.same;
    within = λ g u. elim (set-slot r.clients i 0 u.0 g u.2) [
      | inl (a, b) ↦ absurd (omega (arith, u.3))
      | inr old ↦ v.within g (u.0, u.1, old, u.3)
    ];
  },
  (tt, tt),
)
process-Kept U n address (bytes b) fd i r v h =
    if_split (Returns (Kept U n) (SendsTo U)) (leb 1024 (length b)) none _
      (λ e. absurd (ground (arith, h)))
      (λ e.
        if_elim (Returns (Kept U n) (SendsTo U)) (ltb r.client_count 2) (some (r, [])) _ (v, tt)
          (
            v,
            send_others-SendsTo U fd (chat_line (address fd) (cstring b)) r r.client_count r.clients
                v.within (in_use r),
          ))

pub serve-Kept :
    (U : ℕ → Type 0) (n : ℕ) (address : ℕ → List ℕ) (inputs : Inputs) (isset : ℕ → Bool) (m i : ℕ)
    (r : Room)
    → AreShort inputs
    → Kept U n r
    → Returns (Kept U n) (SendsTo U) (
        serve_slots
          (λ s. s)
          (λ fd i s. process_client_message address (inputs.received fd) fd i s)
          isset
          m
          i
          r)
unfolding serve_slot
serve-Kept U n address inputs isset m i r h v =
    serve_slots-Returns (Kept U n) (SendsTo U) (λ s. s)
      (λ fd i s. process_client_message address (inputs.received fd) fd i s) isset
      (λ j s p.
        let fd = get_or s.clients j 0 in
        if_elim (Returns (Kept U n) (SendsTo U)) (ltb 0 fd && isset fd) _ (some (s, []))
          (process-Kept U n address (inputs.received fd) fd j s p (h fd)) (p, tt))
      m i r v

-- The states that the chat reaches by rounds with messages of fewer than 1024 bytes.
pub data Reach (address : ℕ → List ℕ) : Room → Type 0 where
  start : Reach address empty_room
  later :
      {r r' : Room} {actions : List Action} (inputs : Inputs)
      → Reach address r
      → AreShort inputs
      → IsFresh r inputs.accepted
      → round address inputs r ≡ some (r', actions)
      → Reach address r'
