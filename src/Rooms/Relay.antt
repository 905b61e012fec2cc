-- ===== src/Rooms/Relay.antt =====
-- LT1/LT1_SetA/server.c: who gets a message, and what all rounds of the chat keep.
use networks_lab_cs39006_spr.Prelude.{
  ℕ, zero, suc, ◌≤◌, ◌<◌, ◌≡◌, ◌≢◌, ◌↔◌, ap, sym, ◌∙◌, true, not, ◌&&◌, List, [], ◌∷◌, none, some,
  ltb, leb, ◌==◌, if_true, if_false, if_split, if_elim, some-injective, get_elem?, take, length,
  cstring, arith,
}
use networks_lab_cs39006_spr.Rooms.Slots.{Room, Action, sends, bytes}
use networks_lab_cs39006_spr.Rooms.Chat.{
  send_others, chat_line, broadcast_message, process_client_message,
}

-- A descriptor in a slot in use.
abbrev pub InUse : Room → ℕ → Type 0
InUse r fd = (i : ℕ) × (i < r.client_count) × (get_elem? r.clients i ≡ some fd) × (0 < fd)

abbrev pub Occurs {ℓ} : {A : Type ℓ} → A → List A → Type ℓ
Occurs x xs = (i : ℕ) × (get_elem? xs i ≡ some x)

-- A slot whose client is sent a text by another.
abbrev pub Receives : ℕ → ℕ → List ℕ → List ℕ → List ℕ → Type 0
Receives sender to text text' cs =
    (i : ℕ) × (get_elem? cs i ≡ some to) × (0 < to) × (to ≢ sender) × (text' ≡ text)

behind_first :
    (sender to c : ℕ) (text text' cs : List ℕ)
    → Receives sender to text text' cs
    → Receives sender to text text' (c ∷ cs)
behind_first sender to c text text' cs v = (suc v.0, v.1, v.2, v.3, v.4)

one_more :
    (sender to c : ℕ) (text text' cs : List ℕ) (rest : List Action) (k : ℕ)
    → (ltb 0 c && not (c == sender)) ≡ true
    → ((k : ℕ) → get_elem? rest k ≡ some (sends to text') → Receives sender to text text' cs)
    → get_elem? (sends c text ∷ rest) k ≡ some (sends to text')
    → Receives sender to text text' (c ∷ cs)
one_more sender to c text text' cs rest zero e h f =
    let same : sends c text ≡ sends to text' = some-injective (sends c text) (sends to text') f in
    let fd : c ≡ to = cc in
    let told : text ≡ text' = cc in (zero, ap some fd, ground arith, ground arith, sym told)
one_more sender to c text text' cs rest (suc k) e h f =
    behind_first sender to c text text' cs (h k f)

-- The sends that are among those of a list, and the slots they go to.
send_others-slots :
    (sender to : ℕ) (text text' cs : List ℕ) (k : ℕ)
    → get_elem? (send_others sender text cs) k ≡ some (sends to text')
    → Receives sender to text text' cs
unfolding send_others
send_others-slots sender to text text' [] k e = cc
send_others-slots sender to text text' (c ∷ cs) k e =
    let later = send_others-slots sender to text text' cs in
    let split : (k : ℕ)
        → get_elem? (send_others sender text (c ∷ cs)) k ≡ some (sends to text')
        → Receives sender to text text' (c ∷ cs) =
      if_split
        (λ l.
          (k : ℕ) → get_elem? l k ≡ some (sends to text') → Receives sender to text text' (c ∷ cs))
        (ltb 0 c && not (c == sender)) (sends c text ∷ send_others sender text cs)
        (send_others sender text cs)
        (λ t k f. one_more sender to c text text' cs (send_others sender text cs) k t later f)
        (λ t k f. behind_first sender to c text text' cs (later k f)) in
    split k e

slots-send_others :
    (sender to : ℕ) (text : List ℕ) (cs : List ℕ) (i : ℕ)
    → get_elem? cs i ≡ some to
    → 0 < to
    → to ≢ sender
    → Occurs (sends to text) (send_others sender text cs)
unfolding send_others
slots-send_others sender to text [] i e h d = cc
slots-send_others sender to text (c ∷ cs) zero e h d =
    let same : c ≡ to = some-injective c to e in
    (
      0,
      ap (λ l. get_elem? l 0)
            (if_true (ltb 0 c && not (c == sender)) (sends c text ∷ send_others sender text cs)
              (send_others sender text cs) (ground (arith, d)))
          ∙ ap (λ x. some (sends x text)) same,
    )
slots-send_others sender to text (c ∷ cs) (suc i) e h d =
    let (k, f) = slots-send_others sender to text cs i e h d in
    if_elim (λ (l : List Action). Occurs (sends to text) l) (ltb 0 c && not (c == sender)) _ _
      (suc k, f) (k, f)

pub get_elem?-take :
    (n i : ℕ) (cs : List ℕ) (fd : ℕ)
    → (get_elem? (take n cs) i ≡ some fd) ↔ ((i < n) × (get_elem? cs i ≡ some fd))
get_elem?-take zero i cs fd = ((λ e. cc), λ h. absurd (omega (arith, h.0)))
get_elem?-take (suc n) i [] fd = ((λ e. cc), λ h. h.1)
get_elem?-take (suc n) zero (c ∷ cs) fd = ((λ e. (omega arith, e)), λ h. h.1)
get_elem?-take (suc n) (suc i) (c ∷ cs) fd = (
  (λ e. let h = (get_elem?-take n i cs fd).0 e in (omega (arith, h.0), h.1)),
  λ h. (get_elem?-take n i cs fd).1 (omega (arith, h.0), h.1),
)

-- With two clients or more counted, a message of fewer than 1024 bytes changes no slot, and is
-- sent to a descriptor exactly when that is an open client's in use other than the sender; what is
-- sent is the sender's address and the message, cut to the buffer.
pub process_client_message-InUse :
    (address : ℕ → List ℕ) (b : List ℕ) (fd index : ℕ) (r : Room)
    → length b < 1024
    → 2 ≤ r.client_count
    → (actions : List Action) × (process_client_message address (bytes b) fd index r
        ≡ some (r, actions))
      × ((to : ℕ) (text : List ℕ)
          → Occurs (sends to text) actions
            ↔ (InUse r to × (to ≢ fd) × (text ≡ chat_line (address fd) (cstring b))))
unfolding process_client_message
process_client_message-InUse address b fd index r h l =
    let text = chat_line (address fd) (cstring b) in
    let cs = take r.client_count r.clients in
    (
      broadcast_message fd (cstring b) (address fd) r,
      if_false (leb 1024 (length b)) none _ (ground arith)
          ∙ if_false (ltb r.client_count 2) _ _ (ground arith),
      λ to text'. (
        (λ o.
            let (i, e, p, d, t) = send_others-slots fd to text text' cs o.0 o.1 in
            let (inside, at) = (get_elem?-take r.client_count i r.clients to).0 e in
            ((i, inside, at, p), d, t)),
        λ u.
            let (i, inside, at, p) = u.0 in
            let (k, e) =
              slots-send_others fd to text cs i
                ((get_elem?-take r.client_count i r.clients to).1 (inside, at)) p u.1 in
            (k, e ∙ ap (λ t. some (sends to t)) (sym u.2)),
      ),
    )
