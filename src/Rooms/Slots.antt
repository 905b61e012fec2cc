-- ===== src/Rooms/Slots.antt =====
-- What LT1/LT1_SetA/server.c and LT1/LT1_SetB/server.c have in common: the slots of the clients, what
-- `select`, `accept` and `recv` return, and the loop over the slots.
use networks_lab_cs39006_spr.Prelude.{
  ℕ, zero, suc, Bool, false, ◌&&◌, ◌||◌, List, [], ◌∷◌, ◌++◌, Option, none, some, ltb, ◌==◌,
  if◌then◌else◌, get_or, take, replicate,
}

abbrev pub max_clients : ℕ
max_clients = 5

-- `BUFFER_SIZE`.
abbrev pub buffer_size : ℕ
buffer_size = 1024

-- `clients`, where 0 is a slot without a client, and `client_count`.
pub record Room : Type 0 where
  pub clients : List ℕ
  pub client_count : ℕ

abbrev pub empty_room : Room
empty_room = record { clients = replicate max_clients 0; client_count = 0 }

pub data Action : Type 0 where
  sends : (fd : ℕ) → List ℕ → Action
  closes : (fd : ℕ) → Action

-- What `recv` of up to 1024 bytes returns: some bytes, or `bytes_read <= 0`.
pub data Received : Type 0 where
  bytes : List ℕ → Received
  ended : Received

-- What the system gives in one round: whether the listening socket is ready and what `accept` then
-- returns, which of the clients' sockets are, and what `recv` returns for each.
pub record Inputs : Type 0 where
  pub server_ready : Bool
  pub accepted : Option ℕ
  pub ready : ℕ → Bool
  pub received : ℕ → Received

-- Whether a descriptor is among the open ones.
abbrev pub member : List ℕ → ℕ → Bool
member [] fd = false
member (c ∷ cs) fd = (ltb 0 c && (c == fd)) || member cs fd

-- The loop that fills `read_fds`, and `FD_ISSET` behind `select`, which only takes descriptors out.
unfoldable pub is_set : Inputs → Room → ℕ → Bool
is_set inputs r fd = member (take r.client_count r.clients) fd && inputs.ready fd

-- `none` is an access outside a buffer, and what follows it is not known.
abbrev pub behind {ℓ} :
    {S : Type ℓ} → List Action → Option (S × List Action) → Option (S × List Action)
behind actions none = none
behind actions (some (s, later)) = some (s, actions ++ later)

abbrev pub followed {ℓ} :
    {S : Type ℓ}
    → Option (S × List Action)
    → (S → Option (S × List Action))
    → Option (S × List Action)
followed none next = none
followed (some (s, actions)) next = behind actions (next s)

module _ {ℓ} {S : Type ℓ} (room : S → Room) (process : ℕ → ℕ → S → Option (S × List Action))
    (isset : ℕ → Bool) where
  -- The slot at an index, if its client has sent something.
  unfoldable pub serve_slot : ℕ → S → Option (S × List Action)
  serve_slot i s =
      let fd = get_or (room s).clients i 0 in
      if ltb 0 fd && isset fd then process fd i s else some (s, [])

  -- The loop over the slots, `n` of them from index `i` on. No call in it changes `client_count`.
  unfoldable pub serve_slots : ℕ → ℕ → S → Option (S × List Action)
  unfolding serve_slot
  serve_slots zero i s = some (s, [])
  serve_slots (suc n) i s = followed (serve_slot i s) (serve_slots n (suc i))

-- The server's loop, a round for each of the inputs.
unfoldable pub run_rounds {ℓ} :
    {S : Type ℓ}
    → (Inputs → S → Option (S × List Action))
    → List Inputs
    → S
    → Option (S × List Action)
run_rounds round [] s = some (s, [])
run_rounds round (x ∷ xs) s = followed (round x s) (run_rounds round xs)
