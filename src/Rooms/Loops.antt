-- ===== src/Rooms/Loops.antt =====
-- What every round of the servers of LT1 keeps, from what each part of it keeps.
use networks_lab_cs39006_spr.Prelude.{
  ℕ, zero, suc, ◌<◌, ◌≡◌, Bool, List, [], ◌∷◌, Option, none, some, ◌==◌, if◌then◌else◌, get_or, set,
  length, All, All-append, arith,
}
use networks_lab_cs39006_spr.Rooms.Slots.{
  Room, Action, Received, bytes, ended, Inputs, behind, followed, serve_slot, serve_slots,
  run_rounds,
}

-- A run that reaches no access outside a buffer, ends in a state with `P`, and does only `Q`.
abbrev pub Returns {ℓ} :
    {S : Type ℓ} → (S → Type 0) → (Action → Type 0) → Option (S × List Action) → Type 0
Returns P Q none = ⊥
Returns P Q (some (s, actions)) = P s × All Q actions

-- What `recv` returns leaves room for the NUL.
abbrev pub IsShort : Received → Type 0
IsShort ended = Unit
IsShort (bytes b) = length b < 1024

abbrev pub AreShort : Inputs → Type 0
AreShort inputs = (fd : ℕ) → IsShort (inputs.received fd)

module _ {ℓ} {S : Type ℓ} (P : S → Type 0) (Q : Action → Type 0) where
  pub behind-Returns :
      (actions : List Action) (o : Option (S × List Action))
      → All Q actions
      → Returns P Q o
      → Returns P Q (behind actions o)
  behind-Returns actions none q v = v
  behind-Returns actions (some (s, later)) q v = (v.0, All-append Q actions later q v.1)

  pub followed-Returns :
      (o : Option (S × List Action)) (next : S → Option (S × List Action))
      → Returns P Q o
      → ((s : S) → P s → Returns P Q (next s))
      → Returns P Q (followed o next)
  followed-Returns none next v h = v
  followed-Returns (some (s, actions)) next v h = behind-Returns actions (next s) v.1 (h s v.0)

  pub serve_slots-Returns :
      (room : S → Room) (process : ℕ → ℕ → S → Option (S × List Action)) (isset : ℕ → Bool)
      → ((i : ℕ) (s : S) → P s → Returns P Q (serve_slot room process isset i s))
      → (n i : ℕ) (s : S) → P s
      → Returns P Q (serve_slots room process isset n i s)
  unfolding serve_slots
  serve_slots-Returns room process isset h zero i s p = (p, tt)
  serve_slots-Returns room process isset h (suc n) i s p =
      followed-Returns (serve_slot room process isset i s)
        (serve_slots room process isset n (suc i)) (h i s p)
        (serve_slots-Returns room process isset h n (suc i))

  pub run_rounds-Returns :
      (round : Inputs → S → Option (S × List Action))
      → ((inputs : Inputs) (s : S) → AreShort inputs → P s → Returns P Q (round inputs s))
      → (inputs : List Inputs) (s : S) → All AreShort inputs
      → P s
      → Returns P Q (run_rounds round inputs s)
  unfolding run_rounds
  run_rounds-Returns round h [] s v p = (p, tt)
  run_rounds-Returns round h (x ∷ xs) s v p =
      followed-Returns (round x s) (run_rounds round xs) (h x s v.0 p)
        (λ s' p'. run_rounds-Returns round h xs s' v.1 p')

pub get_or-set {ℓ} :
    {A : Type ℓ} (xs : List A) (i j : ℕ) (v d : A)
    → i < length xs
    → get_or (set xs i v) j d ≡ (if i == j then v else get_or xs j d)
get_or-set [] i j v d h = elim h [ ]
get_or-set (x ∷ xs) zero zero v d h = ground arith
get_or-set (x ∷ xs) zero (suc j) v d h = ground arith
get_or-set (x ∷ xs) (suc i) zero v d h = ground arith
get_or-set (x ∷ xs) (suc i) (suc j) v d h = ground (arith, get_or-set xs i j v d)
