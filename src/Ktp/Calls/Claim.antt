-- ===== src/Ktp/Calls/Claim.antt =====
-- `k_socket`: what it hands out, what the threads see of it, and two callers at once.
use networks_lab_cs39006_spr.Prelude.{
  ℕ, zero, suc, ◌+◌, ◌<◌, ◌≡◌, refl, true, false, some, [], ◌∷◌, Bool-cases, inl, inr, if_true,
  if_false, set, get_elem?, get_elem?-set_self, lt-length_of_get_elem?, if_elim, if◌then◌else◌,
  length, arith, ap, sym, ◌∙◌, subst, some-injective,
}
use mathlib.Core.List.{Memᴰ}
use networks_lab_cs39006_spr.Ktp.Types.{no_fd, KtpSocket, SmData, sock_ktp}
use networks_lab_cs39006_spr.Ktp.Socket.{find_free, claim_socket, claim, k_socket, sockreset}
use networks_lab_cs39006_spr.Ktp.Rthread.{monitored}

-- The first entry that is free: the search from `i` finds it at `i + k`.
find_free_lem :
    (i j : ℕ) (shm : SmData)
    → find_free i shm ≡ some j
    → (k : ℕ) × (s : KtpSocket) × (j ≡ i + k) × (get_elem? shm k ≡ some s) × (s.in_use ≡ false)
unfolding find_free
find_free_lem i j [] e = cc
find_free_lem i j (s ∷ shm) e = elim (Bool-cases s.in_use) [
  | inl used ↦
      let (k, t, at, found, free) =
        find_free_lem (suc i) j shm (sym (if_true s.in_use _ _ used) ∙ e) in
      (suc k, t, omega (arith, at), found, free)
  | inr free ↦
      (0, s, omega (arith, some-injective _ _ (sym (if_false s.in_use _ _ free) ∙ e)), refl, free)
]

find_free_found :
    (i : ℕ) (shm : SmData)
    → find_free 0 shm ≡ some i
    → (s : KtpSocket) × (get_elem? shm i ≡ some s) × (s.in_use ≡ false)
find_free_found i shm e =
    let (k, s, at, found, free) = find_free_lem 0 i shm e in
    (s, ap (get_elem? shm) (let same : i ≡ k = omega (arith, at) in same) ∙ found, free)

claim_found :
    (pid i : ℕ) (s : KtpSocket) (shm : SmData)
    → get_elem? shm i ≡ some s
    → (claim pid i shm).0 ≡ set shm i (claim_socket pid s).0
unfolding claim
claim_found pid i s shm e = rw (e, claim)

claim_at_found :
    (pid i : ℕ) (s : KtpSocket) (shm : SmData)
    → get_elem? shm i ≡ some s
    → get_elem? (claim pid i shm).0 i ≡ some (claim_socket pid s).0
claim_at_found pid i s shm e =
    ap (λ l. get_elem? l i) (claim_found pid i s shm e)
    ∙ get_elem?-set_self shm i (claim_socket pid s).0 (lt-length_of_get_elem? shm i s e)

-- Two processes that both search for a free entry before either claims it get the same entry,
-- which then belongs to the one that claims last.
pub claim_race :
    (first second i : ℕ) (shm : SmData)
    → find_free 0 shm ≡ some i
    → (s : KtpSocket) × (get_elem? (claim second i (claim first i shm).0).0 i ≡ some s)
      × (s.in_use ≡ true)
      × (s.pid ≡ second)
unfolding claim_socket
claim_race first second i shm e =
    let (s, found, free) = find_free_found i shm e in
    (
      (claim_socket second (claim_socket first s).0).0,
      claim_at_found second i (claim_socket first s).0 (claim first i shm).0
          (claim_at_found first i s shm found),
      refl,
      refl,
    )

member_set :
    (shm : SmData) (i : ℕ) (s : KtpSocket)
    → i < length shm
    → s.in_use ≡ true
    → Memᴰ s.sockfd (monitored (set shm i s))
unfolding monitored
member_set [] i s h u = elim h [ ]
member_set (t ∷ shm) zero s h u =
    subst (λ b. Memᴰ s.sockfd (if b then s.sockfd ∷ monitored shm else monitored shm)) (sym u)
      (Memᴰ.head refl)
member_set (t ∷ shm) (suc i) s h u =
    if_elim (Memᴰ s.sockfd) t.in_use _ _ (Memᴰ.tail (member_set shm i s (omega arith) u))
      (member_set shm i s (omega arith) u)

k_socket_claims :
    (pid i : ℕ) (shm : SmData)
    → find_free 0 shm ≡ some i
    → (k_socket sock_ktp pid shm).1 ≡ (claim pid i shm).0
unfolding k_socket
k_socket_claims pid i shm e = rw e

-- In the array that a successful k_socket leaves, RThread puts the descriptor -1 into its fd_set.
pub monitored-k_socket :
    (pid i : ℕ) (shm : SmData)
    → find_free 0 shm ≡ some i
    → Memᴰ no_fd (monitored (k_socket sock_ktp pid shm).1)
unfolding claim_socket sockreset
monitored-k_socket pid i shm e =
    let (s, found, free) = find_free_found i shm e in
    subst (λ l. Memᴰ no_fd (monitored l))
      (sym (k_socket_claims pid i shm e ∙ claim_found pid i s shm found))
      (member_set shm i (claim_socket pid s).0 (lt-length_of_get_elem? shm i s found) refl)
