-- ===== src/Ktp/Reclaim.antt =====
-- The life of an entry outside the transfers: how a dead process gives its sockets back, what the
-- main loop leaves alone, and what the start of the process closes.
use networks_lab_cs39006_spr.Prelude.{
  ℕ, suc, ◌≡◌, ◌≢◌, refl, Bool, true, false, not, ◌&&◌, List, [], ◌∷◌, ◌++◌, Option, none, some,
  All, length, replicate, if_true, some-injective, arith, ap, ap₂, sym, ◌∙◌,
}
use networks_lab_cs39006_spr.Ktp.Types.{pos, no_fd, KtpSocket, SmData, Action, close}
use networks_lab_cs39006_spr.Ktp.Socket.{sockreset, close_fd}
use networks_lab_cs39006_spr.Ktp.Receiver.{running}
use networks_lab_cs39006_spr.Ktp.Init.{
  gc_socket, Supply, main_socket, bind_if_required, init_sockets, open_fresh, after_fresh,
}

-- The entry of a process that is gone is marked by the garbage collector, and the next round of
-- the main loop frees it, resets it and closes its descriptor.
pub main_socket-gc_socket :
    (alive : ℕ → Bool) (supply : Supply) (s : KtpSocket)
    → s.in_use ≡ true
    → alive s.pid ≡ false
    → (s' : KtpSocket) × (main_socket supply (gc_socket alive s) ≡ running (s', close_fd s.sockfd))
      × (s'.in_use ≡ false)
      × (s'.sockfd ≡ no_fd)
unfolding main_socket gc_socket sockreset
main_socket-gc_socket alive supply s u gone =
    ((sockreset s).0, ap (main_socket supply) marked ∙ if_true s.in_use _ _ u, refl, refl)
  where
    marked : gc_socket alive s ≡ record s { is_closed = true }
    marked = if_true (s.in_use && not (alive s.pid)) _ _ (ground arith)

-- A round of garbage collection and of the main loop over an entry whose process lives and which
-- is not closed changes nothing but a missing descriptor.
pub main_socket-open :
    (alive : ℕ → Bool) (supply : Supply) (s s' : KtpSocket) (actions : List Action)
    → alive s.pid ≡ true
    → s.is_closed ≡ false
    → main_socket supply (gc_socket alive s) ≡ running (s', actions)
    → (s' ≡ record s { sockfd = s'.sockfd }) × ((s.sockfd ≢ no_fd) → s'.sockfd ≡ s.sockfd)
unfolding main_socket gc_socket bind_if_required
main_socket-open alive supply s s' actions lives open_entry e = ground arith

first_closes :
    (fd : Option ℕ) (s : KtpSocket) (rest : Option (SmData × List Action)) (n : ℕ)
    → s.sockfd ≡ pos 0
    → ((shm : SmData) (later : List Action)
        → rest ≡ some (shm, later)
        → later ≡ replicate n (close (pos 0)))
    → (shm : SmData) (actions : List Action)
    → after_fresh (open_fresh fd (sockreset s)) rest ≡ some (shm, actions)
    → actions ≡ replicate (suc n) (close (pos 0))
unfolding after_fresh open_fresh sockreset close_fd
first_closes none s rest n z h shm actions e = cc
first_closes (some fd) s none n z h shm actions e = cc
first_closes (some fd) s (some (shm', later)) n z h shm actions e =
    sym (ap (λ r. r.1) (some-injective _ _ e)) ∙ ap₂ (λ f l. close_fd f ++ l) z (h shm' later refl)

-- On an array whose descriptors are all 0, as a new segment has them, the start of the process
-- closes descriptor 0 once for each entry.
pub init_sockets-closes :
    (i : ℕ) (new_fd : ℕ → Option ℕ) (old shm : SmData) (actions : List Action)
    → All (λ s. s.sockfd ≡ pos 0) old
    → init_sockets i new_fd old ≡ some (shm, actions)
    → actions ≡ replicate (length old) (close (pos 0))
unfolding init_sockets
init_sockets-closes i new_fd [] shm actions z e = ap (λ r. r.1) (sym (some-injective _ _ e))
init_sockets-closes i new_fd (s ∷ old) shm actions z e =
    first_closes (new_fd i) s (init_sockets (suc i) new_fd old) (length old) z.0
      (λ shm' later r. init_sockets-closes (suc i) new_fd old shm' later z.1 r) shm actions e
