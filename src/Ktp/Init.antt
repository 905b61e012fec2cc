-- ===== src/Ktp/Init.antt =====
-- The rest of "Assignment 4 Final/initksocket.c": the garbage collector, the main loop that opens,
-- binds and resets UDP sockets, the start of the process and its signal handler.
use networks_lab_cs39006_spr.Prelude.{
  ℕ, zero, suc, Bool, true, false, not, ◌&&◌, List, [], ◌∷◌, ◌++◌, Option, none, some,
  if◌then◌else◌,
}
use networks_lab_cs39006_spr.Ktp.Types.{
  ℤ, pos, negsuc, IpPort, KtpSocket, SmData, Action, close, bind, kill, sem_unlink,
}
use networks_lab_cs39006_spr.Ktp.Socket.{sockreset, same_address}
use networks_lab_cs39006_spr.Ktp.Receiver.{Outcome, running, exited, hung}

-- One socket in a round of `GCThread`. `alive` says whether `kill(pid, 0)` succeeds.
unfoldable pub gc_socket : (ℕ → Bool) → KtpSocket → KtpSocket
gc_socket alive s = if s.in_use && not (alive s.pid) then record s { is_closed = true } else s

unfoldable pub gc_round : (ℕ → Bool) → SmData → SmData
unfolding gc_socket
gc_round alive [] = []
gc_round alive (s ∷ shm) = gc_socket alive s ∷ gc_round alive shm

-- What the system gives to a round of the main loop for one socket: the descriptor of `socket`,
-- the address of `getsockname`, each `none` where the call fails, and whether `bind` succeeds.
pub record Supply : Type 0 where
  pub new_fd : Option ℕ
  pub bound_to : Option IpPort
  pub bind_ok : Bool

-- `none` is the return value -1.
unfoldable pub bind_if_required : Supply → KtpSocket → Option (List Action)
bind_if_required supply s = elim (supply.bound_to) [
  | none ↦ none
  | some current ↦
      if not (same_address current s.src) && s.is_bound
      then if supply.bind_ok then some (bind s.sockfd s.src ∷ []) else none
      else some []
]

-- `socket` for an entry that has no descriptor.
unfoldable pub open_fd : ℤ → Option ℕ → Option ℤ
open_fd (negsuc zero) none = none
open_fd (negsuc zero) (some fd) = some (pos fd)
open_fd (negsuc (suc n)) new = some (negsuc (suc n))
open_fd (pos fd) new = some (pos fd)

unfoldable pub bind_opened : Supply → KtpSocket → Outcome (KtpSocket × List Action)
unfolding bind_if_required
bind_opened supply s = elim (bind_if_required supply s) [
  | none ↦ exited
  | some actions ↦ running (s, actions)
]

-- One socket in a round of the loop of `main`, from its lock to its unlock.
unfoldable pub main_socket : Supply → KtpSocket → Outcome (KtpSocket × List Action)
unfolding sockreset open_fd bind_opened
main_socket supply s =
    if s.in_use
    then if s.is_closed then running (sockreset s) else elim (open_fd s.sockfd supply.new_fd) [
      | none ↦ exited
      | some fd ↦ bind_opened supply (record s { sockfd = fd })
    ]
    else running (s, [])

after_main :
    Outcome (KtpSocket × List Action)
    → Outcome (SmData × List Action)
    → Outcome (SmData × List Action)
after_main exited rest = exited
after_main hung rest = hung
after_main (running (s, actions)) exited = exited
after_main (running (s, actions)) hung = hung
after_main (running (s, actions)) (running (shm, later)) = running (s ∷ shm, actions ++ later)

-- A round of that loop, with what the system gives at each index from `i` on.
unfoldable pub main_round : ℕ → (ℕ → Supply) → SmData → Outcome (SmData × List Action)
unfolding main_socket after_main
main_round i supply [] = running ([], [])
main_round i supply (s ∷ shm) =
    after_main (main_socket (supply i) s) (main_round (suc i) supply shm)

unfoldable pub open_fresh : Option ℕ → KtpSocket × List Action → Option (KtpSocket × List Action)
open_fresh none reset = none
open_fresh (some fd) (s, closed) = some (record s { sockfd = pos fd }, closed)

unfoldable pub after_fresh :
    Option (KtpSocket × List Action) → Option (SmData × List Action) → Option (SmData × List Action)
after_fresh none rest = none
after_fresh (some (s, closed)) none = none
after_fresh (some (s, closed)) (some (shm, later)) = some (s ∷ shm, closed ++ later)

-- The loop that `main` begins with: each entry is reset and given a descriptor. `none` is the
-- exit where `socket` fails.
unfoldable pub init_sockets : ℕ → (ℕ → Option ℕ) → SmData → Option (SmData × List Action)
unfolding sockreset open_fresh after_fresh
init_sockets i new_fd [] = some ([], [])
init_sockets i new_fd (s ∷ shm) =
    after_fresh (open_fresh (new_fd i) (sockreset s)) (init_sockets (suc i) new_fd shm)

-- One socket in the signal handler.
unfoldable pub handler_socket : ℕ → KtpSocket → KtpSocket × List Action
handler_socket i s =
    if s.in_use
    then (
      record s { in_use = false; pid = 0; sockfd = pos 0 },
      kill s.pid ∷ close s.sockfd ∷ sem_unlink i ∷ [],
    )
    else (s, [])

unfoldable pub handler : ℕ → SmData → SmData × List Action
unfolding handler_socket
handler i [] = ([], [])
handler i (s ∷ shm) =
    let (s', actions) = handler_socket i s in
    let (shm', later) = handler (suc i) shm in (s' ∷ shm', actions ++ later)
