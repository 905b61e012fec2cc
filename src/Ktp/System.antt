-- ===== src/Ktp/System.antt =====
-- The shared array under the calls of the applications and the steps of the threads, in any order.
-- A step is one critical section: a call, or a thread's work on one socket.
use networks_lab_cs39006_spr.Prelude.{ℕ, ◌≡◌, Bool, List, Option, some, get_elem?, set}
use networks_lab_cs39006_spr.Ktp.Types.{ℤ, IpPort, KtpSocket, SmData, Action}
use networks_lab_cs39006_spr.Ktp.Socket.{claim, k_sendto, k_recvfrom, k_bind, k_close}
use networks_lab_cs39006_spr.Ktp.Receiver.{running, Received, handle_ready}
use networks_lab_cs39006_spr.Ktp.Sender.{Timeouts, sthread_socket}
use networks_lab_cs39006_spr.Ktp.Init.{gc_socket, Supply, main_socket, init_sockets}

-- `claims` is the second part of `k_socket`, at whatever index the first part chose earlier.
-- What the network and the system give, and the times, are chosen by the environment.
pub data Step (shm : SmData) : SmData → Type 0 where
  claims : (pid i : ℕ) → Step shm (claim pid i shm).0
  sends : (fd : ℤ) (m : List ℕ) (len : ℕ) (addr : IpPort) → Step shm (k_sendto fd m len addr shm).1
  receives : (fd : ℤ) (len : ℕ) → Step shm (k_recvfrom fd len shm).1
  binds : (fd : ℤ) (src dest : IpPort) → Step shm (k_bind fd src dest shm).1
  closes : (fd : ℤ) → Step shm (k_close fd shm).1
  rthread :
      (i rand : ℕ) (r : Received) (s s' : KtpSocket) (actions : List Action)
      → get_elem? shm i ≡ some s
      → handle_ready r rand s ≡ running (s', actions)
      → Step shm (set shm i s')
  sthread :
      (i now : ℕ) (times times' : Timeouts) (s s' : KtpSocket) (actions : List Action)
      → get_elem? shm i ≡ some s
      → sthread_socket now times s ≡ running (s', times', actions)
      → Step shm (set shm i s')
  collects :
      (i : ℕ) (alive : ℕ → Bool) (s : KtpSocket)
      → get_elem? shm i ≡ some s
      → Step shm (set shm i (gc_socket alive s))
  maintains :
      (i : ℕ) (supply : Supply) (s s' : KtpSocket) (actions : List Action)
      → get_elem? shm i ≡ some s
      → main_socket supply s ≡ running (s', actions)
      → Step shm (set shm i s')

-- What the steps reach once `main` has set up the array that it found at `old`.
pub data Reach (old : SmData) : SmData → Type 0 where
  start :
      {shm : SmData} (new_fd : ℕ → Option ℕ) (actions : List Action)
      → init_sockets 0 new_fd old ≡ some (shm, actions)
      → Reach old shm
  later : {shm shm' : SmData} → Reach old shm → Step shm shm' → Reach old shm'
