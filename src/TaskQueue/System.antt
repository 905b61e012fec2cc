-- ===== src/TaskQueue/System.antt =====
-- The processes of "Assignment 5/server.c" over the shared queue, in any order. `get_next_task` has
-- two critical sections. A round with other steps between the two is `checks` followed by a
-- round in which no process is found lost.
use networks_lab_cs39006_spr.Prelude.{
  ℕ, Bool, false, List, Option, none, some, ◌≡◌, ◌==◌, if◌then◌else◌,
}
use networks_lab_cs39006_spr.TaskQueue.Queue.{TaskQueue, load_tasks, reaasign_lost_tasks}
use networks_lab_cs39006_spr.TaskQueue.Client.{
  Client, Next, Received, Round, running, exits, new_client, handle_client,
}

-- The queue, and the live client processes by their pid.
pub record Server : Type 0 where
  pub queue : TaskQueue
  pub clients : ℕ → Option Client

unfoldable pub update : (ℕ → Option Client) → ℕ → Option Client → ℕ → Option Client
update clients pid c p = if p == pid then c else clients p

unfoldable pub survivor : Next → Option Client
survivor (running c) = some c
survivor (exits code) = none

-- The server after a round of the process `pid`.
unfoldable pub after_round : ℕ → Round → Server → Server
unfolding update survivor
after_round pid r s = record { queue = r.queue; clients = update s.clients pid (survivor r.next) }

-- `kill(pid, 0)` never reports a live process as lost.
abbrev pub Sees : (ℕ → Bool) → Server → Type 0
Sees lost s = (p : ℕ) (c : Client) → s.clients p ≡ some c → lost p ≡ false

-- `forks` is the child of an accepted connection, `dies` a process that is killed.
pub data Step (s : Server) : Server → Type 0 where
  forks :
      (pid : ℕ)
      → s.clients pid ≡ none
      → Step s (record { queue = s.queue; clients = update s.clients pid (some new_client) })
  rounds :
      (lost : ℕ → Bool) (pid : ℕ) (r : Received) (c : Client)
      → Sees lost s
      → s.clients pid ≡ some c
      → Step s (after_round pid (handle_client lost pid r c s.queue) s)
  checks :
      (lost : ℕ → Bool)
      → Sees lost s
      → Step s (record { queue = reaasign_lost_tasks lost s.queue; clients = s.clients })
  dies : (pid : ℕ) → Step s (record { queue = s.queue; clients = update s.clients pid none })

-- From the shared memory as it was found, with the tasks loaded and no client yet.
pub data Reach (old : TaskQueue) : Server → Type 0 where
  start :
      (lines : List (List ℕ))
      → Reach old (record { queue = load_tasks lines old; clients = λ p. none })
  later : {s s' : Server} → Reach old s → Step s s' → Reach old s'
