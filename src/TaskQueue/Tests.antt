-- ===== src/TaskQueue/Tests.antt =====
-- Runs of the queue of "Assignment 5/server.c" on a file of three tasks, and its theorems on them.
use networks_lab_cs39006_spr.Prelude.{
  ℕ, ◌<◌, ◌≡◌, refl, Bool, true, false, List, [], ◌∷◌, Option, none, some, codes, arith, replicate,
  length-replicate, ◌==◌,
}
use networks_lab_cs39006_spr.TaskQueue.Queue.{
  TaskQueue, max_tasks, available, completed, status, load_tasks, get_next_task,
}
use networks_lab_cs39006_spr.TaskQueue.Client.{
  Client, Received, running, bytes, closed, new_client, handle_client, handle_line, get_task,
  reply_task, complete, held,
}
use networks_lab_cs39006_spr.TaskQueue.System.{
  Server, Reach, forks, rounds, start, later, update, survivor, after_round,
}
use networks_lab_cs39006_spr.TaskQueue.NextTask.{Handed, get_next_task-Handed}
use networks_lab_cs39006_spr.TaskQueue.Load.{HasArrays}
use networks_lab_cs39006_spr.TaskQueue.Ownership.{IsServer}
use networks_lab_cs39006_spr.Prelude.Decimal.{decimal_digits}
use networks_lab_cs39006_spr.TaskQueue.Worker.{turn, one_task, eval_expr}
use networks_lab_cs39006_spr.TaskQueue.Reckon.{sum}
use networks_lab_cs39006_spr.TaskQueue.Turns.{one_task-completes}
use networks_lab_cs39006_spr.TaskQueue.Reach.{Reach-IsServer, Reach-exclusive, Step-completed}

-- A new segment, which is zero.
abbrev fresh : TaskQueue
fresh = record {
  tasks = replicate max_tasks [];
  task_status = replicate max_tasks 0;
  assigned_to = replicate max_tasks 0;
  num_tasks = 0;
}

abbrev no_line : List ℕ
no_line = []

fresh-HasArrays : HasArrays fresh
fresh-HasArrays = record {
  texts = length-replicate max_tasks no_line;
  statuses = length-replicate max_tasks available;
  owners = length-replicate max_tasks available;
}

abbrev task_file : List (List ℕ)
task_file = codes "2 + 3\n" ∷ codes "4 * 5\n" ∷ codes "9 / 3\n" ∷ []

abbrev none_lost : ℕ → Bool
none_lost pid = false

abbrev get : Received
get = bytes (codes "GET_TASK\n")

-- Client 11 has the first task and client 12 the second.
abbrev server_0 : Server
server_0 = record { queue = load_tasks task_file fresh; clients = λ p. none }

abbrev fork_client : ℕ → Server → Server
fork_client pid s = record { queue = s.queue; clients = update s.clients pid (some new_client) }

abbrev server_2 : Server
server_2 = fork_client 12 (fork_client 11 server_0)

abbrev ask : ℕ → Server → Server
ask pid s = after_round pid (handle_client none_lost pid get new_client s.queue) s

abbrev server_3 : Server
server_3 = ask 11 server_2

abbrev server_4 : Server
server_4 = ask 12 server_3

server_2-Reach : Reach fresh server_2
unfolding update
server_2-Reach = later (later (start task_file) (forks 11 refl)) (forks 12 refl)

server_3-Reach : Reach fresh server_3
unfolding update
server_3-Reach = later server_2-Reach (rounds none_lost 11 get new_client (λ p c e. refl) refl)

server_4-Reach : Reach fresh server_4
unfolding update after_round survivor handle_client handle_line get_task reply_task get_next_task
server_4-Reach = later server_3-Reach (rounds none_lost 12 get new_client (λ p c e. refl) refl)

abbrev works_on : ℕ → Client
works_on i = record { client_task = some i; cnt = 0 }

holds_second : server_4.clients 12 ≡ some (works_on 1)
unfolding update after_round survivor handle_client get_next_task load_tasks
holds_second = refl

-- Client 12 is gone, and client 13 gets its task.
get_next_task-Handed_example :
    Handed
      (λ pid. pid == 12)
      13
      server_4.queue
      (get_next_task (λ pid. pid == 12) 13 server_4.queue).0
      (get_next_task (λ pid. pid == 12) 13 server_4.queue).1
get_next_task-Handed_example =
    get_next_task-Handed (λ pid. pid == 12) 13 server_4.queue
      (Reach-IsServer fresh server_4 fresh-HasArrays server_4-Reach).valid

Reach-IsServer_example : IsServer server_4
Reach-IsServer_example = Reach-IsServer fresh server_4 fresh-HasArrays server_4-Reach

abbrev worker : ℕ
worker = 12

Reach-exclusive_example : worker ≡ worker
Reach-exclusive_example =
    Reach-exclusive fresh server_4 worker worker 1 (works_on 1) (works_on 1) fresh-HasArrays
      server_4-Reach holds_second holds_second refl refl

-- Client 11 completes the first task, and then exits.
abbrev server_5 : Server
server_5 =
    after_round 11
      (handle_client none_lost 11 (bytes (codes "RESULT 5\n")) (works_on 0) server_4.queue) server_4

abbrev server_6 : Server
server_6 = after_round 11 (handle_client none_lost 11 closed new_client server_5.queue) server_5

server_5-Reach : Reach fresh server_5
unfolding update after_round survivor handle_client get_next_task load_tasks
server_5-Reach =
    later server_4-Reach
      (rounds none_lost 11 (bytes (codes "RESULT 5\n")) (works_on 0) (λ p c e. refl) refl)

first_in_use : 0 < server_5.queue.num_tasks
unfolding update after_round survivor handle_client get_next_task load_tasks
first_in_use = omega arith

Step-completed_example : status server_6.queue 0 ≡ completed
unfolding update after_round survivor handle_client get_next_task load_tasks
Step-completed_example =
    Step-completed server_5 server_6 0
      (Reach-IsServer fresh server_5 fresh-HasArrays server_5-Reach)
      (rounds none_lost 11 closed new_client (λ p c e. refl) refl) first_in_use refl

-- Client 11 does the first task, which is 2 + 3.
abbrev asked : TaskQueue × Option ℕ
asked = get_next_task none_lost 11 server_0.queue

one_task-completes_example :
    one_task none_lost 11 (held none) server_0.queue
    ≡ turn (codes "RESULT 5\n\n") true (complete (some 0) asked.0) (running (held none))
unfolding get_next_task load_tasks decimal_digits
one_task-completes_example =
    one_task-completes none_lost 11 server_0.queue asked.0 0 b'+' 2 3 false 5 refl refl sum
      (omega arith) (omega arith) (omega arith)

-- A negative result, a division by zero, and the greatest number with one added.
reckoned :
    (eval_expr (codes "-7 * 6") ≡ some (true, 42))
    × (eval_expr (codes "7 / 0") ≡ none)
    × (eval_expr (codes "2147483647 + 1") ≡ none)
    × (eval_expr (codes "7 % 3") ≡ some (false, 0))
unfolding eval_expr
reckoned = (refl, refl, refl, refl)
