-- ===== src/TaskQueue/Queue.antt =====
-- The queue in shared memory of "Assignment 5/server.c": `TaskQueue`, `load_tasks`,
-- `reaasign_lost_tasks` and `get_next_task`.
use networks_lab_cs39006_spr.Prelude.{
  ℕ, zero, suc, Bool, ◌&&◌, List, [], ◌∷◌, Option, none, some, ltb, ◌==◌, if◌then◌else◌, set,
  get_or, cut_line,
}

abbrev pub max_tasks : ℕ
max_tasks = 200

-- The values of `task_status`.
abbrev pub available : ℕ
available = 0

abbrev pub assigned : ℕ
assigned = 1

abbrev pub completed : ℕ
completed = 2

-- Three arrays of `max_tasks` entries, of which the first `num_tasks` are in use.
pub record TaskQueue : Type 0 where
  pub tasks : List (List ℕ)
  pub task_status : List ℕ
  pub assigned_to : List ℕ
  pub num_tasks : ℕ

abbrev pub status : TaskQueue → ℕ → ℕ
status q i = get_or q.task_status i available

abbrev pub owner : TaskQueue → ℕ → ℕ
owner q i = get_or q.assigned_to i 0

-- `task_status[i] = s` and `assigned_to[i] = pid`.
unfoldable pub put : TaskQueue → ℕ → ℕ → ℕ → TaskQueue
put q i s pid = record {
  tasks = q.tasks;
  task_status = set q.task_status i s;
  assigned_to = set q.assigned_to i pid;
  num_tasks = q.num_tasks;
}

-- One round of the loop of `load_tasks`.
unfoldable pub load_task : List ℕ → TaskQueue → TaskQueue
load_task line q = record {
  tasks = set q.tasks q.num_tasks (cut_line line);
  task_status = set q.task_status q.num_tasks available;
  assigned_to = set q.assigned_to q.num_tasks 0;
  num_tasks = suc q.num_tasks;
}

-- The loop, on the pieces that `fgets(line, 50, file)` returns one after the other.
unfoldable pub load_lines : List (List ℕ) → TaskQueue → TaskQueue
unfolding load_task
load_lines [] q = q
load_lines (line ∷ lines) q =
    if ltb q.num_tasks max_tasks then load_lines lines (load_task line q) else q

-- `load_tasks`, where the file could be opened.
unfoldable pub load_tasks : List (List ℕ) → TaskQueue → TaskQueue
unfolding load_lines
load_tasks lines q = load_lines lines (record {
  tasks = q.tasks;
  task_status = q.task_status;
  assigned_to = q.assigned_to;
  num_tasks = 0;
})

-- One round of `reaasign_lost_tasks`. `lost pid` says that `kill(pid, 0)` fails with ESRCH.
unfoldable pub reassign_task : (ℕ → Bool) → ℕ → TaskQueue → TaskQueue
unfolding put
reassign_task lost i q =
    if (status q i == assigned) && lost (owner q i) then put q i available 0 else q

-- The rounds from entry `i` on, `left` of them.
unfoldable pub reassign_from : (ℕ → Bool) → ℕ → ℕ → TaskQueue → TaskQueue
unfolding reassign_task
reassign_from lost zero i q = q
reassign_from lost (suc left) i q = reassign_from lost left (suc i) (reassign_task lost i q)

unfoldable pub reaasign_lost_tasks : (ℕ → Bool) → TaskQueue → TaskQueue
unfolding reassign_from
reaasign_lost_tasks lost q = reassign_from lost q.num_tasks 0 q

-- The search of `get_next_task` from entry `i` on, over `left` entries.
unfoldable pub find_available : ℕ → ℕ → TaskQueue → Option ℕ
find_available zero i q = none
find_available (suc left) i q =
    let rest = find_available left (suc i) q in if status q i == available then some i else rest

unfoldable pub assign : ℕ → Option ℕ → TaskQueue → TaskQueue
unfolding put
assign pid none q = q
assign pid (some i) q = put q i assigned pid

-- The second critical section of `get_next_task`. `none` is -1.
unfoldable pub take_available : ℕ → TaskQueue → TaskQueue × Option ℕ
unfolding find_available assign
take_available pid q = let found = find_available q.num_tasks 0 q in (assign pid found q, found)

unfoldable pub get_next_task : (ℕ → Bool) → ℕ → TaskQueue → TaskQueue × Option ℕ
unfolding reaasign_lost_tasks take_available
get_next_task lost pid q = take_available pid (reaasign_lost_tasks lost q)
