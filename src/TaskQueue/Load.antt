-- ===== src/TaskQueue/Load.antt =====
-- The queue that `load_tasks` of "Assignment 5/server.c" makes of the lines of the task file.
use networks_lab_cs39006_spr.Prelude.{
  ℕ, zero, suc, ◌+◌, ◌≤◌, ◌<◌, ◌≡◌, refl, sym, ap, ◌∙◌, List, [], ◌∷◌, some, some-injective, inl,
  inr, ltb, arith, length, get_elem?, get_or, get_or-set_self, get_or-set_ne, length-set,
  Bool-cases, if_true, if_false, subst, cut_line, ltb→lt,
}
use Prim.Native.Nat.{min}
use networks_lab_cs39006_spr.TaskQueue.Queue.{
  TaskQueue, max_tasks, available, status, load_task, load_lines, load_tasks,
}
use networks_lab_cs39006_spr.TaskQueue.Assign.{IsQueue}

-- The text of task `i`.
abbrev pub task : TaskQueue → ℕ → List ℕ
task q i = get_or q.tasks i []

-- The arrays have the length of the declaration.
pub record HasArrays (q : TaskQueue) : Type 0 where
  pub texts : length q.tasks ≡ max_tasks
  pub statuses : length q.task_status ≡ max_tasks
  pub owners : length q.assigned_to ≡ max_tasks

load_task-HasArrays : (line : List ℕ) (q : TaskQueue) → HasArrays q → HasArrays (load_task line q)
unfolding load_task
load_task-HasArrays line q v = record {
  texts = length-set q.tasks q.num_tasks (cut_line line) ∙ v.texts;
  statuses = length-set q.task_status q.num_tasks available ∙ v.statuses;
  owners = length-set q.assigned_to q.num_tasks 0 ∙ v.owners;
}

-- `num_tasks = 0`.
abbrev emptied : TaskQueue → TaskQueue
emptied q = record {
  tasks = q.tasks;
  task_status = q.task_status;
  assigned_to = q.assigned_to;
  num_tasks = 0;
}

emptied-HasArrays : (q : TaskQueue) → HasArrays q → HasArrays (emptied q)
emptied-HasArrays q v = record { texts = v.texts; statuses = v.statuses; owners = v.owners }

-- What the rest of the loop makes of a queue that has `q.num_tasks` tasks already.
pub record Loaded (lines : List (List ℕ)) (q q' : TaskQueue) : Type 0 where
  pub valid : HasArrays q'
  pub count : q'.num_tasks ≡ min max_tasks (q.num_tasks + length lines)
  pub kept : (j : ℕ) → j < q.num_tasks → (task q' j ≡ task q j) × (status q' j ≡ status q j)
  pub loaded :
      (j : ℕ) (line : List ℕ)
      → get_elem? lines j ≡ some line
      → q.num_tasks + j < max_tasks
      → (task q' (q.num_tasks + j) ≡ cut_line line) × (status q' (q.num_tasks + j) ≡ available)

stop-Loaded :
    (lines : List (List ℕ)) (q : TaskQueue)
    → HasArrays q
    → q.num_tasks ≡ max_tasks
    → Loaded lines q q
stop-Loaded lines q v h = record {
  valid = v;
  count = omega arith;
  kept = λ j lt. (refl, refl);
  loaded = λ j line e lt. absurd (omega arith);
}

load_task-kept :
    (line : List ℕ) (q : TaskQueue) (j : ℕ)
    → j < q.num_tasks
    → (task (load_task line q) j ≡ task q j) × (status (load_task line q) j ≡ status q j)
unfolding load_task
load_task-kept line q j lt = (
  get_or-set_ne q.tasks q.num_tasks j (cut_line line) [] (λ e. omega arith),
  get_or-set_ne q.task_status q.num_tasks j available available (λ e. omega arith),
)

load_task_self :
    (line : List ℕ) (q : TaskQueue)
    → HasArrays q
    → q.num_tasks < max_tasks
    → (task (load_task line q) q.num_tasks ≡ cut_line line)
      × (status (load_task line q) q.num_tasks ≡ available)
unfolding load_task
load_task_self line q v lt = (
  get_or-set_self q.tasks q.num_tasks (cut_line line) [] (omega (arith, v.texts)),
  get_or-set_self q.task_status q.num_tasks available available (omega (arith, v.statuses)),
)

step-Loaded :
    (line : List ℕ) (lines : List (List ℕ)) (q r q' : TaskQueue)
    → r.num_tasks ≡ suc q.num_tasks
    → q.num_tasks < max_tasks
    → ((j : ℕ) → j < q.num_tasks → (task r j ≡ task q j) × (status r j ≡ status q j))
    → (task r q.num_tasks ≡ cut_line line) × (status r q.num_tasks ≡ available)
    → Loaded lines r q'
    → Loaded (line ∷ lines) q q'
step-Loaded line lines q r q' n lt below here v = record {
  valid = v.valid;
  count = omega (arith, v.count);
  kept = λ j h.
      ((v.kept j (omega arith)).0 ∙ (below j h).0, (v.kept j (omega arith)).1 ∙ (below j h).1);
  loaded = λ j l e h. at_index j l e h;
}
  where
    at_index :
        (j : ℕ) (l : List ℕ)
        → get_elem? (line ∷ lines) j ≡ some l
        → q.num_tasks + j < max_tasks
        → (task q' (q.num_tasks + j) ≡ cut_line l) × (status q' (q.num_tasks + j) ≡ available)
    at_index zero l e h =
        subst (λ k. (task q' k ≡ cut_line l) × (status q' k ≡ available))
          (let same : q.num_tasks ≡ q.num_tasks + 0 = omega arith in same)
          (
            (v.kept q.num_tasks (omega arith)).0 ∙ here.0 ∙ ap cut_line (some-injective _ _ e),
            (v.kept q.num_tasks (omega arith)).1 ∙ here.1,
          )
    at_index (suc j) l e h =
        subst (λ k. (task q' k ≡ cut_line l) × (status q' k ≡ available))
          (let same : r.num_tasks + j ≡ q.num_tasks + suc j = omega arith in same)
          (v.loaded j l e (omega arith))

load_lines-Loaded :
    (lines : List (List ℕ)) (q : TaskQueue)
    → HasArrays q
    → q.num_tasks ≤ max_tasks
    → Loaded lines q (load_lines lines q)
unfolding load_lines load_task
load_lines-Loaded [] q v h = record {
  valid = v;
  count = omega arith;
  kept = λ j lt. (refl, refl);
  loaded = λ j line e lt. absurd cc;
}
load_lines-Loaded (line ∷ lines) q v h = elim (Bool-cases (ltb q.num_tasks max_tasks)) [
  | inl e ↦ subst (Loaded (line ∷ lines) q) (sym (if_true (ltb q.num_tasks max_tasks) _ _ e)) (
      let lt = ltb→lt q.num_tasks max_tasks e in
      step-Loaded line lines q (load_task line q) (load_lines lines (load_task line q)) refl lt
        (λ j k. load_task-kept line q j k) (load_task_self line q v lt)
        (load_lines-Loaded lines (load_task line q) (load_task-HasArrays line q v) lt))
  | inr e ↦
      subst (Loaded (line ∷ lines) q) (sym (if_false (ltb q.num_tasks max_tasks) _ _ e))
        (stop-Loaded (line ∷ lines) q v (ground arith))
]

-- On arrays of 200 entries, loading takes the lines of the file up to the 200th, each cut at its
-- end of line, in order, and makes each of them available.
pub load_tasks-Loaded :
    (lines : List (List ℕ)) (q : TaskQueue)
    → HasArrays q
    → ((load_tasks lines q).num_tasks ≡ min max_tasks (length lines))
      × ((j : ℕ) (line : List ℕ)
          → get_elem? lines j ≡ some line
          → j < max_tasks
          → (task (load_tasks lines q) j ≡ cut_line line)
            × (status (load_tasks lines q) j ≡ available))
unfolding load_tasks
load_tasks-Loaded lines q v =
    let loaded = load_lines-Loaded lines (emptied q) (emptied-HasArrays q v) (omega arith) in
    (
      omega (arith, loaded.count),
      λ j line e h.
          subst
            (λ k.
              (task (load_lines lines (emptied q)) k ≡ cut_line line)
              × (status (load_lines lines (emptied q)) k ≡ available))
            (let same : 0 + j ≡ j = omega arith in same) (loaded.loaded j line e (omega arith)),
    )

pub load_tasks-IsQueue :
    (lines : List (List ℕ)) (q : TaskQueue) → HasArrays q → IsQueue (load_tasks lines q)
unfolding load_tasks
load_tasks-IsQueue lines q v =
    let loaded = load_lines-Loaded lines (emptied q) (emptied-HasArrays q v) (omega arith) in
    record {
      statuses = loaded.valid.statuses;
      owners = loaded.valid.owners;
      count = omega (arith, loaded.count);
    }
