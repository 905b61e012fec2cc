-- ===== src/TaskQueue/Assign.antt =====
-- The entries that `reaasign_lost_tasks` of "Assignment 5/server.c" frees, and those that it leaves.
use networks_lab_cs39006_spr.Prelude.{
  ℕ, zero, suc, ◌+◌, ◌≤◌, ◌<◌, ◌≡◌, ◌≢◌, refl, sym, ap, ap₂, ◌∙◌, Bool, true, false, ◌&&◌, ◌⊎◌, inl,
  inr, ◌==◌, arith, length, get_or-set_self, get_or-set_ne, length-set, Bool-cases, if_true,
  if_false, subst,
}
use native.Mathlib.Decide.{ℕ_discrete}
use networks_lab_cs39006_spr.TaskQueue.Queue.{
  TaskQueue, max_tasks, available, assigned, status, owner, put, reassign_task, reassign_from,
}

-- The arrays have their length, and the entries in use lie within them.
pub record IsQueue (q : TaskQueue) : Type 0 where
  pub statuses : length q.task_status ≡ max_tasks
  pub owners : length q.assigned_to ≡ max_tasks
  pub count : q.num_tasks ≤ max_tasks

-- What a write leaves.
pub put-IsQueue : (q : TaskQueue) (i s pid : ℕ) → IsQueue q → IsQueue (put q i s pid)
unfolding put
put-IsQueue q i s pid v = record {
  statuses = length-set q.task_status i s ∙ v.statuses;
  owners = length-set q.assigned_to i pid ∙ v.owners;
  count = v.count;
}

pub put_self :
    (q : TaskQueue) (i s pid : ℕ)
    → IsQueue q
    → i < max_tasks
    → (status (put q i s pid) i ≡ s) × (owner (put q i s pid) i ≡ pid)
unfolding put
put_self q i s pid v h = (
  get_or-set_self q.task_status i s available (omega (arith, v.statuses)),
  get_or-set_self q.assigned_to i pid 0 (omega (arith, v.owners)),
)

-- The entry is as it was.
abbrev pub Same : TaskQueue → TaskQueue → ℕ → Type 0
Same q q' j = (status q' j ≡ status q j) × (owner q' j ≡ owner q j)

pub put-Same : (q : TaskQueue) (i s pid j : ℕ) → i ≢ j → Same q (put q i s pid) j
unfolding put
put-Same q i s pid j h =
    (get_or-set_ne q.task_status i j s available h, get_or-set_ne q.assigned_to i j pid 0 h)

-- Whether the process of an assigned task is gone.
abbrev pub gone : (ℕ → Bool) → TaskQueue → ℕ → Bool
gone lost q j = (status q j == assigned) && lost (owner q j)

-- What `reaasign_lost_tasks` makes of an entry: it frees it or leaves it.
abbrev pub Released : (ℕ → Bool) → TaskQueue → TaskQueue → ℕ → Type 0
Released lost q q' j =
    ((gone lost q j ≡ true) × (status q' j ≡ available)) ⊎ ((gone lost q j ≡ false) × Same q q' j)

reassign_task-IsQueue :
    (lost : ℕ → Bool) (i : ℕ) (q : TaskQueue) → IsQueue q → IsQueue (reassign_task lost i q)
unfolding reassign_task
reassign_task-IsQueue lost i q v = elim (Bool-cases (gone lost q i)) [
  | inl e ↦ subst IsQueue (sym (if_true (gone lost q i) _ _ e)) (put-IsQueue q i available 0 v)
  | inr e ↦ subst IsQueue (sym (if_false (gone lost q i) _ _ e)) v
]

reassign_task-Released :
    (lost : ℕ → Bool) (i : ℕ) (q : TaskQueue)
    → IsQueue q
    → i < max_tasks
    → Released lost q (reassign_task lost i q) i
unfolding reassign_task
reassign_task-Released lost i q v h = elim (Bool-cases (gone lost q i)) [
  | inl e ↦
      inl
        (e, ap (λ r. status r i) (if_true (gone lost q i) _ _ e) ∙ (put_self q i available 0 v h).0)
  | inr e ↦ inr (
    e,
    (
      ap (λ r. status r i) (if_false (gone lost q i) _ _ e),
      ap (λ r. owner r i) (if_false (gone lost q i) _ _ e),
    ),
  )
]

reassign_task-Same :
    (lost : ℕ → Bool) (i j : ℕ) (q : TaskQueue) → i ≢ j → Same q (reassign_task lost i q) j
unfolding reassign_task
reassign_task-Same lost i j q h = elim (Bool-cases (gone lost q i)) [
  | inl e ↦
      subst (λ r. Same q r j) (sym (if_true (gone lost q i) _ _ e)) (put-Same q i available 0 j h)
  | inr e ↦ subst (λ r. Same q r j) (sym (if_false (gone lost q i) _ _ e)) (refl, refl)
]

reassign_task-num :
    (lost : ℕ → Bool) (i : ℕ) (q : TaskQueue) → (reassign_task lost i q).num_tasks ≡ q.num_tasks
unfolding reassign_task put
reassign_task-num lost i q = elim (Bool-cases (gone lost q i)) [
  | inl e ↦ ap (λ r. TaskQueue.num_tasks r) (if_true (gone lost q i) _ _ e)
  | inr e ↦ ap (λ r. TaskQueue.num_tasks r) (if_false (gone lost q i) _ _ e)
]

pub reassign_from-below :
    (lost : ℕ → Bool) (left i j : ℕ) (q : TaskQueue)
    → j < i
    → Same q (reassign_from lost left i q) j
unfolding reassign_from
reassign_from-below lost zero i j q h = (refl, refl)
reassign_from-below lost (suc left) i j q h =
    let later = reassign_from-below lost left (suc i) j (reassign_task lost i q) (omega arith) in
    let now = reassign_task-Same lost i j q (λ e. omega arith) in (later.0 ∙ now.0, later.1 ∙ now.1)

-- What was `Released` is so from a queue and to a queue that agree on the entry.
Released-to :
    (lost : ℕ → Bool) (q r s : TaskQueue) (j : ℕ)
    → Released lost q r j
    → Same r s j
    → Released lost q s j
Released-to lost q r s j (inl (e, h)) k = inl (e, k.0 ∙ h)
Released-to lost q r s j (inr (e, h)) k = inr (e, (k.0 ∙ h.0, k.1 ∙ h.1))

Released-from :
    (lost : ℕ → Bool) (q r s : TaskQueue) (j : ℕ)
    → Same q r j
    → Released lost r s j
    → Released lost q s j
Released-from lost q r s j k (inl (e, h)) =
    inl (ap₂ (λ a b. (a == assigned) && lost b) (sym k.0) (sym k.1) ∙ e, h)
Released-from lost q r s j k (inr (e, h)) =
    inr (ap₂ (λ a b. (a == assigned) && lost b) (sym k.0) (sym k.1) ∙ e, (h.0 ∙ k.0, h.1 ∙ k.1))

pub reassign_from-Released :
    (lost : ℕ → Bool) (left i j : ℕ) (q : TaskQueue)
    → IsQueue q
    → i ≤ j
    → j < i + left
    → i + left ≤ max_tasks
    → Released lost q (reassign_from lost left i q) j
unfolding reassign_from
reassign_from-Released lost zero i j q v h k m = absurd (omega arith)
reassign_from-Released lost (suc left) i j q v h k m = elim (ℕ_discrete i j) [
  | yes e ↦
      Released-to lost q (reassign_task lost i q)
        (reassign_from lost left (suc i) (reassign_task lost i q)) j
        (subst (λ n. Released lost q (reassign_task lost i q) n) e
          (reassign_task-Released lost i q v (omega arith)))
        (reassign_from-below lost left (suc i) j (reassign_task lost i q) (omega arith))
  | no ne ↦
      Released-from lost q (reassign_task lost i q)
        (reassign_from lost left (suc i) (reassign_task lost i q)) j
        (reassign_task-Same lost i j q ne)
        (reassign_from-Released lost left (suc i) j (reassign_task lost i q)
          (reassign_task-IsQueue lost i q v) (omega arith) (omega arith) (omega arith))
]

pub reassign_from-IsQueue :
    (lost : ℕ → Bool) (left i : ℕ) (q : TaskQueue)
    → IsQueue q
    → IsQueue (reassign_from lost left i q)
unfolding reassign_from
reassign_from-IsQueue lost zero i q v = v
reassign_from-IsQueue lost (suc left) i q v =
    reassign_from-IsQueue lost left (suc i) (reassign_task lost i q)
      (reassign_task-IsQueue lost i q v)

pub reassign_from-num :
    (lost : ℕ → Bool) (left i : ℕ) (q : TaskQueue)
    → (reassign_from lost left i q).num_tasks ≡ q.num_tasks
unfolding reassign_from
reassign_from-num lost zero i q = refl
reassign_from-num lost (suc left) i q =
    reassign_from-num lost left (suc i) (reassign_task lost i q) ∙ reassign_task-num lost i q
