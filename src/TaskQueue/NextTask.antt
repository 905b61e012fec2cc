-- ===== src/TaskQueue/NextTask.antt =====
-- Which task `get_next_task` of "Assignment 5/server.c" hands out, and what it leaves of the others.
use networks_lab_cs39006_spr.Prelude.{
  ℕ, zero, suc, ◌+◌, ◌≤◌, ◌<◌, ◌≡◌, ◌≢◌, refl, sym, ◌∙◌, Bool, true, false, ◌⊎◌, inl, inr, Option,
  none, some, ◌==◌, arith, ==_iff, ==-false, Bool-cases, if_true, if_false, subst,
}
use native.Mathlib.Decide.{ℕ_discrete}
use networks_lab_cs39006_spr.TaskQueue.Queue.{
  TaskQueue, max_tasks, available, assigned, status, owner, put, reassign_from, reaasign_lost_tasks,
  find_available, assign, take_available, get_next_task,
}
use networks_lab_cs39006_spr.TaskQueue.Assign.{
  IsQueue, put-IsQueue, put_self, put-Same, Same, gone, Released, reassign_from-Released,
  reassign_from-IsQueue, reassign_from-num,
}

-- What the search among the entries from `i` to `i + left` finds.
abbrev pub Found : ℕ → ℕ → TaskQueue → Option ℕ → Type 0
Found left i q none = (j : ℕ) → i ≤ j → j < i + left → (status q j == available) ≡ false
Found left i q (some n) =
    (i ≤ n)
    × (n < i + left)
    × ((status q n == available) ≡ true)
    × ((j : ℕ) → i ≤ j → j < n → (status q j == available) ≡ false)

from_here :
    (i j : ℕ) (q : TaskQueue)
    → (status q i == available) ≡ false
    → ((suc i ≤ j) → (status q j == available) ≡ false)
    → i ≤ j
    → (status q j == available) ≡ false
from_here i j q e f h = elim (ℕ_discrete i j) [
  | yes same ↦ subst (λ n. (status q n == available) ≡ false) same e
  | no other ↦ f (omega arith)
]

Found-suc :
    (left i : ℕ) (q : TaskQueue) (o : Option ℕ)
    → (status q i == available) ≡ false
    → Found left (suc i) q o
    → Found (suc left) i q o
Found-suc left i q none e h = λ j lo hi. from_here i j q e (λ k. h j k (omega arith)) lo
Found-suc left i q (some n) e (lo, hi, a, below) =
    (omega arith, omega arith, a, λ j k m. from_here i j q e (λ k'. below j k' m) k)

pub find_available-Found : (left i : ℕ) (q : TaskQueue) → Found left i q (find_available left i q)
unfolding find_available
find_available-Found zero i q = λ j lo hi. absurd (omega arith)
find_available-Found (suc left) i q = elim (Bool-cases (status q i == available)) [
  | inl e ↦
      subst (Found (suc left) i q) (sym (if_true (status q i == available) _ _ e))
        (omega arith, omega arith, e, λ j lo hi. absurd (omega arith))
  | inr e ↦
      subst (Found (suc left) i q) (sym (if_false (status q i == available) _ _ e))
        (Found-suc left i q (find_available left (suc i) q) e (find_available-Found left (suc i) q))
]

-- The entry can be handed out: it is available, or the process that had it is gone.
abbrev pub CanTake : (ℕ → Bool) → TaskQueue → ℕ → Type 0
CanTake lost q j = (status q j ≡ available) ⊎ (gone lost q j ≡ true)

-- What `get_next_task` has done with a queue.
abbrev pub Handed : (ℕ → Bool) → ℕ → TaskQueue → TaskQueue → Option ℕ → Type 0
Handed lost pid q q' none = (j : ℕ) → j < q.num_tasks → ¬ (CanTake lost q j) × Same q q' j
Handed lost pid q q' (some n) =
    (n < q.num_tasks)
    × CanTake lost q n
    × ((j : ℕ) → j < n → ¬ (CanTake lost q j))
    × (status q' n ≡ assigned)
    × (owner q' n ≡ pid)
    × ((j : ℕ) → j < q.num_tasks → n ≢ j → Released lost q q' j)

can_take :
    (lost : ℕ → Bool) (q r : TaskQueue) (j : ℕ)
    → Released lost q r j
    → (status r j == available) ≡ true
    → CanTake lost q j
can_take lost q r j (inl (e, h)) a = inr e
can_take lost q r j (inr (e, h)) a = inl (sym h.0 ∙ (==_iff (status r j) available).0 a)

cannot_take :
    (lost : ℕ → Bool) (q r : TaskQueue) (j : ℕ)
    → Released lost q r j
    → (status r j == available) ≡ false
    → ¬ (CanTake lost q j) × Same q r j
cannot_take lost q r j (inl (e, h)) a = absurd (==-false (status r j) available a h)
cannot_take lost q r j (inr (e, h)) a =
    (λ c. elim c [ inl s ↦ ==-false (status r j) available a (h.0 ∙ s) | inr g ↦ cc ], h)

pub reaasign-Released :
    (lost : ℕ → Bool) (q : TaskQueue) (j : ℕ)
    → IsQueue q
    → j < q.num_tasks
    → Released lost q (reaasign_lost_tasks lost q) j
unfolding reaasign_lost_tasks
reaasign-Released lost q j v h =
    reassign_from-Released lost q.num_tasks 0 j q v (omega arith) (omega arith)
      (omega (arith, v.count))

take-Handed :
    (lost : ℕ → Bool) (pid : ℕ) (q r : TaskQueue) (o : Option ℕ)
    → IsQueue r
    → ((j : ℕ) → j < q.num_tasks → Released lost q r j)
    → q.num_tasks ≤ max_tasks
    → Found q.num_tasks 0 r o
    → Handed lost pid q (assign pid o r) o
unfolding assign
take-Handed lost pid q r none v rel c f =
    λ j h. cannot_take lost q r j (rel j h) (f j (omega arith) (omega arith))
take-Handed lost pid q r (some n) v rel c (lo, hi, a, below) = (
  omega arith,
  can_take lost q r n (rel n (omega arith)) a,
  λ j h. (cannot_take lost q r j (rel j (omega arith)) (below j (omega arith) h)).0,
  (put_self r n assigned pid v (omega arith)).0,
  (put_self r n assigned pid v (omega arith)).1,
  λ j h ne. Released_kept lost q r n pid j (rel j h) ne,
)
  where
    Released_kept :
        (lost : ℕ → Bool) (q r : TaskQueue) (n pid j : ℕ)
        → Released lost q r j
        → n ≢ j
        → Released lost q (put r n assigned pid) j
    Released_kept lost q r n pid j (inl (e, h)) ne = inl (e, (put-Same r n assigned pid j ne).0 ∙ h)
    Released_kept lost q r n pid j (inr (e, h)) ne =
        inr
          (e, ((put-Same r n assigned pid j ne).0 ∙ h.0, (put-Same r n assigned pid j ne).1 ∙ h.1))

-- The call hands out the first task that is available or whose client is gone, marks it as
-- assigned to the caller, and frees among the others just those whose client is gone; it hands out
-- none exactly when there is no such task, and then changes no entry in use.
pub get_next_task-Handed :
    (lost : ℕ → Bool) (pid : ℕ) (q : TaskQueue)
    → IsQueue q
    → Handed lost pid q (get_next_task lost pid q).0 (get_next_task lost pid q).1
unfolding get_next_task take_available reaasign_lost_tasks
get_next_task-Handed lost pid q v =
    let r = reassign_from lost q.num_tasks 0 q in
    let n : r.num_tasks ≡ q.num_tasks = reassign_from-num lost q.num_tasks 0 q in
    take-Handed lost pid q r (find_available r.num_tasks 0 r)
      (reassign_from-IsQueue lost q.num_tasks 0 q v) (λ j h. reaasign-Released lost q j v h) v.count
      (subst (λ k. Found k 0 r (find_available r.num_tasks 0 r)) n
        (find_available-Found r.num_tasks 0 r))

assign-IsQueue : (pid : ℕ) (o : Option ℕ) (r : TaskQueue) → IsQueue r → IsQueue (assign pid o r)
unfolding assign
assign-IsQueue pid none r w = w
assign-IsQueue pid (some n) r w = put-IsQueue r n assigned pid w

assign-num : (pid : ℕ) (o : Option ℕ) (r : TaskQueue) → (assign pid o r).num_tasks ≡ r.num_tasks
unfolding assign put
assign-num pid none r = refl
assign-num pid (some n) r = refl

pub get_next_task-IsQueue :
    (lost : ℕ → Bool) (pid : ℕ) (q : TaskQueue) → IsQueue q → IsQueue (get_next_task lost pid q).0
unfolding get_next_task take_available reaasign_lost_tasks
get_next_task-IsQueue lost pid q v =
    let r = reassign_from lost q.num_tasks 0 q in
    assign-IsQueue pid (find_available r.num_tasks 0 r) r
      (reassign_from-IsQueue lost q.num_tasks 0 q v)

pub get_next_task-num :
    (lost : ℕ → Bool) (pid : ℕ) (q : TaskQueue)
    → (get_next_task lost pid q).0.num_tasks ≡ q.num_tasks
unfolding get_next_task take_available reaasign_lost_tasks
get_next_task-num lost pid q =
    let r = reassign_from lost q.num_tasks 0 q in
    assign-num pid (find_available r.num_tasks 0 r) r ∙ reassign_from-num lost q.num_tasks 0 q

pub reaasign-IsQueue :
    (lost : ℕ → Bool) (q : TaskQueue) → IsQueue q → IsQueue (reaasign_lost_tasks lost q)
unfolding reaasign_lost_tasks
reaasign-IsQueue lost q v = reassign_from-IsQueue lost q.num_tasks 0 q v

pub reaasign-num :
    (lost : ℕ → Bool) (q : TaskQueue) → (reaasign_lost_tasks lost q).num_tasks ≡ q.num_tasks
unfolding reaasign_lost_tasks
reaasign-num lost q = reassign_from-num lost q.num_tasks 0 q
