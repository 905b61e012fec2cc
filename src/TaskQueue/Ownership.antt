-- ===== src/TaskQueue/Ownership.antt =====
-- What the rounds of the processes of "Assignment 5/server.c" keep: the tasks that live clients work
-- on, and what is completed.
use networks_lab_cs39006_spr.Prelude.{
  ℕ, ◌<◌, ◌≡◌, ◌≢◌, refl, ap, ◌∙◌, Bool, true, false, inl, inr, Option, none, some, ◌==◌, arith,
  subst,
}
use native.Mathlib.Decide.{ℕ_discrete}
use networks_lab_cs39006_spr.TaskQueue.Queue.{TaskQueue, assigned, completed, status, owner}
use networks_lab_cs39006_spr.TaskQueue.Client.{Client, Round, running}
use networks_lab_cs39006_spr.TaskQueue.System.{Server}
use networks_lab_cs39006_spr.TaskQueue.Assign.{IsQueue, Same, gone, Released}
use networks_lab_cs39006_spr.TaskQueue.NextTask.{Handed, CanTake}

-- The task that a process works on is marked as assigned to it.
abbrev pub Owns : TaskQueue → ℕ → Option ℕ → Type 0
Owns q pid none = Unit
Owns q pid (some i) = (i < q.num_tasks) × (status q i ≡ assigned) × (owner q i ≡ pid)

abbrev pub OwnsAll : TaskQueue → (ℕ → Option Client) → Type 0
OwnsAll q clients = (p : ℕ) (c : Client) → clients p ≡ some c → Owns q p c.client_task

pub record IsServer (s : Server) : Type 0 where
  pub valid : IsQueue s.queue
  pub owns : OwnsAll s.queue s.clients

-- What a round of the process `pid` leaves: the tasks of the other live processes, and what is done.
pub record Keeps (pid : ℕ) (clients : ℕ → Option Client) (q q' : TaskQueue) : Type 0 where
  pub valid : IsQueue q'
  pub num : q'.num_tasks ≡ q.num_tasks
  pub others :
      (p i : ℕ) (c : Client) → p ≢ pid → clients p ≡ some c → Owns q p (some i) → Owns q' p (some i)
  pub done : (i : ℕ) → i < q.num_tasks → status q i ≡ completed → status q' i ≡ completed

pub Keeps-refl :
    (pid : ℕ) (clients : ℕ → Option Client) (q : TaskQueue) → IsQueue q → Keeps pid clients q q
Keeps-refl pid clients q v = record {
  valid = v;
  num = refl;
  others = λ p i c ne e o. o;
  done = λ i h d. d;
}

Same-Owns :
    (q q' : TaskQueue) (p i : ℕ)
    → q'.num_tasks ≡ q.num_tasks
    → Same q q' i
    → Owns q p (some i)
    → Owns q' p (some i)
Same-Owns q q' p i n s (h, a, b) = (omega arith, s.0 ∙ a, s.1 ∙ b)

pub not_gone :
    (lost : ℕ → Bool) (q : TaskQueue) (p i : ℕ)
    → lost p ≡ false
    → Owns q p (some i)
    → gone lost q i ≡ true
    → ⊥
not_gone lost q p i l (h, a, b) g = let k : lost (owner q i) ≡ false = ap lost b ∙ l in cc

pub Released-Owns :
    (lost : ℕ → Bool) (q q' : TaskQueue) (p i : ℕ)
    → q'.num_tasks ≡ q.num_tasks
    → lost p ≡ false
    → Released lost q q' i
    → Owns q p (some i)
    → Owns q' p (some i)
Released-Owns lost q q' p i n l (inl (g, h)) o = absurd (not_gone lost q p i l o g)
Released-Owns lost q q' p i n l (inr (g, h)) o = Same-Owns q q' p i n h o

pub Released-done :
    (lost : ℕ → Bool) (q q' : TaskQueue) (i : ℕ)
    → Released lost q q' i
    → status q i ≡ completed
    → status q' i ≡ completed
Released-done lost q q' i (inl (g, h)) d =
    let k : (status q i == assigned) ≡ false = ap (λ s. s == assigned) d in absurd cc
Released-done lost q q' i (inr (g, h)) d = h.0 ∙ d

cannot_take_owned :
    (lost : ℕ → Bool) (q : TaskQueue) (p i : ℕ)
    → lost p ≡ false
    → Owns q p (some i)
    → ¬ (CanTake lost q i)
cannot_take_owned lost q p i l (h, a, b) (inl e) = omega arith
cannot_take_owned lost q p i l o (inr g) = not_gone lost q p i l o g

cannot_take_done :
    (lost : ℕ → Bool) (q : TaskQueue) (i : ℕ) → status q i ≡ completed → ¬ (CanTake lost q i)
cannot_take_done lost q i d (inl e) = omega arith
cannot_take_done lost q i d (inr g) =
    let k : (status q i == assigned) ≡ false = ap (λ s. s == assigned) d in cc

pub Handed-Owns :
    (lost : ℕ → Bool) (pid : ℕ) (q q' : TaskQueue) (o : Option ℕ) (p i : ℕ)
    → q'.num_tasks ≡ q.num_tasks
    → lost p ≡ false
    → Handed lost pid q q' o
    → Owns q p (some i)
    → Owns q' p (some i)
Handed-Owns lost pid q q' none p i n l h w = Same-Owns q q' p i n (h i w.0).1 w
Handed-Owns lost pid q q' (some k) p i n l (a, b, c, d, e, f) w = elim (ℕ_discrete k i) [
  | yes same ↦ absurd (cannot_take_owned lost q p i l w (subst (CanTake lost q) same b))
  | no other ↦ Released-Owns lost q q' p i n l (f i w.0 other) w
]

pub Handed-done :
    (lost : ℕ → Bool) (pid : ℕ) (q q' : TaskQueue) (o : Option ℕ) (i : ℕ)
    → Handed lost pid q q' o
    → i < q.num_tasks
    → status q i ≡ completed
    → status q' i ≡ completed
Handed-done lost pid q q' none i h lt w = (h i lt).1.0 ∙ w
Handed-done lost pid q q' (some k) i (a, b, c, d, e, f) lt w = elim (ℕ_discrete k i) [
  | yes same ↦ absurd (cannot_take_done lost q i w (subst (CanTake lost q) same b))
  | no other ↦ Released-done lost q q' i (f i lt other) w
]

-- What a round must leave for the invariant to stay.
pub record Progress (pid : ℕ) (clients : ℕ → Option Client) (q : TaskQueue) (r : Round)
    : Type 0 where
  pub keeps : Keeps pid clients q r.queue
  pub own : (c : Client) → r.next ≡ running c → Owns r.queue pid c.client_task
