-- ===== src/TaskQueue/Reach.antt =====
-- The processes of "Assignment 5/server.c" in any order: no two clients work on the same task, and a
-- completed task stays completed.
use networks_lab_cs39006_spr.Prelude.{
  ℕ, ◌<◌, ◌≡◌, ◌≢◌, sym, ap, ◌∙◌, Bool, true, false, ◌⊎◌, inl, inr, Option, none, some, ◌==◌,
  ==-self, ==-ne, subst, some-injective, if_true, if_false,
}
use native.Mathlib.Decide.{ℕ_discrete}
use networks_lab_cs39006_spr.TaskQueue.Queue.{TaskQueue, completed, status, reaasign_lost_tasks}
use networks_lab_cs39006_spr.TaskQueue.Client.{
  Client, Next, Round, running, exits, new_client, handle_client,
}
use networks_lab_cs39006_spr.TaskQueue.System.{
  Server, Step, Reach, forks, rounds, checks, dies, start, later, update, survivor, after_round,
}
use networks_lab_cs39006_spr.TaskQueue.Assign.{IsQueue}
use networks_lab_cs39006_spr.TaskQueue.NextTask.{reaasign-Released, reaasign-IsQueue, reaasign-num}
use networks_lab_cs39006_spr.TaskQueue.Load.{HasArrays, load_tasks-IsQueue}
use networks_lab_cs39006_spr.TaskQueue.Ownership.{
  Owns, IsServer, Keeps, Progress, Released-Owns, Released-done,
}
use networks_lab_cs39006_spr.TaskQueue.Rounds.{handle_client-Progress}

-- The process table after the entry of `pid` has changed.
update_cases :
    (clients : ℕ → Option Client) (pid : ℕ) (new : Option Client) (p : ℕ) (c : Client)
    → update clients pid new p ≡ some c
    → (p ≡ pid) × (new ≡ some c) ⊎ (p ≢ pid) × (clients p ≡ some c)
unfolding update
update_cases clients pid new p c e = elim (ℕ_discrete p pid) [
  | yes same ↦ inl (
    same,
    sym (if_true (p == pid) new (clients p) (subst (λ x. (p == x) ≡ true) same (==-self p))) ∙ e,
  )
  | no other ↦ inr (other, sym (if_false (p == pid) new (clients p) (==-ne p pid other)) ∙ e)
]

survivor_running : (n : Next) (c : Client) → survivor n ≡ some c → n ≡ running c
unfolding survivor
survivor_running (running d) c e = ap running (some-injective d c e)
survivor_running (exits code) c e = cc

others_kept :
    (pid : ℕ) (clients : ℕ → Option Client) (q q' : TaskQueue) (p : ℕ) (c : Client)
    (task : Option ℕ)
    → Keeps pid clients q q'
    → p ≢ pid
    → clients p ≡ some c
    → Owns q p task
    → Owns q' p task
others_kept pid clients q q' p c none k ne e o = tt
others_kept pid clients q q' p c (some i) k ne e o = k.others p i c ne e o

after_round-IsServer :
    (s : Server) (pid : ℕ) (r : Round)
    → IsServer s
    → Progress pid s.clients s.queue r
    → IsServer (after_round pid r s)
unfolding after_round
after_round-IsServer s pid r v g = record {
  valid = g.keeps.valid;
  owns = λ p c e. elim (update_cases s.clients pid (survivor r.next) p c e) [
    | inl (same, n) ↦
        subst (λ x. Owns r.queue x c.client_task) (sym same) (g.own c (survivor_running r.next c n))
    | inr (other, f) ↦
        others_kept pid s.clients s.queue r.queue p c c.client_task g.keeps other f (v.owns p c f)
  ];
}

checked-Owns :
    (lost : ℕ → Bool) (q : TaskQueue) (p : ℕ) (task : Option ℕ)
    → IsQueue q
    → lost p ≡ false
    → Owns q p task
    → Owns (reaasign_lost_tasks lost q) p task
checked-Owns lost q p none v l o = tt
checked-Owns lost q p (some i) v l o =
    Released-Owns lost q (reaasign_lost_tasks lost q) p i (reaasign-num lost q) l
      (reaasign-Released lost q i v o.0) o

-- x
pub Step-IsServer : (s s' : Server) → Step s s' → IsServer s → IsServer s'
Step-IsServer s _ (forks pid fresh) v = record {
  valid = v.valid;
  owns = λ p c e. elim (update_cases s.clients pid (some new_client) p c e) [
    | inl (same, n) ↦
        subst (λ d. Owns s.queue p (Client.client_task d)) (some-injective new_client c n) tt
    | inr (other, f) ↦ v.owns p c f
  ];
}
Step-IsServer s _ (rounds lost pid r c l e) v =
    after_round-IsServer s pid (handle_client lost pid r c s.queue) v
      (handle_client-Progress lost pid s.clients r c s.queue v.valid l (v.owns pid c e))
Step-IsServer s _ (checks lost l) v = record {
  valid = reaasign-IsQueue lost s.queue v.valid;
  owns = λ p c e. checked-Owns lost s.queue p c.client_task v.valid (l p c e) (v.owns p c e);
}
Step-IsServer s _ (dies pid) v = record {
  valid = v.valid;
  owns = λ p c e. elim (update_cases s.clients pid none p c e) [
    | inl (same, n) ↦ absurd cc
    | inr (other, f) ↦ v.owns p c f
  ];
}

-- In every state that the server's processes reach, the arrays keep their length, and the task
-- that a live client works on is in use and marked in the queue as assigned to that client.
pub Reach-IsServer : (old : TaskQueue) (s : Server) → HasArrays old → Reach old s → IsServer s
Reach-IsServer old _ a (start lines) = record {
  valid = load_tasks-IsQueue lines old a;
  owns = λ p c e. absurd cc;
}
Reach-IsServer old s a (later {s = r} h step) = Step-IsServer r s step (Reach-IsServer old r a h)

owned_alone : (q : TaskQueue) (p p' i : ℕ) → Owns q p (some i) → Owns q p' (some i) → p ≡ p'
owned_alone q p p' i o o' = sym o.2 ∙ o'.2

-- In every state that the server's processes reach from zeroed or old shared memory with arrays of
-- 200 entries, two live clients that work on the same task are the same client.
pub Reach-exclusive :
    (old : TaskQueue) (s : Server) (p p' i : ℕ) (c c' : Client)
    → HasArrays old
    → Reach old s
    → s.clients p ≡ some c
    → s.clients p' ≡ some c'
    → c.client_task ≡ some i
    → c'.client_task ≡ some i
    → p ≡ p'
Reach-exclusive old s p p' i c c' a h e e' t t' =
    let v = Reach-IsServer old s a h in
    owned_alone s.queue p p' i (subst (Owns s.queue p) t (v.owns p c e))
      (subst (Owns s.queue p') t' (v.owns p' c' e'))

-- From a state where each live client's task is marked as its own, no step of any process makes a
-- completed task anything but completed.
pub Step-completed :
    (s s' : Server) (i : ℕ)
    → IsServer s
    → Step s s'
    → i < s.queue.num_tasks
    → status s.queue i ≡ completed
    → status s'.queue i ≡ completed
unfolding after_round
Step-completed s _ i v (forks pid fresh) lt d = d
Step-completed s _ i v (rounds lost pid r c l e) lt d =
    (handle_client-Progress lost pid s.clients r c s.queue v.valid l (v.owns pid c e)).keeps.done i
      lt d
Step-completed s _ i v (checks lost l) lt d =
    Released-done lost s.queue (reaasign_lost_tasks lost s.queue) i
      (reaasign-Released lost s.queue i v.valid lt) d
Step-completed s _ i v (dies pid) lt d = d
