-- ===== src/TaskQueue/Rounds.antt =====
-- Each branch of `handle_client` in "Assignment 5/server.c" keeps what the other processes rely on, and
-- an idle client is given five polls.
use networks_lab_cs39006_spr.Prelude.{
  ℕ, ◌≡◌, refl, sym, ap, ◌∙◌, Bool, false, List, [], Option, none, some, if_elim, arith, subst,
  cut_line,
}
use native.Mathlib.Decide.{ℕ_discrete}
use networks_lab_cs39006_spr.TaskQueue.Queue.{
  TaskQueue, completed, status, owner, put, get_next_task,
}
use networks_lab_cs39006_spr.TaskQueue.Client.{
  Client, Received, running, exits, bytes, closed, again, failed, held, reply_task, get_task,
  complete, result, handle_line, count_timeout, handle_client,
}
use networks_lab_cs39006_spr.TaskQueue.Assign.{IsQueue, put-IsQueue, put_self, put-Same}
use networks_lab_cs39006_spr.TaskQueue.NextTask.{
  Handed, get_next_task-Handed, get_next_task-IsQueue, get_next_task-num,
}
use networks_lab_cs39006_spr.TaskQueue.Ownership.{
  Owns, Keeps, Progress, Keeps-refl, Handed-Owns, Handed-done,
}

-- The process sees no live client as lost.
abbrev pub Live : (ℕ → Bool) → (ℕ → Option Client) → Type 0
Live lost clients = (p : ℕ) (c : Client) → clients p ≡ some c → lost p ≡ false

next_client : {a b : Client} → running a ≡ running b → a ≡ b
next_client e = cc

stay-Progress :
    (pid : ℕ) (clients : ℕ → Option Client) (q : TaskQueue) (sent : List (List ℕ)) (c : Client)
    → IsQueue q
    → Owns q pid c.client_task
    → Progress pid clients q (record { queue = q; sent = sent; next = running c })
stay-Progress pid clients q sent c v o = record {
  keeps = Keeps-refl pid clients q v;
  own = λ c' e. subst (λ d. Owns q pid (Client.client_task d)) (next_client e) o;
}

exit-Progress :
    (pid : ℕ) (clients : ℕ → Option Client) (q : TaskQueue) (sent : List (List ℕ)) (code : ℕ)
    → IsQueue q
    → Progress pid clients q (record { queue = q; sent = sent; next = exits code })
exit-Progress pid clients q sent code v = record {
  keeps = Keeps-refl pid clients q v;
  own = λ c e. cc;
}

reply-Progress :
    (pid : ℕ) (clients : ℕ → Option Client) (q q' : TaskQueue) (o : Option ℕ)
    → Keeps pid clients q q'
    → Owns q' pid o
    → Progress pid clients q (reply_task (q', o))
unfolding reply_task
reply-Progress pid clients q q' none k o = record {
  keeps = k;
  own = λ c e. subst (λ d. Owns q' pid (Client.client_task d)) (next_client e) tt;
}
reply-Progress pid clients q q' (some i) k o = record {
  keeps = k;
  own = λ c e. subst (λ d. Owns q' pid (Client.client_task d)) (next_client e) o;
}

taken-Owns :
    (lost : ℕ → Bool) (pid : ℕ) (q q' : TaskQueue) (o : Option ℕ)
    → q'.num_tasks ≡ q.num_tasks
    → Handed lost pid q q' o
    → Owns q' pid o
taken-Owns lost pid q q' none n h = tt
taken-Owns lost pid q q' (some i) n (a, b, c, d, e, f) = (omega arith, d, e)

get_next_task-Keeps :
    (lost : ℕ → Bool) (pid : ℕ) (clients : ℕ → Option Client) (q : TaskQueue)
    → IsQueue q
    → Live lost clients
    → Keeps pid clients q (get_next_task lost pid q).0
get_next_task-Keeps lost pid clients q v l =
    let after = get_next_task lost pid q in
    let h = get_next_task-Handed lost pid q v in
    let n = get_next_task-num lost pid q in
    record {
      valid = get_next_task-IsQueue lost pid q v;
      num = n;
      others = λ p i c ne e o. Handed-Owns lost pid q after.0 after.1 p i n (l p c e) h o;
      done = λ i lt d. Handed-done lost pid q after.0 after.1 i h lt d;
    }

get_task-Progress :
    (lost : ℕ → Bool) (pid : ℕ) (clients : ℕ → Option Client) (task : Option ℕ) (q : TaskQueue)
    → IsQueue q
    → Live lost clients
    → Owns q pid task
    → Progress pid clients q (get_task lost pid task q)
unfolding get_task
get_task-Progress lost pid clients none q v l o =
    let after = get_next_task lost pid q in
    reply-Progress pid clients q after.0 after.1 (get_next_task-Keeps lost pid clients q v l) (
      taken-Owns lost pid q after.0 after.1 (get_next_task-num lost pid q)
        (get_next_task-Handed lost pid q v))
get_task-Progress lost pid clients (some i) q v l o =
    stay-Progress pid clients q _ (held (some i)) v o

-- Only the owner completes a task.
complete-Keeps :
    (pid : ℕ) (clients : ℕ → Option Client) (task : Option ℕ) (q : TaskQueue)
    → IsQueue q
    → Owns q pid task
    → Keeps pid clients q (complete task q)
unfolding complete put
complete-Keeps pid clients none q v o = Keeps-refl pid clients q v
complete-Keeps pid clients (some i) q v (h, a, b) = record {
  valid = put-IsQueue q i completed (owner q i) v;
  num = refl;
  others = λ p j c ne e o. elim (ℕ_discrete i j) [
    | yes same ↦ absurd (ne (sym o.2 ∙ ap (owner q) (sym same) ∙ b))
    | no other ↦ (
      o.0,
      (put-Same q i completed (owner q i) j other).0 ∙ o.1,
      (put-Same q i completed (owner q i) j other).1 ∙ o.2,
    )
  ];
  done = λ j lt d. elim (ℕ_discrete i j) [
    | yes same ↦
        subst (λ k. status (put q i completed (owner q i)) k ≡ completed) same
          (put_self q i completed (owner q i) v (omega (arith, v.count))).0
    | no other ↦ (put-Same q i completed (owner q i) j other).0 ∙ d
  ];
}

result-Progress :
    (pid : ℕ) (clients : ℕ → Option Client) (task : Option ℕ) (q : TaskQueue)
    → IsQueue q
    → Owns q pid task
    → Progress pid clients q (result task q)
unfolding result
result-Progress pid clients task q v o = record {
  keeps = complete-Keeps pid clients task q v o;
  own = λ c e. subst (λ d. Owns (complete task q) pid (Client.client_task d)) (next_client e) tt;
}

handle_line-Progress :
    (lost : ℕ → Bool) (pid : ℕ) (clients : ℕ → Option Client) (line : List ℕ) (task : Option ℕ)
    (q : TaskQueue)
    → IsQueue q
    → Live lost clients
    → Owns q pid task
    → Progress pid clients q (handle_line lost pid line task q)
unfolding handle_line
handle_line-Progress lost pid clients line task q v l o =
    if_elim (Progress pid clients q) _ _ _ (get_task-Progress lost pid clients task q v l o) (
      if_elim (Progress pid clients q) _ _ _ (result-Progress pid clients task q v o) (
        if_elim (Progress pid clients q) _ _ _ (exit-Progress pid clients q [] 0 v)
          (stay-Progress pid clients q _ (held task) v o)))

timeout-Progress :
    (pid : ℕ) (clients : ℕ → Option Client) (c : Client) (q : TaskQueue)
    → IsQueue q
    → Owns q pid c.client_task
    → Progress pid clients q (record { queue = q; sent = []; next = count_timeout c })
unfolding count_timeout
timeout-Progress pid clients c q v o =
    if_elim (λ n. Progress pid clients q (record { queue = q; sent = []; next = n })) _ _ _
      (exit-Progress pid clients q [] 1 v) (stay-Progress pid clients q [] _ v o)

pub handle_client-Progress :
    (lost : ℕ → Bool) (pid : ℕ) (clients : ℕ → Option Client) (r : Received) (c : Client)
    (q : TaskQueue)
    → IsQueue q
    → Live lost clients
    → Owns q pid c.client_task
    → Progress pid clients q (handle_client lost pid r c q)
unfolding handle_client
handle_client-Progress lost pid clients (bytes b) c q v l o =
    handle_line-Progress lost pid clients (cut_line b) c.client_task q v l o
handle_client-Progress lost pid clients closed c q v l o = exit-Progress pid clients q [] 0 v
handle_client-Progress lost pid clients failed c q v l o = exit-Progress pid clients q [] 1 v
handle_client-Progress lost pid clients again c q v l o = timeout-Progress pid clients c q v o
