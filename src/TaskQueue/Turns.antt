-- ===== src/TaskQueue/Turns.antt =====
-- A task goes from "Assignment 5/server.c" to client.c, and its result comes back.
use networks_lab_cs39006_spr.Prelude.{
  ℕ, ◌^◌, ◌≤◌, ◌<◌, ◌≡◌, refl, ap, ◌∙◌, Bool, true, false, List, [], ◌∷◌, ◌++◌, Option, ◌||◌, ◌==◌,
  none, some, get_or, codes, cut_line, take, take-whole, length, length-append, All-append, arith,
}
use mathlib.Core.List.{append_assoc}
use networks_lab_cs39006_spr.Prelude.Decimal.{decimal, length-decimal}
use networks_lab_cs39006_spr.TaskQueue.Queue.{TaskQueue, get_next_task}
use networks_lab_cs39006_spr.TaskQueue.Client.{
  held, running, send_message, reply_task, complete, handle_line,
}
use networks_lab_cs39006_spr.TaskQueue.Worker.{
  is_operator, int_text, sends, send_result, work_line, work, arrived, Turn, turn, answered,
  hand_in, one_task,
}
use networks_lab_cs39006_spr.TaskQueue.Reckon.{
  task_text, eval_expr-task_text, Means, operate-Means, Inline, cut_line-Inline, decimal-Inline,
  int_text-Inline, length-int_text,
}

-- A line that fits the buffers is sent whole.
send_message-whole :
    (text : List ℕ) → length text < 1000 → send_message (take 1023 text) ≡ (text ++ 10 ∷ []) ∷ []
unfolding send_message
send_message-whole text h =
    ap (λ t. take 1023 (t ++ 10 ∷ []) ∷ []) (take-whole 1023 text (omega arith))
    ∙ ap (λ t. t ∷ [])
        (take-whole 1023 (text ++ 10 ∷ []) (omega (arith, length-append text (10 ∷ []))))

-- The client's line with a result.
abbrev pub result_line : Bool → ℕ → List ℕ
result_line negative n = codes "RESULT " ++ int_text (negative, n) ++ 10 ∷ []

length-task_text : (op a b : ℕ) → length (task_text op a b) ≤ 23
length-task_text op a b = omega (
  arith,
  length-append (decimal a) (32 ∷ op ∷ 32 ∷ decimal b),
  length-decimal a,
  length-decimal b,
)

task_text-Inline : (op a b : ℕ) → is_operator op ≡ true → Inline (task_text op a b)
task_text-Inline op a b o =
    All-append (λ c. ((c == 10) || (c == 0)) ≡ false) (decimal a) (32 ∷ op ∷ 32 ∷ decimal b)
      (decimal-Inline a) (refl, (ground arith, (refl, decimal-Inline b)))

-- The client sends the result of a task.
work-task_text :
    (op a b : ℕ) (negative : Bool) (n : ℕ)
    → Means a b op negative n
    → a < 2 ^ 31
    → b < 2 ^ 31
    → n < 2 ^ 31
    → work (codes "Task: " ++ task_text op a b ++ 10 ∷ [])
      ≡ sends ((result_line negative n ++ 10 ∷ []) ∷ [])
unfolding work send_result
work-task_text op a b negative n r h l k =
    let o = operate-Means a b op negative n r k in
    ap (λ t. work_line (codes "Task: " ++ t))
      (cut_line-Inline (task_text op a b) [] (task_text-Inline op a b o.0))
    ∙ ap send_result (eval_expr-task_text op a b o.0 h l ∙ o.1)
    ∙ ap sends (
        send_message-whole (result_line negative n) (
          omega
            (arith, length-append (int_text (negative, n)) (10 ∷ []), length-int_text negative n)))

-- Where the server hands out task i, whose text is a sum, difference, product or quotient of two
-- numbers below 2^31 whose result is below 2^31 in size, a round of the client with the process
-- that serves it, in which each message arrives in one recv, sends that result, completes task i,
-- and leaves both ready for another task; a divisor is not zero.
pub one_task-completes :
    (lost : ℕ → Bool) (pid : ℕ) (q q' : TaskQueue) (i op a b : ℕ) (negative : Bool) (n : ℕ)
    → get_next_task lost pid q ≡ (q', some i)
    → get_or q'.tasks i [] ≡ task_text op a b
    → Means a b op negative n
    → a < 2 ^ 31
    → b < 2 ^ 31
    → n < 2 ^ 31
    → one_task lost pid (held none) q
      ≡ turn (result_line negative n ++ 10 ∷ []) true (complete (some i) q') (running (held none))
unfolding one_task
one_task-completes lost pid q q' i op a b negative n e t r h l k =
    let reply : List (List ℕ) → Turn =
      λ ms. hand_in lost pid (work (arrived ms)) q' (running (held (some i))) in
    let sent : List ℕ = result_line negative n ++ 10 ∷ [] in
    let line : cut_line sent ≡ codes "RESULT " ++ int_text (negative, n) =
      ap (λ u. codes "RESULT " ++ cut_line u)
        (append_assoc (int_text (negative, n)) (10 ∷ []) (10 ∷ []))
      ∙ ap (λ u. codes "RESULT " ++ u)
          (cut_line-Inline (int_text (negative, n)) (10 ∷ []) (int_text-Inline negative n)) in
    ap
      (λ (g : TaskQueue × Option ℕ).
        hand_in lost pid (work (arrived (reply_task g).sent)) (reply_task g).queue
          (reply_task g).next)
      e
    ∙ ap reply (
        ap (λ u. send_message (take 1023 (codes "Task: " ++ u))) t
        ∙ send_message-whole (codes "Task: " ++ task_text op a b)
            (omega (arith, length-task_text op a b)))
    ∙ ap (λ w. hand_in lost pid w q' (running (held (some i))))
        (work-task_text op a b negative n r h l k)
    ∙ ap (λ u. answered sent (handle_line lost pid u (some i) q')) line
