-- ===== src/TaskQueue/Worker.antt =====
-- "Assignment 5/client.c": how it reckons a task, and what it sends for each reply of the server.
use networks_lab_cs39006_spr.Prelude.{
  ℕ, ◌+◌, ◌-◌, ◌*◌, ◌/◌, ◌^◌, Bool, true, false, not, ◌&&◌, ◌||◌, List, [], ◌∷◌, ◌++◌, Option, none,
  some, ltb, leb, ◌==◌, if◌then◌else◌, codes, strcmp_eq, strncmp_eq, cut_line, skip_spaces, take,
  drop,
}
use networks_lab_cs39006_spr.Prelude.Decimal.{decimal, is_digit, strtol}
use networks_lab_cs39006_spr.TaskQueue.Queue.{TaskQueue}
use networks_lab_cs39006_spr.TaskQueue.Client.{
  bytes, Client, Next, running, exits, Round, send_message, handle_client,
}

-- An `int` is its sign, true for a minus, and its size.
abbrev pub in_int : Bool → ℕ → Bool
in_int negative n = if negative then leb n (2 ^ 31) else ltb n (2 ^ 31)

-- The result of an operation; `none` where it overflows, which is undefined in C.
abbrev pub int : Bool → ℕ → Option (Bool × ℕ)
int negative n = if in_int negative n then some (negative, n) else none

abbrev pub add : Bool × ℕ → Bool × ℕ → Option (Bool × ℕ)
add (s, a) (t, b) =
    if (s && t) || (not s && not t)
    then int s (a + b)
    else if leb b a
    then int s (a - b)
    else int t (b - a)

abbrev pub opposite : Bool → Bool → Bool
opposite s t = if s then not t else t

-- A division by zero ends the process.
abbrev pub divide : Bool × ℕ → Bool × ℕ → Option (Bool × ℕ)
divide (s, a) (t, b) = if b == 0 then none else int (opposite s t) (a / b)

abbrev pub operate : ℕ → Bool × ℕ → Bool × ℕ → Option (Bool × ℕ)
operate op (s, a) (t, b) =
    if op == b'+'
    then add (s, a) (t, b)
    else if op == b'-'
    then add (s, a) (not t, b)
    else if op == b'*'
    then int (opposite s t) (a * b)
    else divide (s, a) (t, b)

abbrev pub is_operator : ℕ → Bool
is_operator op = (op == b'+') || ((op == b'-') || ((op == b'*') || (op == b'/')))

-- The rest of a text behind the number that `%d` reads.
unfoldable pub after_digits : List ℕ → List ℕ
after_digits [] = []
after_digits (c ∷ cs) = if is_digit c then after_digits cs else c ∷ cs

abbrev pub after_sign : List ℕ → List ℕ
after_sign [] = []
after_sign (c ∷ cs) = if (c == b'-') || (c == b'+') then after_digits cs else after_digits (c ∷ cs)

-- A number that does not fit `int`, or none, leaves the variable without a value to rely on.
abbrev pub with_second : ℕ → Bool × ℕ → Option (Bool × ℕ) → Option (Bool × ℕ)
with_second op a none = none
with_second op a (some b) = if in_int b.0 b.1 then operate op a b else none

abbrev pub with_first : Option (Bool × ℕ) → List ℕ → Option (Bool × ℕ)
with_first none rest = none
with_first (some a) [] = none
with_first (some a) (op ∷ rest) =
    if is_operator op
    then (if in_int a.0 a.1 then with_second op a (strtol rest) else none)
    else some (false, 0)

-- `none` where the source has no result that the standard defines.
unfoldable pub eval_expr : List ℕ → Option (Bool × ℕ)
unfolding after_digits strtol
eval_expr expr = with_first (strtol expr) (skip_spaces (after_sign (skip_spaces expr)))

-- `%d`.
abbrev pub int_text : Bool × ℕ → List ℕ
int_text (negative, n) = if negative && not (n == 0) then b'-' ∷ decimal n else decimal n

-- What the client does at a reply to GET_TASK: it exits with a failure, ends its loop, sends a result,
-- asks again, or is undefined.
pub data Work : Type 0 where
  fails : Work
  ends : Work
  sends : List (List ℕ) → Work
  asks : Work
  undefined : Work

unfoldable pub send_result : Option (Bool × ℕ) → Work
unfolding send_message
send_result none = undefined
send_result (some v) = sends (send_message (take 1023 (codes "RESULT " ++ int_text v ++ 10 ∷ [])))

abbrev pub work_line : List ℕ → Work
work_line line =
    if strncmp_eq line (codes "No tasks available")
    then ends
    else if strncmp_eq line (codes "Task: ")
    then send_result (eval_expr (drop 6 line))
    else asks

-- Where the server has closed the connection, `recv` returns nothing.
unfoldable pub work : List ℕ → Work
unfolding eval_expr send_result
work [] = fails
work (c ∷ cs) = work_line (cut_line (c ∷ cs))

-- The reply to the result: whether the client asks for another task.
abbrev pub accepted : List ℕ → Bool
accepted received = strcmp_eq (cut_line received) (codes "Result received")

-- What is sent in one round arrives in one `recv`; nothing sent is nothing received.
abbrev pub arrived : List (List ℕ) → List ℕ
arrived [] = []
arrived (b ∷ bs) = b

-- One round of the client's loop with the process that serves it: the result sent, which is empty
-- where there is none, whether the client goes on to ask, the queue, and how the server goes on; or
-- the client exits, or is undefined.
pub data Turn : Type 0 where
  turn : (sent : List ℕ) → (asks_again : Bool) → TaskQueue → Next → Turn
  failed : TaskQueue → Next → Turn
  crashed : Turn

abbrev pub answered : List ℕ → Round → Turn
answered sent r = turn sent (accepted (arrived r.sent)) r.queue r.next

-- The second `recv` is not checked: without a reply the buffer is empty, which is an unexpected one.
abbrev pub hand_in : (ℕ → Bool) → ℕ → Work → TaskQueue → Next → Turn
hand_in lost pid fails q n = failed q n
hand_in lost pid ends q n = turn [] false q n
hand_in lost pid asks q n = turn [] true q n
hand_in lost pid undefined q n = crashed
hand_in lost pid (sends ms) q (running c) =
    answered (arrived ms) (handle_client lost pid (bytes (arrived ms)) c q)
hand_in lost pid (sends ms) q (exits code) = turn (arrived ms) false q (exits code)

unfoldable pub one_task : (ℕ → Bool) → ℕ → Client → TaskQueue → Turn
unfolding handle_client work
one_task lost pid c q =
    let asked = handle_client lost pid (bytes (arrived (send_message (codes "GET_TASK")))) c q in
    hand_in lost pid (work (arrived asked.sent)) asked.queue asked.next
