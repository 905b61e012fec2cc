-- ===== src/TaskQueue/Client.antt =====
-- The process that serves one client in "Assignment 5/server.c": `handle_client`.
use networks_lab_cs39006_spr.Prelude.{
  ℕ, suc, Bool, List, [], ◌∷◌, ◌++◌, Option, none, some, leb, if◌then◌else◌, get_or, codes,
  strcmp_eq, strncmp_eq, cut_line, take,
}
use networks_lab_cs39006_spr.TaskQueue.Queue.{TaskQueue, completed, put, owner, get_next_task}

abbrev pub timeout_attempts : ℕ
timeout_attempts = 5

abbrev pub buffer_size : ℕ
buffer_size = 1024

-- What `recv` on the non-blocking socket returns: bytes, the end of the stream, no data yet
-- (EAGAIN or EWOULDBLOCK), or another error.
pub data Received : Type 0 where
  bytes : List ℕ → Received
  closed : Received
  again : Received
  failed : Received

-- `client_task`, where `none` is -1, and `cnt`.
pub record Client : Type 0 where
  pub client_task : Option ℕ
  pub cnt : ℕ

abbrev pub new_client : Client
new_client = record { client_task = none; cnt = 0 }

-- Whether the loop goes on, and with what; or the code that the process exits with.
pub data Next : Type 0 where
  running : Client → Next
  exits : ℕ → Next

-- What a round does: the queue, what is sent, and how the process goes on.
pub record Round : Type 0 where
  pub queue : TaskQueue
  pub sent : List (List ℕ)
  pub next : Next

-- `snprintf` into `temp` keeps all but the last byte of the size for the text.
unfoldable pub send_message : List ℕ → List (List ℕ)
send_message message = take 1023 (message ++ 10 ∷ []) ∷ []

abbrev pub held : Option ℕ → Client
held task = record { client_task = task; cnt = 0 }

unfoldable pub reply_task : TaskQueue × Option ℕ → Round
unfolding send_message
reply_task (q, none) = record {
  queue = q;
  sent = send_message (codes "No tasks available");
  next = running (held none);
}
reply_task (q, some i) = record {
  queue = q;
  sent = send_message (take 1023 (codes "Task: " ++ get_or q.tasks i []));
  next = running (held (some i));
}

-- "GET_TASK".
unfoldable pub get_task : (ℕ → Bool) → ℕ → Option ℕ → TaskQueue → Round
unfolding send_message reply_task
get_task lost pid none q = reply_task (get_next_task lost pid q)
get_task lost pid (some i) q = record {
  queue = q;
  sent = send_message (codes "Complete your current task first");
  next = running (held (some i));
}

-- "RESULT ": `task_status[client_task] = 2` and `client_task = -1`.
unfoldable pub complete : Option ℕ → TaskQueue → TaskQueue
unfolding put
complete none q = q
complete (some i) q = put q i completed (owner q i)

unfoldable pub result : Option ℕ → TaskQueue → Round
unfolding send_message complete
result task q = record {
  queue = complete task q;
  sent = send_message (codes "Result received");
  next = running (held none);
}

-- The line of a client whose `cnt` has just been reset.
unfoldable pub handle_line : (ℕ → Bool) → ℕ → List ℕ → Option ℕ → TaskQueue → Round
unfolding get_task result send_message
handle_line lost pid line task q =
    if strcmp_eq line (codes "GET_TASK")
    then get_task lost pid task q
    else if strncmp_eq line (codes "RESULT ")
    then result task q
    else if strcmp_eq line (codes "exit")
    then record { queue = q; sent = []; next = exits 0 }
    else record {
      queue = q;
      sent = send_message (codes "Unknown command");
      next = running (held task);
    }

unfoldable pub count_timeout : Client → Next
count_timeout c =
    if leb timeout_attempts (suc c.cnt)
    then exits 1
    else running (record { client_task = c.client_task; cnt = suc c.cnt })

-- One round of the loop of `handle_client`. Where `recv` fills the buffer with neither an end of line
-- nor a NUL, the source reads on behind it, and the line of the model ends with the buffer.
unfoldable pub handle_client : (ℕ → Bool) → ℕ → Received → Client → TaskQueue → Round
unfolding handle_line count_timeout
handle_client lost pid (bytes b) c q = handle_line lost pid (cut_line b) c.client_task q
handle_client lost pid closed c q = record { queue = q; sent = []; next = exits 0 }
handle_client lost pid failed c q = record { queue = q; sent = []; next = exits 1 }
handle_client lost pid again c q = record { queue = q; sent = []; next = count_timeout c }

unfoldable pub resume : (Client → Next) → Next → Next
resume rest (running c) = rest c
resume rest (exits code) = exits code

-- `while (1)`, on what `recv` returns one after the other.
unfoldable pub serve : (ℕ → Bool) → ℕ → List Received → Client → TaskQueue → Next
unfolding handle_client resume
serve lost pid [] c q = running c
serve lost pid (r ∷ rs) c q =
    let round = handle_client lost pid r c q in
    resume (λ c'. serve lost pid rs c' round.queue) round.next
