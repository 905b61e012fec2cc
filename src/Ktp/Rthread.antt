-- ===== src/Ktp/Rthread.antt =====
-- A round of `RThread` in "Assignment 4 Final/initksocket.c" over all sockets: the loops of
-- `handle_socket_data` and `check_and_send_window_updates`.
use networks_lab_cs39006_spr.Prelude.{
  ℕ, suc, ◌+◌, Bool, true, false, ◌&&◌, List, [], ◌∷◌, ◌++◌, Option, none, some, ltb, leb,
  if◌then◌else◌,
}
use networks_lab_cs39006_spr.Ktp.Types.{ℤ, KtpSocket, SmData, Action, retransmit_after}
use networks_lab_cs39006_spr.Ktp.Window.{wndwsize}
use networks_lab_cs39006_spr.Ktp.Receiver.{
  Outcome, running, exited, hung, send_ack, Received, handle_ready,
}

-- The window update of a socket that had told its peer that it has no space; the flag says
-- whether the time of the update is recorded.
unfoldable pub window_update : KtpSocket → Bool × List Action
unfolding send_ack
window_update s =
    if s.in_use && s.nospace && ltb 0 (wndwsize s.rwnd)
    then (true, send_ack s.sockfd s.dest 0 s.last_acked (wndwsize s.rwnd))
    else (false, [])

-- The same where `select` found sockets ready: only after `T` seconds since the last update.
unfoldable pub periodic_update : ℕ → ℕ → KtpSocket → Bool × List Action
unfolding window_update
periodic_update now last s =
    if leb (last + retransmit_after) now then window_update s else (false, [])

-- The loop of `check_and_send_window_updates`, and the loop before `handle_socket_data`, over the
-- sockets and their update times.
unfoldable pub update_all :
    (ℕ → KtpSocket → Bool × List Action) → ℕ → SmData → List ℕ → List ℕ × List Action
update_all update now [] times = (times, [])
update_all update now (s ∷ shm) [] = ([], [])
update_all update now (s ∷ shm) (t ∷ times) =
    let (sent, actions) = update t s in
    let (times', later) = update_all update now shm times in
    ((if sent then now else t) ∷ times', actions ++ later)

unfoldable pub check_and_send_window_updates : ℕ → SmData → List ℕ → List ℕ × List Action
unfolding update_all window_update
check_and_send_window_updates now shm times = update_all (λ t s. window_update s) now shm times

-- Which sockets `select` found ready, by index, with what `recvfrom` and `rand` then give.
abbrev pub Ready : Type 0
Ready = ℕ → Option (Received × ℕ)

-- The rest of the loop follows when one socket is done.
after_ready :
    Outcome (KtpSocket × List Action)
    → Outcome (SmData × List Action)
    → Outcome (SmData × List Action)
after_ready exited rest = exited
after_ready hung rest = hung
after_ready (running (s, actions)) exited = exited
after_ready (running (s, actions)) hung = hung
after_ready (running (s, actions)) (running (shm, later)) = running (s ∷ shm, actions ++ later)

handle_if_ready : Option (Received × ℕ) → KtpSocket → Outcome (KtpSocket × List Action)
unfolding handle_ready
handle_if_ready none s = running (s, [])
handle_if_ready (some (received, rand)) s = handle_ready received rand s

-- The loop over the sockets, from index `i` on.
unfoldable pub handle_socket_data : ℕ → Ready → SmData → Outcome (SmData × List Action)
unfolding after_ready handle_if_ready
handle_socket_data i ready [] = running ([], [])
handle_socket_data i ready (s ∷ shm) =
    after_ready (handle_if_ready (ready i) s) (handle_socket_data (suc i) ready shm)

-- The descriptors that `RThread` puts into its `fd_set`.
unfoldable pub monitored : SmData → List ℤ
monitored [] = []
monitored (s ∷ shm) = if s.in_use then s.sockfd ∷ monitored shm else monitored shm

pub data Selected : Type 0 where
  select_failed : Selected
  timed_out : Selected
  selected : Ready → Selected

-- One round of `RThread` after `select`. The times are its `update_timestamps`.
unfoldable pub rthread_round :
    Selected → ℕ → SmData → List ℕ → Outcome (SmData × List ℕ × List Action)
unfolding check_and_send_window_updates periodic_update handle_socket_data
rthread_round select_failed now shm times = exited
rthread_round timed_out now shm times =
    let (times', actions) = check_and_send_window_updates now shm times in
    running (shm, times', actions)
rthread_round (selected ready) now shm times =
    let (times', actions) = update_all (λ t s. periodic_update now t s) now shm times in
    elim (handle_socket_data 0 ready shm) [
      | exited ↦ exited
      | hung ↦ hung
      | running (shm', later) ↦ running (shm', times', actions ++ later)
    ]
