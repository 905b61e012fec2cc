-- ===== src/TaskQueue/Idle.antt =====
-- How long "Assignment 5/server.c" waits for a silent client.
use networks_lab_cs39006_spr.Prelude.{
  ℕ, zero, suc, ◌+◌, ◌≤◌, ◌<◌, ◌≡◌, ap, ◌∙◌, Bool, leb, leb→le, Bool-cases, inl, inr, arith,
  replicate, Option, if_true, if_false,
}
use networks_lab_cs39006_spr.TaskQueue.Queue.{TaskQueue}
use networks_lab_cs39006_spr.TaskQueue.Client.{
  running, exits, again, count_timeout, handle_client, resume, serve, timeout_attempts,
}

-- A client that has been silent for k polls, k below five, is served on while k and the further
-- silent polls are below five together, and the process exits with code 1 once they are five.
pub serve-again :
    (lost : ℕ → Bool) (pid : ℕ) (task : Option ℕ) (k n : ℕ) (q : TaskQueue)
    → k < timeout_attempts
    → (k + n < timeout_attempts
        → serve lost pid (replicate n again) (record { client_task = task; cnt = k }) q
          ≡ running (record { client_task = task; cnt = k + n }))
      × (timeout_attempts ≤ k + n
          → serve lost pid (replicate n again) (record { client_task = task; cnt = k }) q ≡ exits 1)
unfolding serve handle_client resume count_timeout
serve-again lost pid task k zero q h = (
  λ lt.
      ap (λ m. running (record { client_task = task; cnt = m }))
        (let same : k ≡ k + 0 = omega arith in same),
  λ le. absurd (omega arith),
)
serve-again lost pid task k (suc n) q h = elim (Bool-cases (leb timeout_attempts (suc k))) [
  | inl e ↦ (
    λ lt. absurd (omega (arith, leb→le timeout_attempts (suc k) e)),
    λ le. ap (resume (λ c. serve lost pid (replicate n again) c q)) (if_true _ _ _ e),
  )
  | inr e ↦ (
    λ lt.
        ap (resume (λ c. serve lost pid (replicate n again) c q)) (if_false _ _ _ e)
        ∙ (serve-again lost pid task (suc k) n q (ground arith)).0 (omega arith)
        ∙ ap (λ m. running (record { client_task = task; cnt = m }))
            (let same : suc k + n ≡ k + suc n = omega arith in same),
    λ le.
        ap (resume (λ c. serve lost pid (replicate n again) c q)) (if_false _ _ _ e)
        ∙ (serve-again lost pid task (suc k) n q (ground arith)).1 (omega arith),
  )
]
