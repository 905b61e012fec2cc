-- ===== src/Cldp/Heard.antt =====
-- Which servers "Assignment 7/cldp_client.c" queries: those that it has heard in the last 20 seconds.
use networks_lab_cs39006_spr.Prelude.{
  ℕ, zero, suc, ◌+◌, ◌%◌, ◌^◌, ◌≤◌, ◌≡◌, refl, sym, ap, ◌∙◌, Bool, true, false, List, [], ◌∷◌, ◌⊎◌,
  inl, inr, ltb, ltb→lt, ◌==◌, ==_iff, if_true, if_false, if_split, if_elim, Bool-cases, All,
  length, arith, subst, take,
}
use networks_lab_cs39006_spr.Cldp.Server.{hello_packet}
use networks_lab_cs39006_spr.Cldp.Client.{
  ServerNode, refresh, add_server, hear, time_out, server_timeout, Query, query_round, send_queries,
}
use networks_lab_cs39006_spr.Cldp.System.{Client, Event, hears, checks, asks, step, run}
use networks_lab_cs39006_spr.Cldp.Servers.{hear_elim, add_elim}
use networks_lab_cs39006_spr.Cldp.Wire.{with_check}

-- The list has a server with the address that was heard at `t` or later.
abbrev pub Known : (src t : ℕ) → List ServerNode → Type 0
Known src t [] = ⊥
Known src t (s ∷ rest) = ((s.address ≡ src) × (t ≤ s.last_hello)) ⊎ Known src t rest

-- Some packet goes to the address.
abbrev pub Asked : ℕ → List Query → Type 0
Asked src [] = ⊥
Asked src (q ∷ queries) = (q.dest ≡ src) ⊎ Asked src queries

-- Nothing in the event ends what is known of a server heard at `t`: the times lie from `t` to 20
-- seconds later.
abbrev pub Within : ℕ → Event → Type 0
Within t (hears allocated src now buffer) = t ≤ now
Within t (checks now) = now ≤ t + server_timeout
Within t (asks copies local_ip rands) = Unit

refresh-Known :
    (src now a t : ℕ) (servers : List ServerNode)
    → t ≤ now
    → Known a t servers
    → Known a t (refresh src now servers).0
unfolding refresh
refresh-Known src now a t [] h k = k
refresh-Known src now a t (s ∷ rest) h (inl (e, l)) =
    if_elim (λ (r : List ServerNode × Bool). Known a t r.0) (s.address == src) _ _ (inl (e, h))
      (inl (e, l))
refresh-Known src now a t (s ∷ rest) h (inr k) =
    if_elim (λ (r : List ServerNode × Bool). Known a t r.0) (s.address == src) _ _ (inr k)
      (inr (refresh-Known src now a t rest h k))

-- Where the search succeeds, the server is heard now.
refresh-true :
    (src now : ℕ) (servers : List ServerNode)
    → (refresh src now servers).1 ≡ true
    → Known src now (refresh src now servers).0
unfolding refresh
refresh-true src now [] e = cc
refresh-true src now (s ∷ rest) e = elim (Bool-cases (s.address == src)) [
  | inl h ↦
      subst (λ (r : List ServerNode × Bool). Known src now r.0)
        (sym (if_true (s.address == src) _ _ h)) (inl ((==_iff s.address src).0 h, omega arith))
  | inr h ↦
      subst (λ (r : List ServerNode × Bool). Known src now r.0)
        (sym (if_false (s.address == src) _ _ h))
        (inr (
          refresh-true src now rest (
            sym (ap (λ (r : List ServerNode × Bool). r.1) (if_false (s.address == src) _ _ h))
            ∙ e)))
]

hear-Known :
    (allocated : Bool) (src now : ℕ) (buffer : List ℕ) (a t : ℕ) (servers : List ServerNode)
    → t ≤ now
    → Known a t servers
    → Known a t (hear allocated src now buffer servers)
hear-Known allocated src now buffer a t servers h k =
    hear_elim (Known a t) allocated src now buffer servers k (
      add_elim (Known a t) allocated src now (refresh src now servers)
        (refresh-Known src now a t servers h k) (λ e. inr (refresh-Known src now a t servers h k)))

added-Known :
    (src now : ℕ) (r : List ServerNode × Bool)
    → (r.1 ≡ true → Known src now r.0)
    → Known src now (add_server true src now r)
unfolding add_server
added-Known src now (servers, true) h = h refl
added-Known src now (servers, false) h = inl (refl, omega arith)

-- What the server's HELLO thread sends puts it into the list.
pub hello-Known :
    (src now rand local_ip : ℕ) (servers : List ServerNode)
    → Known src now (hear true src now (hello_packet rand local_ip) servers)
unfolding hear hello_packet with_check
hello-Known src now rand local_ip servers =
    added-Known src now (refresh src now servers) (refresh-true src now servers)

time_out-Known :
    (now a t : ℕ) (servers : List ServerNode)
    → now ≤ t + server_timeout
    → Known a t servers
    → Known a t (time_out now servers)
unfolding time_out
time_out-Known now a t [] h k = k
time_out-Known now a t (s ∷ rest) h (inl (e, l)) =
    if_split (Known a t) (ltb (s.last_hello + server_timeout) now) _ _
      (λ late. absurd (omega (arith, ltb→lt (s.last_hello + server_timeout) now late)))
      (λ f. inl (e, l))
time_out-Known now a t (s ∷ rest) h (inr k) =
    if_elim (Known a t) (ltb (s.last_hello + server_timeout) now) _ _
      (time_out-Known now a t rest h k) (inr (time_out-Known now a t rest h k))

step-Known :
    (e : Event) (c : Client) (a t : ℕ)
    → Within t e
    → Known a t c.servers
    → Known a t (step e c).servers
unfolding step
step-Known (hears allocated src now buffer) c a t w k =
    hear-Known allocated src now buffer a t c.servers w k
step-Known (checks now) c a t w k = time_out-Known now a t c.servers w k
step-Known (asks copies local_ip rands) c a t w k = k

run-Known :
    (es : List Event) (c : Client) (a t : ℕ)
    → All (Within t) es
    → Known a t c.servers
    → Known a t (run es c).servers
unfolding run
run-Known [] c a t w k = k
run-Known (e ∷ es) c a t w k = run-Known es (step e c) a t w.1 (step-Known e c a t w.0 k)

send_queries-Asked :
    (tid local_ip : ℕ) (rands : ℕ → ℕ) (i n a t : ℕ) (servers : List ServerNode)
    → length servers ≤ n
    → Known a t servers
    → Asked a (send_queries tid local_ip rands i (take n servers))
unfolding send_queries
send_queries-Asked tid local_ip rands i n a t [] h k = elim k [ ]
send_queries-Asked tid local_ip rands i zero a t (s ∷ rest) h k = absurd (omega arith)
send_queries-Asked tid local_ip rands i (suc n) a t (s ∷ rest) h (inl (e, l)) = inl e
send_queries-Asked tid local_ip rands i (suc n) a t (s ∷ rest) h (inr k) =
    inr (send_queries-Asked tid local_ip rands (suc i) n a t rest (omega arith) k)

query_round-Asked :
    (copies tid local_ip : ℕ) (rands : ℕ → ℕ) (a t : ℕ) (servers : List ServerNode)
    → length servers ≤ copies
    → Known a t servers
    → Asked a (query_round copies tid local_ip rands servers).1
unfolding query_round
query_round-Asked copies tid local_ip rands a t [] h k = elim k [ ]
query_round-Asked copies tid local_ip rands a t (s ∷ rest) h k =
    send_queries-Asked ((tid + 1) % 2 ^ 16) local_ip rands 0 copies a t (s ∷ rest) h k

-- A server whose HELLO packet was taken in at time t is asked in every round of queries, for which
-- the whole list is copied, after events whose packets come at t or later and whose checks come at
-- most 20 seconds after t.
pub heard-Asked :
    (c : Client) (src t rand server_ip : ℕ) (es : List Event) (copies local_ip : ℕ) (rands : ℕ → ℕ)
    → All (Within t) es
    → let c' = run es (step (hears true src t (hello_packet rand server_ip)) c) in
      length c'.servers ≤ copies → Asked src (query_round copies c'.tid local_ip rands c'.servers).1
unfolding step
heard-Asked c src t rand server_ip es copies local_ip rands w enough =
    let c' = run es (step (hears true src t (hello_packet rand server_ip)) c) in
    query_round-Asked copies c'.tid local_ip rands src t c'.servers enough (
      run-Known es (step (hears true src t (hello_packet rand server_ip)) c) src t w
        (hello-Known src t rand server_ip c.servers))
