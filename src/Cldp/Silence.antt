-- ===== src/Cldp/Silence.antt =====
-- A server that "Assignment 7/cldp_client.c" has not heard for more than 20 seconds is forgotten.
use networks_lab_cs39006_spr.Prelude.{
  ℕ, zero, suc, ◌+◌, ◌%◌, ◌^◌, ◌≤◌, ◌<◌, ◌≡◌, ◌≢◌, sym, ◌∙◌, Bool, true, false, List, [], ◌∷◌, ltb,
  lt→ltb, ◌==◌, ==_iff, if_split, if_elim, All, arith, take,
}
use networks_lab_cs39006_spr.Cldp.Client.{
  ServerNode, refresh, time_out, server_timeout, Query, query_round, send_queries,
}
use networks_lab_cs39006_spr.Cldp.System.{Client, Event, hears, checks, asks, step, run}
use networks_lab_cs39006_spr.Cldp.Servers.{Absent, hear_elim, add_elim}

-- No server with the address was heard after `t`.
abbrev pub Silent : (src t : ℕ) → List ServerNode → Type 0
Silent src t servers = All (λ s. s.address ≡ src → s.last_hello ≤ t) servers

-- The event is no packet from the address.
abbrev pub NotFrom : ℕ → Event → Type 0
NotFrom a (hears allocated src now buffer) = src ≢ a
NotFrom a (checks now) = Unit
NotFrom a (asks copies local_ip rands) = Unit

refresh-Silent :
    (src now a t : ℕ) (servers : List ServerNode)
    → src ≢ a
    → Silent a t servers
    → Silent a t (refresh src now servers).0
unfolding refresh
refresh-Silent src now a t [] ne v = tt
refresh-Silent src now a t (s ∷ rest) ne v =
    if_split (λ (r : List ServerNode × Bool). Silent a t r.0) (s.address == src) _ _
      (λ h. (λ e. absurd (ne (sym ((==_iff s.address src).0 h) ∙ e)), v.1))
      (λ h. (v.0, refresh-Silent src now a t rest ne v.1))

time_out-Silent :
    (now a t : ℕ) (servers : List ServerNode)
    → Silent a t servers
    → Silent a t (time_out now servers)
unfolding time_out
time_out-Silent now a t [] v = tt
time_out-Silent now a t (s ∷ rest) v =
    if_elim (Silent a t) (ltb (s.last_hello + server_timeout) now) _ _
      (time_out-Silent now a t rest v.1) (v.0, time_out-Silent now a t rest v.1)

time_out_forgets :
    (now a t : ℕ) (servers : List ServerNode)
    → t + server_timeout < now
    → Silent a t servers
    → Absent a (time_out now servers)
unfolding time_out
time_out_forgets now a t [] h v = tt
time_out_forgets now a t (s ∷ rest) h v =
    if_split (Absent a) (ltb (s.last_hello + server_timeout) now) _ _
      (λ late. time_out_forgets now a t rest h v.1)
      (λ f. (λ e. not_late e f, time_out_forgets now a t rest h v.1))
  where
    not_late : s.address ≡ a → ltb (s.last_hello + server_timeout) now ≡ false → ⊥
    not_late e f =
        let old : s.last_hello ≤ t = v.0 e in
        let late : ltb (s.last_hello + server_timeout) now ≡ true =
          lt→ltb (s.last_hello + server_timeout) now (omega arith) in
        cc

step-Silent :
    (e : Event) (c : Client) (a t : ℕ)
    → NotFrom a e
    → Silent a t c.servers
    → Silent a t (step e c).servers
unfolding step
step-Silent (hears allocated src now buffer) c a t w v =
    hear_elim (Silent a t) allocated src now buffer c.servers v (
      add_elim (Silent a t) allocated src now (refresh src now c.servers)
        (refresh-Silent src now a t c.servers w v)
        (λ f. (λ e. absurd (w e), refresh-Silent src now a t c.servers w v)))
step-Silent (checks now) c a t w v = time_out-Silent now a t c.servers v
step-Silent (asks copies local_ip rands) c a t w v = v

run-Silent :
    (es : List Event) (c : Client) (a t : ℕ)
    → All (NotFrom a) es
    → Silent a t c.servers
    → Silent a t (run es c).servers
unfolding run
run-Silent [] c a t w v = v
run-Silent (e ∷ es) c a t w v = run-Silent es (step e c) a t w.1 (step-Silent e c a t w.0 v)

send_queries-Absent :
    (tid local_ip : ℕ) (rands : ℕ → ℕ) (i n a : ℕ) (servers : List ServerNode)
    → Absent a servers
    → All (λ q. Query.dest q ≢ a) (send_queries tid local_ip rands i (take n servers))
unfolding send_queries
send_queries-Absent tid local_ip rands i zero a servers v = tt
send_queries-Absent tid local_ip rands i (suc n) a [] v = tt
send_queries-Absent tid local_ip rands i (suc n) a (s ∷ rest) v =
    (v.0, send_queries-Absent tid local_ip rands (suc i) n a rest v.1)

query_round-Absent :
    (copies tid local_ip : ℕ) (rands : ℕ → ℕ) (a : ℕ) (servers : List ServerNode)
    → Absent a servers
    → All (λ q. Query.dest q ≢ a) (query_round copies tid local_ip rands servers).1
unfolding query_round
query_round-Absent copies tid local_ip rands a [] v = tt
query_round-Absent copies tid local_ip rands a (s ∷ rest) v =
    send_queries-Absent ((tid + 1) % 2 ^ 16) local_ip rands 0 copies a (s ∷ rest) v

-- A server not heard after t is in the list no more and is not asked once a check comes more than
-- 20 seconds after t, whatever else happens that is no packet from it.
pub Silent-Absent :
    (c : Client) (src t now : ℕ) (es : List Event) (copies local_ip : ℕ) (rands : ℕ → ℕ)
    → Silent src t c.servers
    → All (NotFrom src) es
    → t + server_timeout < now
    → let c' = step (checks now) (run es c) in
      Absent src c'.servers
      × All (λ q. Query.dest q ≢ src) (query_round copies c'.tid local_ip rands c'.servers).1
unfolding step
Silent-Absent c src t now es copies local_ip rands v w h =
    let absent = time_out_forgets now src t (run es c).servers h (run-Silent es c src t w v) in
    let c' = step (checks now) (run es c) in
    (absent, query_round-Absent copies c'.tid local_ip rands src c'.servers absent)
