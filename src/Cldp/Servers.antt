-- ===== src/Cldp/Servers.antt =====
-- Which servers "Assignment 7/cldp_client.c" knows and queries: those it has heard lately, each once.
use networks_lab_cs39006_spr.Prelude.{
  ℕ, ◌+◌, ◌≡◌, ◌≢◌, refl, sym, ap, ◌∙◌, Bool, true, false, List, [], ◌∷◌, inl, inr, not, ltb, ◌==◌,
  ==-false, if_true, if_false, if_elim, Bool-cases, All, length,
}
use networks_lab_cs39006_spr.Cldp.Wire.{cldp_protocol, cldp_size, hello_type}
use networks_lab_cs39006_spr.Cldp.Server.{protocol_of, header_len, header_at}
use networks_lab_cs39006_spr.Cldp.Client.{
  ServerNode, refresh, add_server, hear, time_out, server_timeout,
}
use networks_lab_cs39006_spr.Cldp.System.{Client, Event, hears, checks, asks, step, run}

-- No server has the address.
abbrev pub Absent : ℕ → List ServerNode → Type 0
Absent src servers = All (λ s. s.address ≢ src) servers

-- Each address stands in the list once.
abbrev pub Distinct : List ServerNode → Type 0
Distinct [] = Unit
Distinct (s ∷ rest) = Absent s.address rest × Distinct rest

-- A round of the HELLO thread leaves the list or works on it.
pub hear_elim :
    (P : List ServerNode → Type 0) (allocated : Bool) (src now : ℕ) (buffer : List ℕ)
    (servers : List ServerNode)
    → P servers
    → P (add_server allocated src now (refresh src now servers))
    → P (hear allocated src now buffer servers)
unfolding hear
hear_elim P allocated src now buffer servers p q =
    if_elim P (not (protocol_of buffer == cldp_protocol)) _ _ p (
      if_elim P (ltb (length buffer) (header_len buffer + cldp_size)) _ _ p
        (if_elim P ((header_at buffer (header_len buffer)).type == hello_type) _ _ q p))

pub add_elim :
    (P : List ServerNode → Type 0) (allocated : Bool) (src now : ℕ) (r : List ServerNode × Bool)
    → P r.0
    → (r.1 ≡ false → P (record { address = src; last_hello = now } ∷ r.0))
    → P (add_server allocated src now r)
unfolding add_server
add_elim P allocated src now (servers, true) p q = p
add_elim P allocated src now (servers, false) p q =
    if_elim P allocated (record { address = src; last_hello = now } ∷ servers) servers (q refl) p

-- The search changes no address.
refresh-Absent :
    (src now a : ℕ) (servers : List ServerNode)
    → Absent a servers
    → Absent a (refresh src now servers).0
unfolding refresh
refresh-Absent src now a [] v = tt
refresh-Absent src now a (s ∷ rest) v =
    if_elim (λ (r : List ServerNode × Bool). Absent a r.0) (s.address == src) _ _ (v.0, v.1)
      (v.0, refresh-Absent src now a rest v.1)

refresh-Distinct :
    (src now : ℕ) (servers : List ServerNode)
    → Distinct servers
    → Distinct (refresh src now servers).0
unfolding refresh
refresh-Distinct src now [] v = tt
refresh-Distinct src now (s ∷ rest) v =
    if_elim (λ (r : List ServerNode × Bool). Distinct r.0) (s.address == src) _ _ (v.0, v.1)
      (refresh-Absent src now s.address rest v.0, refresh-Distinct src now rest v.1)

-- Where the search fails, there was nothing to find; where it succeeds, the server is known.
pub refresh-false :
    (src now : ℕ) (servers : List ServerNode)
    → (refresh src now servers).1 ≡ false
    → Absent src servers
unfolding refresh
refresh-false src now [] e = tt
refresh-false src now (s ∷ rest) e = elim (Bool-cases (s.address == src)) [
  | inl h ↦
      (let found : true ≡ false =
          sym (ap (λ (r : List ServerNode × Bool). r.1) (if_true (s.address == src) _ _ h)) ∙ e in
        absurd cc)
  | inr h ↦ (
    ==-false s.address src h,
    refresh-false src now rest
        (sym (ap (λ (r : List ServerNode × Bool). r.1) (if_false (s.address == src) _ _ h)) ∙ e),
  )
]

hear-Distinct :
    (allocated : Bool) (src now : ℕ) (buffer : List ℕ) (servers : List ServerNode)
    → Distinct servers
    → Distinct (hear allocated src now buffer servers)
hear-Distinct allocated src now buffer servers v =
    hear_elim Distinct allocated src now buffer servers v (
      add_elim Distinct allocated src now (refresh src now servers)
        (refresh-Distinct src now servers v)
        (λ e. (
          refresh-Absent src now src servers (refresh-false src now servers e),
          refresh-Distinct src now servers v,
        )))

time_out-Absent :
    (now a : ℕ) (servers : List ServerNode) → Absent a servers → Absent a (time_out now servers)
unfolding time_out
time_out-Absent now a [] v = tt
time_out-Absent now a (s ∷ rest) v =
    if_elim (Absent a) (ltb (s.last_hello + server_timeout) now) _ _
      (time_out-Absent now a rest v.1) (v.0, time_out-Absent now a rest v.1)

time_out-Distinct :
    (now : ℕ) (servers : List ServerNode) → Distinct servers → Distinct (time_out now servers)
unfolding time_out
time_out-Distinct now [] v = tt
time_out-Distinct now (s ∷ rest) v =
    if_elim Distinct (ltb (s.last_hello + server_timeout) now) _ _ (time_out-Distinct now rest v.1)
      (time_out-Absent now s.address rest v.0, time_out-Distinct now rest v.1)

step-Distinct : (e : Event) (c : Client) → Distinct c.servers → Distinct (step e c).servers
unfolding step
step-Distinct (hears allocated src now buffer) c v =
    hear-Distinct allocated src now buffer c.servers v
step-Distinct (checks now) c v = time_out-Distinct now c.servers v
step-Distinct (asks copies local_ip rands) c v = v

-- From a list in which each address stands at most once, no sequence of packets, checks and
-- queries makes an address stand in it twice.
pub run-Distinct : (es : List Event) (c : Client) → Distinct c.servers → Distinct (run es c).servers
unfolding run
run-Distinct [] c v = v
run-Distinct (e ∷ es) c v = run-Distinct es (step e c) (step-Distinct e c v)
