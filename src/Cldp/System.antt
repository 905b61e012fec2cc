-- ===== src/Cldp/System.antt =====
-- The three threads of "Assignment 7/cldp_client.c" over the shared list of servers. Each holds the
-- list's lock while it works on the list, so their rounds follow one another.
use networks_lab_cs39006_spr.Prelude.{ℕ, Bool, List, [], ◌∷◌}
use networks_lab_cs39006_spr.Cldp.Client.{ServerNode, hear, time_out, query_round}

-- `server_list`, and the transaction id of `query_thread_handler`.
pub record Client : Type 0 where
  pub servers : List ServerNode
  pub tid : ℕ

abbrev pub start : Client
start = record { servers = []; tid = 0 }

-- A packet received by the HELLO thread, a check for timeouts, or a round of queries.
pub data Event : Type 0 where
  hears : (allocated : Bool) (src now : ℕ) (buffer : List ℕ) → Event
  checks : (now : ℕ) → Event
  asks : (copies local_ip : ℕ) (rands : ℕ → ℕ) → Event

unfoldable pub step : Event → Client → Client
unfolding hear time_out query_round
step (hears allocated src now buffer) c = record {
  servers = hear allocated src now buffer c.servers;
  tid = c.tid;
}
step (checks now) c = record { servers = time_out now c.servers; tid = c.tid }
step (asks copies local_ip rands) c = record {
  servers = c.servers;
  tid = (query_round copies c.tid local_ip rands c.servers).0;
}

unfoldable pub run : List Event → Client → Client
unfolding step
run [] c = c
run (e ∷ es) c = run es (step e c)
