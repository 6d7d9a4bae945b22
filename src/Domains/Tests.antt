-- ===== src/Domains/Tests.antt =====
-- The theorems on the domain page at a concrete domain.
use Prim.Native.Nat.{ℕ, ◌≤◌}
use mathlib.Core.Path.{◌≡◌, refl}
use mathlib.Core.Bool.{true, false, Bool}
use mathlib.Core.Option.{none, some}
use mathlib.Core.List.{List, [], ◌∷◌}
use native.Mathlib.Omega.{arith}
use frpc_multi.Base.Tests.{◌==◌, if◌then◌else◌}
use frpc_multi.Base.Lists.{length}
use frpc_multi.Base.Text.{Text, codes, ◌===◌}
use frpc_multi.Base.Assoc.{distinct, text_eq, nat_eq, get, contains, distinct_from}
use frpc_multi.Domains.{scheduled, LbDomain, LbHealth, LbHealthState, LbHealthDomain, domain_row}
use frpc_multi.Domains.Laws.{domain_row-exact, Counts}

abbrev domain : LbDomain
domain = record {
  id = 1;
  name = codes "a.example.com";
  zone_id = codes "z";
  zone_name = codes "example.com";
  group = [];
  group_id = none;
  ttl = 60;
  sync_mode = scheduled;
  interval_seconds = 300;
  last_sync_message = [];
  created_at = [];
  preferred_server_id = none;
  enabled = true;
  last_sync_at = some (codes "now");
  last_sync_ok = some true;
  current_ip = some (codes "1.1.1.1");
  pool_size = 3;
}

abbrev checked : Text → Bool → LbHealthState
checked ip ok = record {
  ip = ip;
  ok = some ok;
  consecutive_fail = 0;
  last_check = none;
  last_ok = none;
  detail = [];
  port = 443;
}

abbrev states : List (Text × LbHealthState)
states =
    (codes "1.1.1.1", checked (codes "1.1.1.1") true)
    ∷ (codes "2.2.2.2", checked (codes "2.2.2.2") false)
    ∷ []

abbrev snapshot : LbHealthDomain
snapshot = record {
  domain_id = 1;
  name = codes "a.example.com";
  group = [];
  current_ip = none;
  best_ip = none;
  pool_ips = codes "1.1.1.1" ∷ codes "2.2.2.2" ∷ codes "1.1.1.1" ∷ [];
}

abbrev snapshots : List (ℕ × LbHealthDomain)
snapshots = (1, snapshot) ∷ []

found : get 1 snapshots ≡ some snapshot
unfolding get
found = refl

small_pool : length (distinct snapshot.pool_ips) ≤ 3
unfolding distinct_from contains ◌===◌
small_pool = omega arith

domain_row-exact_example :
    let row = domain_row states snapshots domain in
    ((passed : List Text) × Counts true states snapshot.pool_ips passed
      × (row.healthy_count ≡ length passed))
    × ((failed : List Text) × Counts false states snapshot.pool_ips failed
        × (row.unhealthy_count ≡ length failed))
domain_row-exact_example = domain_row-exact states snapshots domain snapshot refl found small_pool

abbrev health : LbHealth
health = record { states = checked (codes "1.1.1.1") true ∷ []; domains = snapshot ∷ [] }

abbrev upper_a : Text → Text
upper_a [] = []
upper_a (c ∷ s) = (if c == b'A' then b'a' else c) ∷ upper_a s
