-- ===== src/Domains/Laws.antt =====
-- The counts of a domain's row, and what the filters keep.
use mathlib.Core.Logic.{◌↔◌}
use frpc_multi.Base.Members.{
  filter-NoDup, distinct-NoDup, contains-distinct, contains-filter, NoDup,
}
use Prim.Native.Nat.{zero, suc, ℕ, ◌+◌, ◌≤◌}
use mathlib.Core.Path.{◌≡◌, refl, sym, ap, ◌∙◌}
use mathlib.Core.Logic.{inl, inr, ◌↔◌}
use frpc_multi.Base.Tests.{Option-cases}
use mathlib.Core.Bool.{Bool, true, false}
use mathlib.Core.Option.{Option, none, some}
use mathlib.Core.List.{List, [], ◌∷◌, map}
use native.Mathlib.Omega.{arith}
use frpc_multi.Base.Lists.{length, filter}
use frpc_multi.Base.Text.{Text, trim, trim_start, trim_end}
use frpc_multi.Base.Assoc.{text_eq, nat_eq, get, contains, distinct}
use frpc_multi.Domains.{
  LbDomain, LbHealth, LbHealthState, LbHealthDomain, DomainRow, domain_row, domain_rows, pool_of,
  ok_is, ok_of, same_result, filter_domain_rows, row_matches, read_domain_filters, choice, by_ip,
  by_domain,
}

-- In every row the healthy, unhealthy and unknown servers add up to the size of the domain's pool.
pub domain_row-counts :
    (states : List (Text × LbHealthState)) (snapshots : List (ℕ × LbHealthDomain)) (d : LbDomain)
    → let row = domain_row states snapshots d in
      row.healthy_count + row.unhealthy_count + row.unknown_count ≡ d.pool_size
unfolding domain_row
domain_row-counts states snapshots d = omega arith

ok_is-exclusive :
    (states : List (Text × LbHealthState)) (ip : Text)
    → ok_is true states ip ≡ true
    → ok_is false states ip ≡ false
unfolding ok_is
ok_is-exclusive states ip h = ground arith

counts_bound :
    (states : List (Text × LbHealthState)) (pool : List Text)
    → length (filter (ok_is true states) pool) + length (filter (ok_is false states) pool)
      ≤ length pool
counts_bound states [] = ground arith
counts_bound states (ip ∷ pool) =
    ground (arith, counts_bound states pool, ok_is-exclusive states ip)

-- The last check of an address had this result.
abbrev pub Checked : Bool → List (Text × LbHealthState) → Text → Type 0
Checked ok states ip = (x : LbHealthState) × (get ip states ≡ some x) × (x.ok ≡ some ok)

same_result-some : (value : Bool) → same_result value (some value) ≡ true
same_result-some value = ground arith

same_result-true : (value : Bool) (o : Option Bool) → same_result value o ≡ true → o ≡ some value
same_result-true value none h = ground arith
same_result-true value (some ok) h = ground arith

ok_is-Checked :
    (value : Bool) (states : List (Text × LbHealthState)) (ip : Text)
    → (ok_is value states ip ≡ true) ↔ Checked value states ip
unfolding ok_is
ok_is-Checked value states ip = (
  λ h. elim (Option-cases (get ip states)) [
    | inl e ↦ absurd (ground (arith, same_result-true value (ok_of (get ip states)) h, ap ok_of e))
    | inr (x, e) ↦ (x, e, sym (ap ok_of e) ∙ same_result-true value (ok_of (get ip states)) h)
  ],
  λ (x, e, f). ap (same_result value) (ap ok_of e ∙ f) ∙ same_result-some value,
)

-- Each address of `ips` whose last check had this result is in the list once, and no other one is.
pub record Counts (ok : Bool) (states : List (Text × LbHealthState)) (ips counted : List Text)
    : Type 0 where
  pub once : NoDup counted
  pub all_of :
      (ip : Text) → (contains ip counted ≡ true) ↔ ((contains ip ips ≡ true) × Checked ok states ip)

filter-Counts :
    (ok : Bool) (states : List (Text × LbHealthState)) (ips : List Text)
    → Counts ok states ips (filter (ok_is ok states) (distinct ips))
filter-Counts ok states ips = record {
  once = filter-NoDup (ok_is ok states) (distinct ips) (distinct-NoDup ips);
  all_of = λ ip.
      let kept = contains-filter (ok_is ok states) ip (distinct ips) in
      let same = contains-distinct ip ips in
      let (to, from) = ok_is-Checked ok states ip in
      (
        λ h. (ground (arith, kept, same), to (ground (arith, kept))),
        λ c. ground (arith, kept, same, from c.1),
      );
}

none_left : (xs : List Text) → length xs ≤ 0 → [] ≡ xs
none_left [] h = refl
none_left (x ∷ xs) h = absurd (omega arith)

pool_of-some :
    (n : ℕ) (snapshot : LbHealthDomain)
    → length (distinct snapshot.pool_ips) ≤ n
    → pool_of n (some snapshot) ≡ distinct snapshot.pool_ips
unfolding pool_of
pool_of-some (suc n) snapshot h = refl
pool_of-some zero snapshot h = none_left (distinct snapshot.pool_ips) h

-- If a domain is enabled and has a snapshot, whose distinct addresses are no more than the domain's pool,
-- then the counts of its row are exact: the addresses of the snapshot whose last check passed, each
-- counted once, and those whose last check failed, each counted once.
pub domain_row-exact :
    (states : List (Text × LbHealthState)) (snapshots : List (ℕ × LbHealthDomain)) (d : LbDomain)
    (snapshot : LbHealthDomain)
    → d.enabled ≡ true
    → get d.id snapshots ≡ some snapshot
    → length (distinct snapshot.pool_ips) ≤ d.pool_size
    → let row = domain_row states snapshots d in
      ((passed : List Text) × Counts true states snapshot.pool_ips passed
        × (row.healthy_count ≡ length passed))
      × ((failed : List Text) × Counts false states snapshot.pool_ips failed
          × (row.unhealthy_count ≡ length failed))
unfolding domain_row
domain_row-exact states snapshots d snapshot on found h =
    let ips = distinct snapshot.pool_ips in
    let bound = counts_bound states ips in
    rw (on, found, pool_of-some d.pool_size snapshot h)
      (
        (filter (ok_is true states) ips, filter-Counts true states snapshot.pool_ips, omega arith),
        (
          filter (ok_is false states) ips,
          filter-Counts false states snapshot.pool_ips,
          omega arith,
        ),
      )

filter_all : {A : Type 0} (p : A → Bool) → ((x : A) → p x ≡ true) → (xs : List A) → filter p xs ≡ xs
filter_all p h [] = refl
filter_all p h (x ∷ xs) = rw (h x) (ap (λ ys. x ∷ ys) (filter_all p h xs))

-- nothing is chosen, so every row matches
row_matches-none :
    (lower : Text → Text)
    → lower [] ≡ []
    → (row : DomainRow) → row_matches lower (lower (trim [])) (read_domain_filters []) row ≡ true
unfolding row_matches read_domain_filters choice get trim trim_start trim_end
row_matches-none lower e row = rw e refl

domains_kept :
    (states : List (Text × LbHealthState)) (snapshots : List (ℕ × LbHealthDomain))
    (domains : List LbDomain)
    → map (λ row. row.domain) (map (domain_row states snapshots) domains) ≡ domains
unfolding domain_row
domains_kept states snapshots [] = refl
domains_kept states snapshots (d ∷ ds) = ap (λ xs. d ∷ xs) (domains_kept states snapshots ds)

domain_rows-domain :
    (domains : List LbDomain) (health : Option LbHealth)
    → map (λ row. row.domain) (domain_rows domains health) ≡ domains
unfolding domain_rows
domain_rows-domain domains none = domains_kept [] [] domains
domain_rows-domain domains (some health) =
    domains_kept (by_ip health.states []) (by_domain health.domains []) domains

-- An address without parameters filters nothing out, if lower case leaves the empty text empty: every
-- domain has its row, in the order of the domains.
pub filter_domain_rows-domain_rows :
    (lower : Text → Text)
    → lower [] ≡ []
    → (domains : List LbDomain) (health : Option LbHealth)
    → map
        (λ row. row.domain)
        (filter_domain_rows lower (domain_rows domains health) (read_domain_filters []))
      ≡ domains
unfolding filter_domain_rows read_domain_filters get
filter_domain_rows-domain_rows lower e domains health =
    ap (map (λ row. row.domain)) (
      filter_all (row_matches lower (lower (trim [])) (read_domain_filters []))
        (row_matches-none lower e) (domain_rows domains health))
    ∙ domain_rows-domain domains health
