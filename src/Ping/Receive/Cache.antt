-- ===== src/Ping/Receive/Cache.antt =====
-- Recording a host: `record_find` on the list of results and on the cache.
use netscan.Base.{
  List, [], ap, arith, false, length-append, refl, ℕ, ◌++◌, ◌+◌, ◌<◌, ◌==◌, ◌||◌, ◌∙◌, ◌∷◌, ◌≡◌,
  ◌≤◌,
}
use mathlib.Core.List.{map-append}
use netscan.Ping.State.{Setup, Finds, PingHostResult}
use netscan.Ping.Slots.{is_host_found}
use netscan.Ping.Receive.{record_find}
use netscan.Ping.Invariant.{Distinct, AllInRange, FindsInv}

pub is_host_found-append :
    (xs : List ℕ) (x y : ℕ) → is_host_found (xs ++ (x ∷ [])) y ≡ (is_host_found xs y || x == y)
unfolding is_host_found
is_host_found-append [] x y = ground arith
is_host_found-append (z ∷ xs) x y = ground (arith, is_host_found-append xs x y)

Distinct-append :
    (xs : List ℕ) (x : ℕ) → Distinct xs → is_host_found xs x ≡ false → Distinct (xs ++ (x ∷ []))
unfolding is_host_found
Distinct-append [] x d f = (refl, tt)
Distinct-append (z ∷ xs) x d f = (
  rw (is_host_found-append xs x z) (ground (arith, d.0, f)),
  Distinct-append xs x d.1 (ground (arith, f)),
)

AllInRange-append :
    (c : Setup) (xs : List ℕ) (x : ℕ)
    → AllInRange c xs
    → c.base_ip ≤ x
    → x < c.base_ip + c.total_hosts
    → AllInRange c (xs ++ (x ∷ []))
AllInRange-append c [] x a lo hi = (lo, hi, tt)
AllInRange-append c (z ∷ xs) x a lo hi = (a.0, a.1, AllInRange-append c xs x a.2 lo hi)

pub record_find-FindsInv :
    (c : Setup) (f : Finds) (r : PingHostResult)
    → FindsInv c f
    → is_host_found f.found_ips_cache r.ip ≡ false
    → c.base_ip ≤ r.ip
    → r.ip < c.base_ip + c.total_hosts
    → FindsInv c (record_find c f r)
unfolding record_find
record_find-FindsInv c f r v new lo hi = record {
  ranged = AllInRange-append c f.found_ips_cache r.ip v.ranged lo hi;
  distinct = Distinct-append f.found_ips_cache r.ip v.distinct new;
  cached =
      map-append (λ (x : PingHostResult). x.ip) f.scan_results (r ∷ [])
      ∙ ap (λ (xs : List ℕ). xs ++ (r.ip ∷ [])) v.cached;
  counted = omega (arith, v.counted, length-append f.scan_results (r ∷ []));
  told = ground (arith, v.told);
}
