-- ===== src/Tcp/Spec.antt =====
-- What a TCP scan does, without slots, sockets or the kernel: hosts are handed out in order, each is
-- passed over or probed, and a probe ends with its host open or not.
use netscan.Base.{
  ==_iff, Bool-cases, List, [], ap, arith, count_if, false, inl, inr, ltb, ltb-false→le, ltb→lt,
  subst, to_ℕ, true, ℕ, ◌++◌, ◌+◌, ◌<◌, ◌==◌, ◌∷◌, ◌≡◌, ◌≤◌,
}
use netscan.Tcp.State.{Setup}
use netscan.Tcp.Connect.{is_reserved}

-- `live ip` counts the probes of `ip` in flight. `found` lists the open hosts, the first first.
pub record Progress : Type 0 where
  pub next : ℕ
  pub live : ℕ → ℕ
  pub found : List ℕ

abbrev pub count : ℕ → List ℕ → ℕ
count ip = count_if (λ x. x == ip)

-- `Open` is what has to be known of a host for it to count as open.
pub data Step (c : Setup) (Open : ℕ → Type 0) (a b : Progress) : Type 0 where
  pass :
      a.next < c.total_hosts
      → b.next ≡ a.next + 1
      → ((ip : ℕ) → b.live ip ≡ a.live ip)
      → b.found ≡ a.found
      → Step c Open a b
  launch :
      a.next < c.total_hosts
      → is_reserved c (c.base_ip + a.next) ≡ false
      → b.next ≡ a.next + 1
      → ((ip : ℕ) → b.live ip ≡ a.live ip + to_ℕ (c.base_ip + a.next == ip))
      → b.found ≡ a.found
      → Step c Open a b
  answer :
      (host : ℕ)
      → Open host
      → 0 < a.live host
      → b.next ≡ a.next
      → ((ip : ℕ) → b.live ip + to_ℕ (host == ip) ≡ a.live ip)
      → b.found ≡ a.found ++ (host ∷ [])
      → Step c Open a b
  lose :
      (host : ℕ)
      → 0 < a.live host
      → b.next ≡ a.next
      → ((ip : ℕ) → b.live ip + to_ℕ (host == ip) ≡ a.live ip)
      → b.found ≡ a.found
      → Step c Open a b

abbrev pub initial : Progress
initial = record { next = 0; live = λ ip. 0; found = [] }

-- Some steps lead from `origin` to a progress.
pub data Reach (c : Setup) (Open : ℕ → Type 0) (origin : Progress) : Progress → Type 0 where
  here : Reach c Open origin origin
  after : {a b : Progress} → Reach c Open origin a → Step c Open a b → Reach c Open origin b

-- Every host is probed at most once, and only after its turn has come.
pub record Once (c : Setup) (a : Progress) : Type 0 where
  pub position : a.next ≤ c.total_hosts
  pub once : (ip : ℕ) → a.live ip + count ip a.found ≤ 1
  pub due :
      (ip : ℕ)
      → 0 < a.live ip + count ip a.found
      → (c.base_ip ≤ ip) × (ip < c.base_ip + a.next) × (is_reserved c ip ≡ false)

count-append :
    (ip : ℕ) (xs : List ℕ) (x : ℕ) → count ip (xs ++ (x ∷ [])) ≡ count ip xs + to_ℕ (x == ip)
count-append ip [] x = omega arith
count-append ip (y ∷ ys) x = omega (arith, count-append ip ys x)

-- The host whose turn it is was not probed before.
fresh :
    (c : Setup) (a : Progress) (ip : ℕ)
    → Once c a
    → (c.base_ip + a.next == ip) ≡ true
    → a.live ip + count ip a.found ≡ 0
fresh c a ip v e = elim (Bool-cases (ltb 0 (a.live ip + count ip a.found))) [
  | inl old ↦
      absurd (omega (arith, (v.due ip (ltb→lt _ _ old)).1, (==_iff (c.base_ip + a.next) ip).0 e))
  | inr none_yet ↦ omega (arith, ltb-false→le _ _ none_yet)
]

Step-Once : (c : Setup) (Open : ℕ → Type 0) {a b : Progress} → Step c Open a b → Once c a → Once c b
Step-Once c Open {a} {b} (pass lt n l f) v = record {
  position = omega (arith, n);
  once = λ ip. omega (arith, l ip, ap (count ip) f, v.once ip);
  due = λ ip h.
      let (lo, hi, open_host) = v.due ip (omega (arith, h, l ip, ap (count ip) f)) in
      (lo, omega (arith, hi, n), open_host);
}
Step-Once c Open {a} {b} (launch lt r n l f) v = record {
  position = omega (arith, n);
  once = λ ip. elim (Bool-cases (c.base_ip + a.next == ip)) [
    | inl e ↦ omega (arith, l ip, ap to_ℕ e, ap (count ip) f, fresh c a ip v e)
    | inr e ↦ omega (arith, l ip, ap to_ℕ e, ap (count ip) f, v.once ip)
  ];
  due = λ ip h. elim (Bool-cases (c.base_ip + a.next == ip)) [
    | inl e ↦
        let same = (==_iff (c.base_ip + a.next) ip).0 e in
        (
          omega (arith, same),
          omega (arith, same, n),
          subst (λ (x : ℕ). is_reserved c x ≡ false) same r,
        )
    | inr e ↦
        let (lo, hi, open_host) = v.due ip (omega (arith, h, l ip, ap to_ℕ e, ap (count ip) f)) in
        (lo, omega (arith, hi, n), open_host)
  ];
}
Step-Once c Open {a} {b} (answer host is_open some_live n l f) v = record {
  position = omega (arith, n, v.position);
  once = λ ip. omega (arith, l ip, ap (count ip) f, count-append ip a.found host, v.once ip);
  due = λ ip h.
      let (lo, hi, open_host) =
        v.due ip (omega (arith, h, l ip, ap (count ip) f, count-append ip a.found host)) in
      (lo, omega (arith, hi, n), open_host);
}
Step-Once c Open {a} {b} (lose host some_live n l f) v = record {
  position = omega (arith, n, v.position);
  once = λ ip. omega (arith, l ip, ap (count ip) f, v.once ip);
  due = λ ip h.
      let (lo, hi, open_host) = v.due ip (omega (arith, h, l ip, ap (count ip) f)) in
      (lo, omega (arith, hi, n), open_host);
}

pub initial-Once : (c : Setup) → Once c initial
initial-Once c = record {
  position = omega arith;
  once = λ ip. omega arith;
  due = λ ip h. absurd (omega (arith, h));
}

-- In whatever order probes are launched, answered and lost: no address is probed or found twice, and
-- each one probed is a host of the range whose turn has come, and not reserved.
pub Reach-Once :
    (c : Setup) (Open : ℕ → Type 0) (origin : Progress) {a : Progress}
    → Once c origin
    → Reach c Open origin a
    → Once c a
Reach-Once c Open origin v here = v
Reach-Once c Open origin v (after r s) = Step-Once c Open s (Reach-Once c Open origin v r)
