-- ===== src/Tcp/Destructor.antt =====
-- The loop of `~TcpScanner` on the sockets that are still open.
use netscan.Base.{
  Bool-cases, List, [], ap, arith, count_if, eqb_ℤ_iff, false, get_elem?, inl, inr, is_neg, refl,
  some, suc, to_ℕ, true, ℕ, ℤ, ◌<◌, ◌∷◌, ◌≡◌,
}
use netscan.Ping.Socket.{close_fd}
use netscan.Tcp.State.{ProbeInfo, Setup, Scan}
use netscan.Tcp.Reap.{close_all}
use netscan.Tcp.Invariant.{ScanInv, holds, count_fd}
use netscan.Tcp.Table.{count_fd-close_fd, holds_active, holds_idle}
use netscan.Tcp.Run.Closed.{none_open}

owner_open :
    (p : ProbeInfo) (ps : List ProbeInfo) (opened : List ℤ)
    → ((fd : ℤ) → count_fd fd opened ≡ count_if (holds fd) (p ∷ ps))
    → p.active ≡ true
    → 0 < count_fd p.sock opened
owner_open p ps opened owned a =
    omega (arith, owned p.sock, holds_active p.sock p a, ap to_ℕ ((eqb_ℤ_iff p.sock p.sock).1 refl))

close_all_owned :
    (ps : List ProbeInfo) (opened : List ℤ)
    → ((fd : ℤ) → count_fd fd opened ≡ count_if (holds fd) ps)
    → ((j : ℕ) (p : ProbeInfo) → get_elem? ps j ≡ some p → p.active ≡ true → is_neg p.sock ≡ false)
    → close_all ps opened ≡ []
unfolding close_all
close_all_owned [] opened owned valid = none_open opened owned
close_all_owned (p ∷ ps) opened owned valid = elim (Bool-cases p.active) [
  | inr i ↦
      rw (i, close_all)
        (close_all_owned ps opened (λ fd. omega (arith, owned fd, holds_idle fd p i))
          (λ j. valid (suc j)))
  | inl a ↦
      rw (a, valid 0 p refl a, close_all)
        (close_all_owned ps (close_fd p.sock opened)
          (λ fd. omega (
            arith,
            owned fd,
            holds_active fd p a,
            count_fd-close_fd fd p.sock opened (owner_open p ps opened owned a),
          ))
          (λ j. valid (suc j)))
]

-- Between any two steps of a scan that keeps the invariant, the destructor leaves no socket open.
pub destructor_closes : (c : Setup) (s : Scan) → ScanInv c s → close_all s.probe_table s.opened ≡ []
destructor_closes c s v =
    close_all_owned s.probe_table s.opened v.table.owned (λ j p e a. (v.table.probes j p e a).0)
