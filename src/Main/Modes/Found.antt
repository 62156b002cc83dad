-- ===== src/Main/Modes/Found.antt =====
-- The hosts that the program prints.
use mathlib.Core.List.{flat_map, append-nil}
use netscan.Base.{
  Bool, Bytes, List, [], ap, arith, inl, inr, length, map, refl, some, subst, sym, ℕ, ◌++◌, ◌+◌,
  ◌<◌, ◌==◌, ◌||◌, ◌∙◌, ◌∷◌, ◌≡◌, ◌≤◌, ◌⊎◌,
}
use netscan.Sys.{returns}
use netscan.Cidr.{CidrBlock, parse_cidr}
use netscan.Cidr.Parse.{IsAddress, parse_cidr-Parsed, Parsed-bounds, parse_cidr-IsSetup}
use netscan.Interface.{Interface}
use netscan.Ping.State as PingState
use netscan.Ping.Run as PingRun
use netscan.Ping.Slots.{is_host_found}
use netscan.Ping.Invariant as PingInvariant
use netscan.Ping.Invariant.{Distinct, AllInRange}
use netscan.Ping.Run.Results.{run_loop_ends}
use netscan.Tcp.State as TcpState
use netscan.Tcp.Run as TcpRun
use netscan.Tcp.Poll.{has_result}
use netscan.Tcp.Invariant as TcpInvariant
use netscan.Tcp.Run.Closed.{run_closed}
use netscan.Tcp.Refines.Runs.{run-Simulated}
use netscan.Main.Options.{Config}
use netscan.Main.Output.{
  Line, ping_banner, ping_host, ping_complete, tcp_banner, tcp_host, tcp_complete,
}
use netscan.Main.Output.Lines.{
  hosts_of, hosts, totals_of, totals, flat_map-silent, flat_map-said, print_arp_table-silent,
}
use netscan.Main.Modes.{World, Exit, line_if, ping_config, interface_for, main}
use netscan.Main.Modes.Ran.{
  Refused, bad_range, bad_interface, no_range, bad_mode, Ran, failed, printed, listed, pinged,
  connected, ping_setup, tcp_setup, ping_scan, main-Ran,
}

abbrev pub Within : CidrBlock → List ℕ → Type 0
Within r [] = Unit {0}
Within r (ip ∷ ips) = (r.base_ip ≤ ip) × (ip < r.base_ip + r.count) × Within r ips

-- Distinct hosts of the range, and a summary that counts them.
pub record Announced (w : World) (config : Config) (lines : List Line) : Type 0 where
  pub range : CidrBlock
  pub parsed : parse_cidr w.inet_pton (some config.cidr_arg) ≡ some range
  pub distinct : Distinct (hosts lines)
  pub within : Within range (hosts lines)
  pub summed : totals lines ≡ length (hosts lines) ∷ []

AllInRange-Within :
    (c : PingState.Setup) (r : CidrBlock) (ips : List ℕ)
    → c.base_ip ≡ r.base_ip
    → c.total_hosts ≡ r.count
    → AllInRange c ips
    → Within r ips
AllInRange-Within c r [] b n v = tt
AllInRange-Within c r (ip ∷ ips) b n (lo, hi, v) =
    (omega arith, omega arith, AllInRange-Within c r ips b n v)

abbrev tcp_ips : List TcpState.TcpHostResult → List ℕ
tcp_ips = map (λ r. r.ip)

tcp_ips-length : (rs : List TcpState.TcpHostResult) → length (tcp_ips rs) ≡ length rs
tcp_ips-length [] = refl
tcp_ips-length (r ∷ rs) = omega (arith, tcp_ips-length rs)

ping_ips-length : (rs : List PingState.PingHostResult) → length (PingInvariant.ips rs) ≡ length rs
ping_ips-length [] = refl
ping_ips-length (r ∷ rs) = omega (arith, ping_ips-length rs)

has_result-is_host_found :
    (rs : List TcpState.TcpHostResult) (ip : ℕ) → has_result rs ip ≡ is_host_found (tcp_ips rs) ip
unfolding has_result is_host_found
has_result-is_host_found [] ip = refl
has_result-is_host_found (r ∷ rs) ip =
    ap (λ (b : Bool). r.ip == ip || b) (has_result-is_host_found rs ip)

Found-Distinct :
    (c : TcpState.Setup) (rs : List TcpState.TcpHostResult)
    → TcpInvariant.Found c rs
    → Distinct (tcp_ips rs)
Found-Distinct c [] v = tt
Found-Distinct c (r ∷ rs) (new, target, v) =
    (sym (has_result-is_host_found rs r.ip) ∙ new, Found-Distinct c rs v)

Found-Within :
    (c : TcpState.Setup) (r : CidrBlock) (rs : List TcpState.TcpHostResult)
    → c.base_ip ≡ r.base_ip
    → c.total_hosts ≡ r.count
    → TcpInvariant.Found c rs
    → Within r (tcp_ips rs)
Found-Within c r [] b n v = tt
Found-Within c r (x ∷ xs) b n (new, target, v) =
    (omega (arith, target.from), omega (arith, target.below), Found-Within c r xs b n v)

module _ (w : World) (config : Config)
    (fills : (s b : Bytes) → w.inet_pton s ≡ some b → IsAddress b) where
  tcp_setup-IsSetup :
      (r : CidrBlock)
      → parse_cidr w.inet_pton (some config.cidr_arg) ≡ some r
      → TcpInvariant.IsSetup (tcp_setup w config r)
  unfolding TcpState.make_setup
  tcp_setup-IsSetup r p =
      let (range, size) =
        Parsed-bounds w.inet_pton config.cidr_arg r
          (parse_cidr-Parsed w.inet_pton fills config.cidr_arg p) in
      record { in_range = range; int_range = omega arith }

  announce :
      (r : CidrBlock) (lines : List Line) (ips : List ℕ)
      → parse_cidr w.inet_pton (some config.cidr_arg) ≡ some r
      → hosts lines ≡ ips
      → totals lines ≡ length ips ∷ []
      → Distinct ips
      → Within r ips
      → Announced w config lines
  announce r lines ips p e n d v = record {
    range = r;
    parsed = p;
    distinct = subst Distinct (sym e) d;
    within = subst (Within r) (sym e) v;
    summed = n ∙ ap (λ (xs : List ℕ). length xs ∷ []) (sym e);
  }

  pinged-Announced :
      (r : CidrBlock) (s : PingState.Scan)
      → parse_cidr w.inet_pton (some config.cidr_arg) ≡ some r
      → ping_scan w (ping_setup w config r) ≡ returns s
      → Announced w config (
          ping_banner r.count
          ∷ (map ping_host s.finds.reported ++ (ping_complete (PingRun.result_of s) ∷ [])))
  unfolding PingState.make_setup flat_map
  pinged-Announced r s p e =
      let c = ping_setup w config r in
      let u =
        parse_cidr-IsSetup w.inet_pton fills config.cidr_arg (ping_config config r)
          (interface_for w r) p in
      let b = PingState.initialize_buffers c in
      let (v, _) =
        run_loop_ends c w.host u w.ping_rounds (PingState.start c b)
          (PingInvariant.start-ScanInv c b) e in
      let f = v.finds in
      let same = ap PingInvariant.ips f.told ∙ f.cached in
      announce r _ s.finds.found_ips_cache p
        (flat_map-said ping_host hosts_of (λ x. x.ip) s.finds.reported
            (ping_complete (PingRun.result_of s) ∷ []) (λ a. refl)
          ∙ append-nil _
          ∙ same)
        (flat_map-silent ping_host totals_of s.finds.reported
            (ping_complete (PingRun.result_of s) ∷ []) (λ a. refl)
          ∙ ap (λ (n : ℕ). n ∷ [])
              (sym (ap length (sym f.cached) ∙ ping_ips-length s.finds.scan_results)))
        f.distinct (AllInRange-Within c r s.finds.found_ips_cache refl refl f.ranged)

  connected-Announced :
      (r : CidrBlock) (s : TcpState.Scan)
      → parse_cidr w.inet_pton (some config.cidr_arg) ≡ some r
      → TcpRun.run (tcp_setup w config r) w.host.inet_ntop w.tcp_rounds ≡ returns s
      → Announced w config (
          tcp_banner r.count config.port
          ∷ (map tcp_host s.reported ++ (tcp_complete config.port (length s.scan_results) ∷ [])))
  unfolding TcpState.make_setup flat_map
  connected-Announced r s p e =
      let c = tcp_setup w config r in
      let u = tcp_setup-IsSetup r p in
      let (_, _, _, found, _) = run_closed c w.host.inet_ntop u w.tcp_rounds e in
      let (_, _, same) = run-Simulated c w.host.inet_ntop u w.tcp_rounds e in
      let told = same.told in
      announce r _ (tcp_ips s.scan_results) p
        (flat_map-said tcp_host hosts_of (λ x. x.ip) s.reported
            (tcp_complete config.port (length s.scan_results) ∷ []) (λ a. refl)
          ∙ append-nil _
          ∙ ap tcp_ips told)
        (flat_map-silent tcp_host totals_of s.reported
            (tcp_complete config.port (length s.scan_results) ∷ []) (λ a. refl)
          ∙ ap (λ (n : ℕ). n ∷ []) (sym (tcp_ips-length s.scan_results)))
        (Found-Distinct c s.scan_results found) (Found-Within c r s.scan_results refl refl found)

  Refused-silent : (line : Line) → Refused w config line → hosts (line ∷ []) ≡ []
  unfolding flat_map
  Refused-silent _ (bad_range e p) = refl
  Refused-silent _ (bad_interface i e) = refl
  Refused-silent _ (no_range e) = refl
  Refused-silent _ (bad_mode p t a) = refl

  printed-silent :
      (i : Interface)
      → hosts (
          line_if config.print_local_ip i.ip
          ++ (line_if config.print_broadcast_ip i.broadcast
              ++ line_if config.print_network_ip i.network))
        ≡ []
  unfolding flat_map
  printed-silent i = ground arith

  Ran-Announced : {x : Exit} → Ran w config x → (hosts x.lines ≡ []) ⊎ Announced w config x.lines
  unfolding flat_map
  Ran-Announced (failed line r) = inl (Refused-silent line r)
  Ran-Announced (printed i) = inl (printed-silent i)
  Ran-Announced (listed s e) = inl (
      print_arp_table-silent w.host.inet_ntop w.getnameinfo config.resolve_dns hosts_of s.entries
        refl refl (λ ip mac_address iface hostname. refl) (λ n. refl))
  Ran-Announced (pinged r s p e) = inr (pinged-Announced r s p e)
  Ran-Announced (connected r s p e) = inr (connected-Announced r s p e)

  -- For an `inet_pton` that yields four bytes, and whatever the system and the network answer: a run
  -- that returns has printed no host, or distinct hosts of the range that `parse_cidr` reads from the
  -- argument, and a summary with their number.
  pub main-Announced :
      {x : Exit} → main w config ≡ returns x → (hosts x.lines ≡ []) ⊎ Announced w config x.lines
  main-Announced h = Ran-Announced (main-Ran w config h)
