-- ===== src/Main/Modes/Ran.antt =====
-- The ways in which `main` returns.
use netscan.Base.{
  Bool-cases, Option, Option-cases, [], false, inl, inr, is_neg, length, map, none, refl, some,
  subst, sym, true, ◌++◌, ◌||◌, ◌∷◌, ◌≡◌,
}
use netscan.Sys.{Outcome, returns, returns_injective, throws-ne-returns, >>=-eq-returns}
use netscan.Text.{codes, eq_bytes}
use netscan.Cidr.{CidrBlock, parse_cidr}
use netscan.Interface.{Interface, fetch}
use netscan.Arp.{ArpState, get_arp_table}
use netscan.Ping.Socket.{initialize_socket}
use netscan.Ping.State as PingState
use netscan.Ping.Run as PingRun
use netscan.Tcp.State as TcpState
use netscan.Tcp.Run as TcpRun
use netscan.Main.Options.{Config}
use netscan.Main.Output.{
  Line, invalid_cidr, no_interface_found, no_target, unknown_mode, arp_banner, ping_banner,
  ping_host, ping_complete, tcp_banner, tcp_host, tcp_complete, print_arp_table,
}
use netscan.Main.Modes.{
  World, Exit, handle_arp_mode, ping_config, tcp_config, interface_for, scan_ping, scan_tcp, fail,
  scan_block, or_invalid, execute_network_scan, is_empty, line_if, print_interface, print_addresses,
  main,
}

abbrev pub ping_setup : World → Config → CidrBlock → PingState.Setup
ping_setup w config r = PingState.make_setup (ping_config config r) (interface_for w r)

abbrev pub tcp_setup : World → Config → CidrBlock → TcpState.Setup
tcp_setup w config r = TcpState.make_setup (tcp_config config r) (interface_for w r)

abbrev pub ping_scan : World → PingState.Setup → Outcome PingState.Scan
ping_scan w c =
    PingRun.run_loop c w.host w.ping_rounds (PingState.start c (PingState.initialize_buffers c))

-- Why a run fails, with the line that it prints.
pub data Refused (w : World) (config : Config) : Line → Type 0 where
  bad_range :
      is_empty config.cidr_arg ≡ false
      → parse_cidr w.inet_pton (some config.cidr_arg) ≡ none
      → Refused w config (invalid_cidr config.cidr_arg)
  bad_interface :
      (i : Interface)
      → (is_empty i.ip || (is_empty i.network || is_empty i.broadcast)) ≡ true
      → Refused w config no_interface_found
  no_range : is_empty config.cidr_arg ≡ true → Refused w config no_target
  bad_mode :
      eq_bytes config.mode (codes "ping") ≡ false
      → eq_bytes config.mode (codes "tcp") ≡ false
      → eq_bytes config.mode (codes "arp") ≡ false
      → Refused w config (unknown_mode config.mode)

pub data Ran (w : World) (config : Config) : Exit → Type 0 where
  failed :
      (line : Line)
      → Refused w config line
      → Ran w config (record { status = 1; lines = line ∷ [] })
  printed :
      (i : Interface)
      → Ran w config (record {
        status = 0;
        lines =
            line_if config.print_local_ip i.ip
            ++ (line_if config.print_broadcast_ip i.broadcast
                ++ line_if config.print_network_ip i.network);
      })
  listed :
      (s : ArpState)
      → get_arp_table w.arp ≡ returns s
      → Ran w config (record {
        status = 0;
        lines =
            arp_banner config.resolve_dns
            ∷ print_arp_table w.host.inet_ntop w.getnameinfo config.resolve_dns s.entries;
      })
  pinged :
      (r : CidrBlock) (s : PingState.Scan)
      → parse_cidr w.inet_pton (some config.cidr_arg) ≡ some r
      → ping_scan w (ping_setup w config r) ≡ returns s
      → Ran w config (record {
        status = 0;
        lines =
            ping_banner r.count
            ∷ (map ping_host s.finds.reported ++ (ping_complete (PingRun.result_of s) ∷ []));
      })
  connected :
      (r : CidrBlock) (s : TcpState.Scan)
      → parse_cidr w.inet_pton (some config.cidr_arg) ≡ some r
      → TcpRun.run (tcp_setup w config r) w.host.inet_ntop w.tcp_rounds ≡ returns s
      → Ran w config (record {
        status = 0;
        lines =
            tcp_banner r.count config.port
            ∷ (map tcp_host s.reported ++ (tcp_complete config.port (length s.scan_results) ∷ []));
      })

module _ (w : World) (config : Config) where
  fail-Ran :
      (line : Line) {x : Exit} → Refused w config line → fail line ≡ returns x → Ran w config x
  fail-Ran line e h = subst (Ran w config) (returns_injective _ _ h) (failed line e)

  scan_ping-Ran :
      (r : CidrBlock) {x : Exit}
      → parse_cidr w.inet_pton (some config.cidr_arg) ≡ some r
      → scan_ping w config r ≡ returns x
      → Ran w config x
  unfolding scan_ping
  scan_ping-Ran r p h = elim (Option-cases ((initialize_socket w.sockets).1)) [
    | inr (e, q) ↦ absurd (throws-ne-returns (rw (q, scan_ping) at h))
    | inl q ↦
        let (s, l, f) = >>=-eq-returns _ _ (rw (q, scan_ping) at h) in
        subst (Ran w config) (returns_injective _ _ f) (pinged r s p l)
  ]

  scan_tcp-Ran :
      (r : CidrBlock) {x : Exit}
      → parse_cidr w.inet_pton (some config.cidr_arg) ≡ some r
      → scan_tcp w config r ≡ returns x
      → Ran w config x
  unfolding scan_tcp
  scan_tcp-Ran r p h = elim (Bool-cases (is_neg w.epoll.value)) [
    | inl q ↦ absurd (throws-ne-returns (rw (q, scan_tcp) at h))
    | inr q ↦
        let (s, l, f) = >>=-eq-returns _ _ (rw (q, scan_tcp) at h) in
        subst (Ran w config) (returns_injective _ _ f) (connected r s p l)
  ]

  scan_block-Ran :
      (r : CidrBlock) {x : Exit}
      → parse_cidr w.inet_pton (some config.cidr_arg) ≡ some r
      → eq_bytes config.mode (codes "arp") ≡ false
      → scan_block w config r ≡ returns x
      → Ran w config x
  unfolding scan_block
  scan_block-Ran r p no_arp h = elim (Bool-cases (eq_bytes config.mode (codes "ping"))) [
    | inl ping ↦ scan_ping-Ran r p (rw (ping, scan_block) at h)
    | inr no_ping ↦ elim (Bool-cases (eq_bytes config.mode (codes "tcp"))) [
      | inl tcp ↦ scan_tcp-Ran r p (rw (no_ping, tcp, scan_block) at h)
      | inr no_tcp ↦
          fail-Ran (unknown_mode config.mode) (bad_mode no_ping no_tcp no_arp)
            (rw (no_ping, no_tcp, scan_block) at h)
    ]
  ]

  or_invalid-Ran :
      (next : CidrBlock → Outcome Exit) (o : Option CidrBlock) {x : Exit}
      → is_empty config.cidr_arg ≡ false
      → o ≡ parse_cidr w.inet_pton (some config.cidr_arg)
      → ((r : CidrBlock) → o ≡ some r → next r ≡ returns x → Ran w config x)
      → or_invalid config next o ≡ returns x
      → Ran w config x
  or_invalid-Ran next none e q k h = fail-Ran (invalid_cidr config.cidr_arg) (bad_range e (sym q)) h
  or_invalid-Ran next (some r) e q k h = k r refl h

  print_interface-Ran :
      (i : Interface) {x : Exit} → print_interface config i ≡ returns x → Ran w config x
  unfolding print_interface
  print_interface-Ran i h =
      elim (Bool-cases (is_empty i.ip || (is_empty i.network || is_empty i.broadcast))) [
        | inl e ↦ fail-Ran no_interface_found (bad_interface i e) (rw (e, print_interface) at h)
        | inr e ↦
            subst (Ran w config) (returns_injective _ _ (rw (e, print_interface) at h)) (printed i)
      ]

  print_addresses-Ran : {x : Exit} → print_addresses w config ≡ returns x → Ran w config x
  unfolding print_addresses
  print_addresses-Ran h = elim (Bool-cases (is_empty config.cidr_arg)) [
    | inl e ↦ print_interface-Ran _ (rw (e, print_addresses) at h)
    | inr e ↦
        let local = λ (r : CidrBlock). fetch w.inet_ntop w.interfaces r.base_ip r.count in
        or_invalid-Ran (λ r. print_interface config (local r))
          (parse_cidr w.inet_pton (some config.cidr_arg)) e refl
          (λ r p q. print_interface-Ran (local r) q) (rw (e, print_addresses) at h)
  ]

  execute-Ran :
      {x : Exit}
      → is_empty config.cidr_arg ≡ false
      → eq_bytes config.mode (codes "arp") ≡ false
      → execute_network_scan w config ≡ returns x
      → Ran w config x
  unfolding execute_network_scan
  execute-Ran e b h =
      or_invalid-Ran (scan_block w config) (parse_cidr w.inet_pton (some config.cidr_arg)) e refl
        (λ r p q. scan_block-Ran r p b q) h

  arp-Ran : {x : Exit} → handle_arp_mode w config.resolve_dns ≡ returns x → Ran w config x
  unfolding handle_arp_mode
  arp-Ran h =
      let (s, l, f) = >>=-eq-returns (get_arp_table w.arp) _ h in
      subst (Ran w config) (returns_injective _ _ f) (listed s l)

  pub main-Ran : {x : Exit} → main w config ≡ returns x → Ran w config x
  unfolding main
  main-Ran h =
      elim (Bool-cases
        (config.print_local_ip || (config.print_broadcast_ip || config.print_network_ip))) [
          | inl p ↦ print_addresses-Ran (rw (p, main) at h)
          | inr n ↦ elim (Bool-cases (eq_bytes config.mode (codes "arp"))) [
            | inl a ↦ arp-Ran (rw (n, a, main) at h)
            | inr b ↦ elim (Bool-cases (is_empty config.cidr_arg)) [
              | inl e ↦ fail-Ran no_target (no_range e) (rw (n, b, e, main) at h)
              | inr e ↦ execute-Ran e b (rw (n, b, e, main) at h)
            ]
          ]
        ]
