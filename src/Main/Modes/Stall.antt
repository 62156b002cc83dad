-- ===== src/Main/Modes/Stall.antt =====
-- Scans that `main` never comes back from.
use netscan.Base.{
  Bool-cases, Bytes, Option-cases, ap, false, inl, inr, is_neg, some, true, ◌<◌, ◌||◌, ◌≡◌, ◌⊎◌,
}
use netscan.Sys.{returns, throws-ne-returns, >>=-eq-returns, ◌>>=◌}
use netscan.Text.{codes, eq_bytes}
use netscan.Cidr.{CidrBlock, parse_cidr}
use netscan.Cidr.Parse.{IsAddress, parse_cidr-IsSetup}
use netscan.Ping.Socket.{initialize_socket}
use netscan.Ping.State as PingState
use netscan.Ping.Run as PingRun
use netscan.Ping.Run.Stall.{run_stalls}
use netscan.Tcp.Run.Stall.{tcp_run_stalls}
use netscan.Main.Options.{Config}
use netscan.Main.Modes.{
  World, Exit, ping_config, tcp_config, interface_for, scan_ping, scan_tcp, scan_block,
  execute_network_scan, is_empty, main,
}
use netscan.Main.Modes.Ran.{ping_setup, ping_scan}

-- The options and arguments ask for a scan of `r`.
pub record AsksScan (w : World) (config : Config) (r : CidrBlock) : Type 0 where
  pub no_print :
      (config.print_local_ip || (config.print_broadcast_ip || config.print_network_ip)) ≡ false
  pub not_arp : eq_bytes config.mode (codes "arp") ≡ false
  pub scans :
      (eq_bytes config.mode (codes "ping") ≡ true)
      ⊎ ((eq_bytes config.mode (codes "ping") ≡ false)
          × (eq_bytes config.mode (codes "tcp") ≡ true))
  pub given : is_empty config.cidr_arg ≡ false
  pub parsed : parse_cidr w.inet_pton (some config.cidr_arg) ≡ some r

module _ (w : World) (config : Config) (r : CidrBlock)
    (closed : (config.max_probes ≡ 0) ⊎ (config.send_batch ≡ 0)) (hosts : 0 < r.count) where
  scan_ping_stalls :
      {x : Exit}
      → ((s b : Bytes) → w.inet_pton s ≡ some b → IsAddress b)
      → parse_cidr w.inet_pton (some config.cidr_arg) ≡ some r
      → ¬ (scan_ping w config r ≡ returns x)
  unfolding scan_ping PingRun.run
  scan_ping_stalls fills p h = elim (Option-cases ((initialize_socket w.sockets).1)) [
    | inr (e, q) ↦ absurd (throws-ne-returns (rw (q, scan_ping) at h))
    | inl q ↦
        let c = ping_setup w config r in
        let (s, l, f) = >>=-eq-returns (ping_scan w c) _ (rw (q, scan_ping) at h) in
        run_stalls (ping_config config r) (interface_for w r) w.host
          (PingState.initialize_buffers c) w.ping_rounds (PingRun.result_of s)
          (parse_cidr-IsSetup w.inet_pton fills config.cidr_arg (ping_config config r)
            (interface_for w r) p)
          closed hosts (ap (λ o. o >>= λ s. returns (PingRun.result_of s)) l)
  ]

  scan_tcp_stalls : {x : Exit} → ¬ (scan_tcp w config r ≡ returns x)
  unfolding scan_tcp
  scan_tcp_stalls h = elim (Bool-cases (is_neg w.epoll.value)) [
    | inl q ↦ absurd (throws-ne-returns (rw (q, scan_tcp) at h))
    | inr q ↦
        let (s, l, f) = >>=-eq-returns _ _ (rw (q, scan_tcp) at h) in
        tcp_run_stalls (tcp_config config r) (interface_for w r) w.host.inet_ntop w.tcp_rounds s
          closed hosts l
  ]

  -- With `--probes 0` or `--send-batch 0` a scan of a range that is not empty does not come back, in
  -- either mode, whatever the system and the network answer.
  pub main_stalls :
      (x : Exit)
      → ((s b : Bytes) → w.inet_pton s ≡ some b → IsAddress b)
      → AsksScan w config r
      → ¬ (main w config ≡ returns x)
  unfolding main execute_network_scan scan_block
  main_stalls x fills a h =
      let b = rw (a.no_print, a.not_arp, a.given, main, execute_network_scan, a.parsed) at h in
      elim a.scans [
        | inl p ↦ scan_ping_stalls fills a.parsed (rw (p, scan_block) at b)
        | inr (n, t) ↦ scan_tcp_stalls (rw (n, t, scan_block) at b)
      ]
