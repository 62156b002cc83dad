-- ===== src/Tcp/State.antt =====
-- The members of `TcpScanner` and the local variables of `run`. `opened` lists the descriptors of
-- sockets that the scanner has opened and not closed.
use netscan.Base.{Bool, Bytes, List, [], false, min, minus_one, pos, replicate, ℕ, ℤ}
use netscan.Base.{Bytes}
use netscan.Sys.{Timespec}
use netscan.Utils.{NetworkInterface, safe_batch_size}

pub record TcpHostResult : Type 0 where
  pub ip : ℕ
  pub ip_str : Bytes
  pub hostname : Bytes
  pub port : ℕ
  pub rtt_ns : ℤ

pub record TcpScannerConfig : Type 0 where
  pub base_ip : ℕ
  pub total_hosts : ℕ
  pub target_port : ℕ
  pub max_probes : ℕ
  pub timeout_ms : ℕ
  pub batch_size : ℕ
  pub resolve_dns : Bool
  pub has_callback : Bool

pub record ProbeInfo : Type 0 where
  pub active : Bool
  pub sock : ℤ
  pub dest_ip : ℕ
  pub send_time : Timespec

-- `ProbeInfo{}`
abbrev pub no_probe : ProbeInfo
no_probe = record {
  active = false;
  sock = minus_one;
  dest_ip = 0;
  send_time = record { tv_sec = pos 0; tv_nsec = pos 0 };
}

pub record Setup : Type 0 where
  pub base_ip : ℕ
  pub total_hosts : ℕ
  pub network_interface : NetworkInterface
  pub target_port : ℕ
  pub max_probes : ℕ
  pub timeout_ms : ℕ
  pub batch_size : ℕ
  pub resolve_dns : Bool
  pub has_callback : Bool

-- The constructor, when `epoll_create1` succeeds; `interface` is what `NetworkInterface::fetch` returned.
unfoldable pub make_setup : TcpScannerConfig → NetworkInterface → Setup
make_setup config interface = record {
  base_ip = config.base_ip;
  total_hosts = config.total_hosts;
  network_interface = interface;
  target_port = config.target_port;
  max_probes = min config.max_probes config.total_hosts;
  timeout_ms = config.timeout_ms;
  batch_size = safe_batch_size config.batch_size config.total_hosts;
  resolve_dns = config.resolve_dns;
  has_callback = config.has_callback;
}

pub record Scan : Type 0 where
  pub probe_table : List ProbeInfo
  pub next_host_idx : ℕ
  pub active_probes : ℕ
  pub hosts_found : ℕ
  pub scan_results : List TcpHostResult
  pub reported : List TcpHostResult
  pub opened : List ℤ

-- A new scanner at the head of `run`.
unfoldable pub start : Setup → Scan
start c = record {
  probe_table = replicate c.max_probes no_probe;
  next_host_idx = 0;
  active_probes = 0;
  hosts_found = 0;
  scan_results = [];
  reported = [];
  opened = [];
}
