-- ===== src/Tcp/Connect.antt =====
-- `initiate_single_connection` and `initiate_connections`. The answers of the system calls are an
-- argument; those to `setsockopt` are only reported on stderr, and are left out.
use netscan.Base.{
  Bool, List, [], eqb_ℤ, false, if◌then◌else◌, is_neg, ltb, minus_one, not, pos_part, set, to_int,
  true, ℕ, ℤ, ◌&&◌, ◌+◌, ◌==◌, ◌||◌, ◌∷◌,
}
use netscan.Sys.{Timespec, is_einprogress, Outcome, returns, pending}
use netscan.Utils.{add32}
use netscan.Ping.Socket.{Answer, close_fd}
use netscan.Tcp.State.{ProbeInfo, Setup, Scan}

pub record ConnectAnswers : Type 0 where
  pub socket : Answer
  pub get_flags : Answer
  pub set_flags : Answer
  pub connect : Answer
  pub epoll_add : Answer
  pub now : Timespec

unfoldable pub is_reserved : Setup → ℕ → Bool
is_reserved c target_ip =
    c.network_interface.is_local
    && (target_ip == c.network_interface.network_ip
        || target_ip == c.network_interface.broadcast_ip)

-- The first slot that is not active, counted from `i`.
unfoldable pub find_slot : ℕ → List ProbeInfo → ℤ
find_slot i [] = minus_one
find_slot i (p ∷ ps) = let rest = find_slot (i + 1) ps in if p.active then rest else to_int i

abbrev pub advance : Scan → Scan
advance s = record s { next_host_idx = s.next_host_idx + 1 }

-- One of the calls behind `socket` failed, in a way that ends the attempt.
unfoldable pub is_refused : ConnectAnswers → Bool
is_refused a =
    is_neg a.get_flags.value
    || (is_neg a.set_flags.value
        || ((is_neg a.connect.value && not (is_einprogress a.connect.errno))
            || is_neg a.epoll_add.value))

-- `socket` opened `sock`; every failure behind it closes `sock`.
unfoldable pub connect_slot : ConnectAnswers → ℕ → ℕ → Scan → Scan
connect_slot a slot target_ip s =
    let sock = a.socket.value in
    let t = record s { opened = sock ∷ s.opened } in
    if is_refused a then record t { opened = close_fd sock t.opened } else record t {
      probe_table =
          set t.probe_table slot
            (record { active = true; sock = sock; dest_ip = target_ip; send_time = a.now });
      active_probes = t.active_probes + 1;
    }

unfoldable pub initiate_single_connection : Setup → ConnectAnswers → Scan → Bool × Scan
initiate_single_connection c a s =
    let target_ip = add32 c.base_ip s.next_host_idx in
    let slot = find_slot 0 s.probe_table in
    if is_reserved c target_ip
    then (true, advance s)
    else if eqb_ℤ slot minus_one
    then (false, s)
    else if is_neg a.socket.value
    then (true, advance s)
    else (true, connect_slot a (pos_part slot) target_ip (advance s))

abbrev pub may_initiate : Setup → ℕ → Scan → Bool
may_initiate c initiated s =
    ltb s.next_host_idx c.total_hosts
    && (ltb s.active_probes c.max_probes && ltb initiated c.batch_size)

unfoldable pub initiate_loop : Setup → List ConnectAnswers → ℕ → Scan → Outcome Scan
initiate_loop c [] initiated s = if may_initiate c initiated s then pending else returns s
initiate_loop c (a ∷ rest) initiated s =
    let (more, s') = initiate_single_connection c a s in
    let count = if ltb s.next_host_idx s'.next_host_idx then initiated + 1 else initiated in
    let onward = initiate_loop c rest count s' in
    if not (may_initiate c initiated s) then returns s else if not more then returns s' else onward

unfoldable pub initiate_connections : Setup → List ConnectAnswers → Scan → Outcome Scan
initiate_connections c answers s = initiate_loop c answers 0 s
