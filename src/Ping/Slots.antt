-- ===== src/Ping/Slots.antt =====
-- The helpers of `PingScanner` on its probe table: free slots, host indices, found addresses,
-- sequence numbers, and giving a slot back.
pub mod Find
pub mod Release
use netscan.Base.{
  Bool, List, [], eqb_ℤ, false, get_or, if◌then◌else◌, is_neg, leb, length, ltb, minus_one, not,
  pos_part, set, to_int, ℕ, ℤ, ◌%◌, ◌&&◌, ◌+◌, ◌-◌, ◌==◌, ◌||◌, ◌∷◌,
}
use netscan.Ping.State.{Setup, ProbeInfo, no_probe, Table}

-- The loop of `find_available_probe_slot` from index `i` on.
unfoldable pub find_free_from : ℕ → List ProbeInfo → ℤ
find_free_from i [] = minus_one
find_free_from i (p ∷ ps) = if not p.active then to_int i else find_free_from (i + 1) ps

unfoldable pub find_available_probe_slot : Table → ℤ
find_available_probe_slot t = find_free_from 0 t.probe_table

unfoldable pub host_index_for_ip : Setup → ℕ → ℤ
host_index_for_ip c ip_address =
    if ltb ip_address c.base_ip
    then minus_one
    else if leb c.total_hosts (ip_address - c.base_ip)
    then minus_one
    else to_int (ip_address - c.base_ip)

unfoldable pub is_host_found : List ℕ → ℕ → Bool
is_host_found [] ip_address = false
is_host_found (x ∷ xs) ip_address = x == ip_address || is_host_found xs ip_address

-- The candidate, and the new `next_seq`.
unfoldable pub allocate_sequence : ℕ → ℕ × ℕ
allocate_sequence next_seq =
    let candidate = if next_seq == 0 then 1 else next_seq in
    let next = (candidate + 1) % 65536 in (candidate, if next == 0 then 1 else next)

-- `if (host_idx >= 0 && host_to_probe_[host_idx] == slot) host_to_probe_[host_idx] = -1;`
unfoldable pub unlink : Setup → List ℤ → ℕ → ℤ → List ℤ
unlink c host_to_probe dest_ip slot =
    let host_idx = host_index_for_ip c dest_ip in
    if not (is_neg host_idx) && eqb_ℤ (get_or host_to_probe (pos_part host_idx) minus_one) slot
    then set host_to_probe (pos_part host_idx) minus_one
    else host_to_probe

-- `probe.active = false; if (active_probes > 0) --active_probes;`
unfoldable pub deactivate : Table → ℕ → Table
deactivate t slot = record t {
  probe_table =
      set t.probe_table slot (record (get_or t.probe_table slot no_probe) { active = false });
  active_probes = if ltb 0 t.active_probes then t.active_probes - 1 else t.active_probes;
}

unfoldable pub release_probe_slot : Setup → Table → ℤ → Table
release_probe_slot c t slot =
    if is_neg slot || leb (length t.probe_table) (pos_part slot)
    then t
    else let probe = get_or t.probe_table (pos_part slot) no_probe in
      if not probe.active
      then t
      else deactivate (record t { host_to_probe = unlink c t.host_to_probe probe.dest_ip slot })
          (pos_part slot)
