-- ===== src/Ping/Tests/Batches.antt =====
-- The send buffers in the scan of four addresses, and the theorems about them.
use netscan.Base.{Bool, arith, refl, ℕ, ◌+◌, ◌-◌, ◌<◌, ◌^◌, ◌≡◌}
use netscan.Sys.{Outcome, returns}
use netscan.Ping.State.{Scan, start}
use netscan.Ping.Packet.{prepare_single_packet}
use netscan.Ping.Packet.Layout.{Sized, LaidOut, prepare_single_packet_lays_out}
use netscan.Ping.Send.{populate_batch_entries, send_batch}
use netscan.Ping.Send.Populate.Packets.{Requests}
use netscan.Ping.Run.{finish_round}
use netscan.Ping.Run.Results.{cleared}
use netscan.Ping.Run.Turns.{Turn, first, further, run_packs}
use netscan.Ping.State.{make_setup}
use netscan.Ping.Tests.{
  lan_config, lan_interface, lan, lan_setup, lan_IsSetup, host, at_ms, round_one, buffers, probing,
  scan_lan,
}

-- `--payload -1`, which `strtoul` reads as 2 ^ 64 - 1: the entries have no room for the header and the
-- payload.
wrapped_size :
    (make_setup (record lan_config { payload_len = 2 ^ 64 - 1 }) lan_interface).packet_buffer_size
    ≡ 31
unfolding make_setup
wrapped_size = refl

prepare_single_packet_lays_out_example :
    LaidOut lan_setup host 4 buffers
      (lan + 1)
      7
      (at_ms 0)
      (prepare_single_packet lan_setup host buffers (lan + 1) 7 (at_ms 0))
unfolding scan_lan
prepare_single_packet_lays_out_example =
    prepare_single_packet_lays_out lan_config lan_interface host 4 buffers (lan + 1) 7 (at_ms 0)
      (omega arith) refl refl refl (omega arith)

probing_count : probing.batch.batch_count ≡ 2
unfolding scan_lan
probing_count = refl

-- What a sending or a round leaves.
abbrev sent_scan : Outcome (Bool × Scan) → Scan
sent_scan (returns (_, s)) = s
sent_scan _ = start lan_setup buffers

abbrev round_scan : Outcome Scan → Scan
round_scan (returns s) = s
round_scan _ = start lan_setup buffers

abbrev sent_one : Scan
sent_one = sent_scan (send_batch lan_setup host (at_ms 0) round_one.sends (start lan_setup buffers))

abbrev done_one : Scan
done_one = round_scan (finish_round lan_setup host round_one sent_one)

done_one-Turn : Turn lan_setup host done_one
unfolding scan_lan
done_one-Turn = further round_one (start lan_setup buffers) sent_one done_one first refl refl refl

run_packs_example :
    let s' = populate_batch_entries lan_setup host (at_ms 9) (cleared done_one) in
    Sized lan_setup 4 s'.batch × ((k : ℕ) → k < s'.batch.batch_count → Requests lan_setup host s' k)
unfolding scan_lan
run_packs_example =
    run_packs lan_config lan_interface host done_one (at_ms 9) lan_IsSetup (omega arith)
      done_one-Turn
