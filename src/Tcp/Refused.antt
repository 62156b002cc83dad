-- ===== src/Tcp/Refused.antt =====
-- `initiate_single_connection` when a system call fails.
use netscan.Base.{
  Bool-cases, List, ap, arith, count_if-le-length, count_if-set, eqb_ℤ, eqb_ℤ_iff, false, get_elem?,
  inl, inr, is_neg, length, length-set, minus_one, refl, set, some, to_ℕ, true, ℕ, ℤ, ◌+◌, ◌^◌,
  ◌||◌, ◌∷◌, ◌≡◌, ◌≢◌, ◌≤◌,
}
use netscan.Utils.{add32}
use netscan.Ping.Socket.{close_fd}
use netscan.Sys.{Errno, is_einprogress}
use netscan.Tcp.State.{ProbeInfo, Setup, Scan}
use netscan.Tcp.Invariant.{is_active}
use netscan.Tcp.Table.{SlotFound, free, full, find_slot-SlotFound}
use netscan.Tcp.Connect.{
  ConnectAnswers, is_reserved, advance, is_refused, connect_slot, initiate_single_connection,
}

close_fd-same : (fd : ℤ) (opened : List ℤ) → close_fd fd (fd ∷ opened) ≡ opened
unfolding close_fd
close_fd-same fd opened = rw ((eqb_ℤ_iff fd fd).1 refl, close_fd)

connect_slot_refused :
    (a : ConnectAnswers) (slot ip : ℕ) (s : Scan)
    → is_refused a ≡ true
    → connect_slot a slot ip s ≡ s
unfolding connect_slot
connect_slot_refused a slot ip s h =
    rw (h, connect_slot)
      (ap (λ (opened : List ℤ). record s { opened = opened })
        (close_fd-same a.socket.value s.opened))

-- A system call of the attempt fails: `socket`, one of the two calls of `fcntl`, `connect` with an
-- error other than EINPROGRESS, or `epoll_ctl`.
pub data CallFails (a : ConnectAnswers) : Type 0 where
  at_socket : is_neg a.socket.value ≡ true → CallFails a
  at_get_flags : is_neg a.get_flags.value ≡ true → CallFails a
  at_set_flags : is_neg a.set_flags.value ≡ true → CallFails a
  at_connect : is_neg a.connect.value ≡ true → a.connect.errno ≢ Errno.einprogress → CallFails a
  at_epoll_add : is_neg a.epoll_add.value ≡ true → CallFails a

not_in_progress : (e : Errno) → e ≢ Errno.einprogress → is_einprogress e ≡ false
not_in_progress Errno.einprogress h = absurd (h refl)
not_in_progress e h = refl

CallFails-refused :
    (a : ConnectAnswers) → CallFails a → (is_neg a.socket.value || is_refused a) ≡ true
unfolding is_refused
CallFails-refused a (at_socket h) = ground (arith, h)
CallFails-refused a (at_get_flags h) = ground (arith, h)
CallFails-refused a (at_set_flags h) = ground (arith, h)
CallFails-refused a (at_connect h e) = ground (arith, h, not_in_progress a.connect.errno e)
CallFails-refused a (at_epoll_add h) = ground (arith, h)

slot_there :
    (ps : List ProbeInfo) (k : ℕ) (p : ProbeInfo) {z : ℤ}
    → get_elem? ps k ≡ some p
    → p.active ≡ false
    → SlotFound 0 ps z
    → eqb_ℤ z minus_one ≡ false
slot_there ps k p e i (free j q f g) = refl
slot_there ps k p e i (full f) = absurd (
    omega (
      arith,
      f,
      count_if-set is_active ps k (record p { active = true }) e,
      ap to_ℕ i,
      count_if-le-length is_active (set ps k (record p { active = true })),
      length-set ps k (record p { active = true }),
    ))

-- With a free slot in the table: when `socket`, `fcntl`, `connect` or `epoll_ctl` fails, the open
-- sockets and the table are as before, and the host is passed over as if it were probed:
-- `next_host_idx` goes one further, and the caller is told to go on.
pub initiate_single_connection_refused :
    (c : Setup) (a : ConnectAnswers) (s : Scan) (k : ℕ) (p : ProbeInfo)
    → length s.probe_table ≤ 2 ^ 31
    → get_elem? s.probe_table k ≡ some p
    → p.active ≡ false
    → CallFails a
    → initiate_single_connection c a s ≡ (true, record s { next_host_idx = s.next_host_idx + 1 })
unfolding initiate_single_connection
initiate_single_connection_refused c a s k p small e i fails =
    let slot =
      slot_there s.probe_table k p e i (find_slot-SlotFound 0 s.probe_table (omega arith)) in
    let failed = CallFails-refused a fails in
    elim (Bool-cases (is_reserved c (add32 c.base_ip s.next_host_idx))) [
      | inl r ↦ rw (r, initiate_single_connection) refl
      | inr open_host ↦ elim (Bool-cases (is_neg a.socket.value)) [
        | inl n ↦ rw (open_host, initiate_single_connection, slot, n) refl
        | inr y ↦
            rw (open_host, initiate_single_connection, slot, y)
              (ap (λ (t : Scan). (true, t))
                (connect_slot_refused a _ _ (advance s) (rw y at failed)))
      ]
    ]
