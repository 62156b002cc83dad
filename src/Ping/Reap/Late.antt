-- ===== src/Ping/Reap/Late.antt =====
-- The test of `reap_timed_out_probes`, on exact times.
use netscan.Base.{
  Bool-cases, arith, false, inl, inr, ltb→lt, lt→ltb, pos, pos_part, true, ℕ, ℤ, ◌*◌, ◌+◌, ◌<◌, ◌↔◌,
  ◌≡◌,
}
use netscan.Base.{◌+ℤ◌, ◌-ℤ◌, ◌*ℤ◌, neg_part, sub_ℕ}
use netscan.Sys.{Timespec, diff_ns}
use netscan.Ping.State.{Setup, ProbeInfo}
use netscan.Ping.Reap.{is_timed_out}

-- A time is so many nanoseconds ahead of zero, less so many behind it.
abbrev ahead : Timespec → ℕ
ahead t = pos_part t.tv_sec * 1000000000 + pos_part t.tv_nsec

abbrev behind : Timespec → ℕ
behind t = neg_part t.tv_sec * 1000000000 + neg_part t.tv_nsec

-- More than `timeout_ms` milliseconds lie between the sending of the probe and `now`.
abbrev pub Late : Setup → Timespec → ProbeInfo → Type 0
Late c now p =
    ahead p.send_time + behind now + c.timeout_ms * 1000000 < ahead now + behind p.send_time

sub_ℕ_parts : (a b : ℕ) → pos_part (sub_ℕ a b) + b ≡ neg_part (sub_ℕ a b) + a
sub_ℕ_parts a b = ground arith

sub-parts :
    (a b : ℤ)
    → pos_part (a -ℤ b) + neg_part a + pos_part b ≡ neg_part (a -ℤ b) + pos_part a + neg_part b
unfolding ◌-ℤ◌
sub-parts a b = omega (arith, sub_ℕ_parts (pos_part a + neg_part b) (neg_part a + pos_part b))

add-parts :
    (a b : ℤ)
    → pos_part (a +ℤ b) + neg_part a + neg_part b ≡ neg_part (a +ℤ b) + pos_part a + pos_part b
unfolding ◌+ℤ◌
add-parts a b = omega (arith, sub_ℕ_parts (pos_part a + pos_part b) (neg_part a + neg_part b))

mul-parts :
    (a : ℤ) (n : ℕ)
    → pos_part (a *ℤ pos n) + neg_part a * n ≡ neg_part (a *ℤ pos n) + pos_part a * n
unfolding ◌*ℤ◌
mul-parts a n =
    omega (arith, sub_ℕ_parts (pos_part a * n + neg_part a * 0) (pos_part a * 0 + neg_part a * n))

pub is_timed_out-Late :
    (c : Setup) (now : Timespec) (p : ProbeInfo) → (is_timed_out c now p ≡ true) ↔ Late c now p
unfolding is_timed_out diff_ns
is_timed_out-Late c now p =
    let sent = p.send_time in
    let sec = now.tv_sec -ℤ sent.tv_sec in
    let nsec = now.tv_nsec -ℤ sent.tv_nsec in
    let scaled = sec *ℤ pos 1000000000 in
    let f1 = sub-parts now.tv_sec sent.tv_sec in
    let f2 = sub-parts now.tv_nsec sent.tv_nsec in
    let f3 = mul-parts sec 1000000000 in
    let f4 = add-parts scaled nsec in
    let f5 = mul-parts (pos c.timeout_ms) 1000000 in
    (
      λ h. omega (arith, f1, f2, f3, f4, f5, ltb→lt _ _ h),
      λ h. lt→ltb _ _ (omega (arith, f1, f2, f3, f4, f5, h)),
    )

pub in_time :
    (c : Setup) (now : Timespec) (p : ProbeInfo) → is_timed_out c now p ≡ false → ¬ Late c now p
in_time c now p fine late = absurd (ground (arith, fine, (is_timed_out-Late c now p).1 late))

pub not-Late :
    (c : Setup) (now : Timespec) (p : ProbeInfo) → ¬ Late c now p → is_timed_out c now p ≡ false
not-Late c now p fine = elim (Bool-cases (is_timed_out c now p)) [
  | inl e ↦ absurd (fine ((is_timed_out-Late c now p).0 e))
  | inr e ↦ e
]
