-- ===== src/Arp/Ends.antt =====
-- When `get_arp_table` returns.
use netscan.Base.{
  Bool, Bool-cases, List, [], ap, arith, false, if◌then◌else◌, inl, inr, is_neg, not, refl, true, ℤ,
  ◌||◌, ◌∙◌, ◌∷◌, ◌≡◌,
}
use netscan.Sys.{is_eintr, returns}
use netscan.Arp.{
  Message, ArpState, no_entries, close_sock, parse_netlink_message, parse_messages, Datagram,
  receive_loop, ArpAnswers, get_arp_table,
}
use netscan.Arp.Listed.{ends, handle_entries}

-- Some message ends the dump.
abbrev pub any_ends : List Message → Bool
any_ends [] = false
any_ends (m ∷ ms) = ends m.nlmsg_type || any_ends ms

-- The datagram ends the loop: an error other than EINTR, a cut-off, or the end of the dump.
abbrev pub stops : Datagram → Bool
stops d = if is_neg d.len then not (is_eintr d.errno) else d.is_truncated || any_ends d.messages

abbrev pub any_stops : List Datagram → Bool
any_stops [] = false
any_stops (d ∷ ds) = stops d || any_stops ds

messages_flag :
    (sock : ℤ) (ms : List Message) (s : ArpState) → (parse_messages sock ms s).0 ≡ not (any_ends ms)
unfolding parse_messages
messages_flag sock [] s = refl
messages_flag sock (m ∷ ms) s =
    let flag = (handle_entries m.nlmsg_type sock m s).1 in
    elim (Bool-cases (ends m.nlmsg_type)) [
      | inl e ↦ simp (parse_messages, flag ∙ ap not e, e) refl
      | inr e ↦
          simp (parse_messages, flag ∙ ap not e, e)
            (messages_flag sock ms (parse_netlink_message sock m s).1)
    ]

receive_loop_ends :
    (sock : ℤ) (ds : List Datagram) (s : ArpState)
    → any_stops ds ≡ true
    → (t : ArpState) × (receive_loop sock ds s ≡ returns t)
unfolding receive_loop
receive_loop_ends sock [] s h = absurd (ground (arith, h))
receive_loop_ends sock (d ∷ ds) s h = elim (Bool-cases (is_neg d.len)) [
  | inl failed ↦ elim (Bool-cases (is_eintr d.errno)) [
    | inl again ↦ simp (failed, again) (receive_loop_ends sock ds s (simp (failed, again) at h))
    | inr given_up ↦ simp (failed, given_up) (close_sock sock s, refl)
  ]
  | inr read ↦ elim (Bool-cases d.is_truncated) [
    | inl cut ↦ simp (read, cut) (close_sock sock s, refl)
    | inr whole ↦
        let r = parse_messages sock d.messages s in
        let flag = messages_flag sock d.messages s in
        elim (Bool-cases (any_ends d.messages)) [
          | inl e ↦ simp (read, whole, flag ∙ ap not e) (r.1, refl)
          | inr e ↦
              simp (read, whole, flag ∙ ap not e)
                (receive_loop_ends sock ds r.1 (simp (read, whole, e) at h))
        ]
  ]
]

-- `get_arp_table` returns if no socket was opened, the request was not sent, or some datagram ends
-- the dump, is cut off, or fails with an error other than EINTR.
pub get_arp_table_ends :
    (x : ArpAnswers)
    → (is_neg x.socket || (is_neg x.send || any_stops x.datagrams)) ≡ true
    → (t : ArpState) × (get_arp_table x ≡ returns t)
unfolding get_arp_table
get_arp_table_ends x h = elim (Bool-cases (is_neg x.socket)) [
  | inl e ↦ simp e (no_entries, refl)
  | inr e ↦ elim (Bool-cases (is_neg x.send)) [
    | inl f ↦ simp (e, f) (close_sock x.socket no_entries, refl)
    | inr f ↦ simp (e, f) (receive_loop_ends x.socket x.datagrams no_entries (simp (e, f) at h))
  ]
]
