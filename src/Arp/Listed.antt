-- ===== src/Arp/Listed.antt =====
-- The entries of `get_arp_table` by their own description.
use mathlib.Core.List.{flat_map, append_assoc, append-nil}
use netscan.Base.{
  Bool, Bool-cases, Bytes, List, [], ap, arith, false, if◌then◌else◌, inl, inr, is_neg, not, refl,
  sym, true, ℕ, ℤ, ◌&&◌, ◌++◌, ◌==◌, ◌||◌, ◌∙◌, ◌∷◌, ◌≡◌,
}
use netscan.Sys.{is_eintr, returns, returns_injective, pending-ne-returns}
use netscan.Arp.{
  ArpEntry, Message, MessageType, handle_message, ArpState, no_entries, close_sock, add_neighbour,
  parse_netlink_message, parse_messages, Datagram, receive_loop, ArpAnswers, get_arp_table,
  nlmsg_done, nlmsg_error, rtm_newneigh, other, zero_mac, parse_netlink_attributes, is_unresolved,
  is_group, make_entry,
}

-- The entry of a pair of addresses, if it is listed.
abbrev pub neighbour : Message → ℕ × Bytes → List ArpEntry
neighbour m (ip, mac) =
    if not (ip == 0) && (not (is_unresolved m mac) && not (is_group ip))
    then make_entry m ip mac ∷ []
    else []

-- The entry of a message, if it has one.
abbrev pub entry_of : MessageType → Message → List ArpEntry
entry_of rtm_newneigh m =
    if m.is_inet then neighbour m (parse_netlink_attributes m.attributes 0 zero_mac) else []
entry_of _ m = []

abbrev pub listed : Message → List ArpEntry
listed m = entry_of m.nlmsg_type m

abbrev pub ends : MessageType → Bool
ends nlmsg_done = true
ends nlmsg_error = true
ends _ = false

-- The messages before the one that ends the dump.
abbrev pub before_end : List Message → List Message
before_end [] = []
before_end (m ∷ ms) = if ends m.nlmsg_type then [] else m ∷ before_end ms

-- The messages of the datagrams up to the first error or cut-off.
abbrev pub dumped : List Datagram → List Message
dumped [] = []
dumped (d ∷ ds) =
    if is_neg d.len
    then (if is_eintr d.errno then dumped ds else [])
    else if d.is_truncated
    then []
    else d.messages ++ dumped ds

add_neighbour_entries :
    (m : Message) (r : ℕ × Bytes) (s : ArpState)
    → (add_neighbour m r s).entries ≡ s.entries ++ neighbour m r
unfolding add_neighbour
add_neighbour_entries m (ip, mac) s = ground (arith, append-nil s.entries)

pub handle_entries :
    (k : MessageType) (sock : ℤ) (m : Message) (s : ArpState)
    → ((handle_message k sock m s).1.entries ≡ s.entries ++ entry_of k m)
      × ((handle_message k sock m s).0 ≡ not (ends k))
unfolding handle_message
handle_entries nlmsg_done sock m s = (sym (append-nil s.entries), refl)
handle_entries nlmsg_error sock m s = (sym (append-nil s.entries), refl)
handle_entries rtm_newneigh sock m s = elim (Bool-cases m.is_inet) [
  | inl e ↦ simp e (add_neighbour_entries m _ s, refl)
  | inr e ↦ simp e (sym (append-nil s.entries), refl)
]
handle_entries other sock m s = (sym (append-nil s.entries), refl)

ends_empty : (k : MessageType) (m : Message) → ends k ≡ true → entry_of k m ≡ []
ends_empty nlmsg_done m e = refl
ends_empty nlmsg_error m e = refl
ends_empty rtm_newneigh m e = absurd (ground (arith, e))
ends_empty other m e = refl

-- With `rest` still to come: what is listed of all is what the state holds and, if the loop goes on,
-- what is listed of `rest`.
abbrev Reads : List ArpEntry → List Message → List Message → Bool × ArpState → Type 0
Reads old ms rest r =
    old ++ flat_map listed (before_end (ms ++ rest))
    ≡ (if r.0 then r.1.entries ++ flat_map listed (before_end rest) else r.1.entries)

messages-Reads :
    (sock : ℤ) (ms rest : List Message) (s : ArpState)
    → Reads s.entries ms rest (parse_messages sock ms s)
unfolding parse_messages flat_map
messages-Reads sock [] rest s = refl
messages-Reads sock (m ∷ ms) rest s = elim (Bool-cases (ends m.nlmsg_type)) [
  | inl e ↦
      let (entries, flag) = handle_entries m.nlmsg_type sock m s in
      let stop : (handle_message m.nlmsg_type sock m s).0 ≡ false = flag ∙ ap not e in
      simp (parse_messages, stop, e)
        (sym (entries ∙ ap (λ (l : List ArpEntry). s.entries ++ l) (ends_empty m.nlmsg_type m e)))
  | inr e ↦
      let (entries, flag) = handle_entries m.nlmsg_type sock m s in
      let more : (handle_message m.nlmsg_type sock m s).0 ≡ true = flag ∙ ap not e in
      simp (parse_messages, more, e)
        (sym (append_assoc s.entries (listed m) (flat_map listed (before_end (ms ++ rest))))
          ∙ ap (λ (l : List ArpEntry). l ++ flat_map listed (before_end (ms ++ rest))) (sym entries)
          ∙ messages-Reads sock ms rest (parse_netlink_message sock m s).1)
]

receive_loop_entries :
    (sock : ℤ) (ds : List Datagram) (s : ArpState) {t : ArpState}
    → receive_loop sock ds s ≡ returns t
    → t.entries ≡ s.entries ++ flat_map listed (before_end (dumped ds))
unfolding receive_loop flat_map
receive_loop_entries sock [] s h = absurd (pending-ne-returns h)
receive_loop_entries sock (d ∷ ds) s h = elim (Bool-cases (is_neg d.len)) [
  | inl failed ↦ elim (Bool-cases (is_eintr d.errno)) [
    | inl again ↦
        simp (failed, again)
          (receive_loop_entries sock ds s (rw (failed, again, receive_loop) at h))
    | inr given_up ↦ simp (failed, given_up) (kept (rw (failed, given_up, receive_loop) at h))
  ]
  | inr read ↦ elim (Bool-cases d.is_truncated) [
    | inl cut ↦ simp (read, cut) (kept (rw (read, cut, receive_loop) at h))
    | inr whole ↦
        let r = parse_messages sock d.messages s in
        let reads = messages-Reads sock d.messages (dumped ds) s in
        elim (Bool-cases r.0) [
          | inl more ↦
              simp (read, whole)
                (receive_loop_entries sock ds r.1 (rw (read, whole, more, receive_loop) at h)
                  ∙ sym (simp more at reads))
          | inr stop ↦
              simp (read, whole)
                (ap (λ (x : ArpState). x.entries)
                    (sym (returns_injective _ _ (rw (read, whole, stop, receive_loop) at h)))
                  ∙ sym (simp stop at reads))
        ]
  ]
]
  where
    kept : {t : ArpState} → returns (close_sock sock s) ≡ returns t → t.entries ≡ s.entries ++ []
    kept e =
        ap (λ (x : ArpState). x.entries) (sym (returns_injective _ _ e))
        ∙ sym (append-nil s.entries)

-- Nothing is read when `socket` or `send` fails.
abbrev pub dump_of : ArpAnswers → List Message
dump_of x = if is_neg x.socket || is_neg x.send then [] else dumped x.datagrams

-- When `get_arp_table` returns, its entries are those of the messages before the one that ends the
-- dump, in their order, over all datagrams up to the first error or cut-off: one for each message
-- about a neighbour of IPv4 whose address is not 0, not multicast and not broadcast, whose link-layer
-- address is not 0, and that is not being resolved. It has none when `socket` or `send` fails.
pub get_arp_table-listed :
    (x : ArpAnswers) {t : ArpState}
    → get_arp_table x ≡ returns t
    → t.entries ≡ flat_map listed (before_end (dump_of x))
unfolding get_arp_table flat_map
get_arp_table-listed x h = elim (Bool-cases (is_neg x.socket)) [
  | inl e ↦
      simp e (
        ap (λ (y : ArpState). y.entries) (sym (returns_injective _ _ (rw (e, get_arp_table) at h))))
  | inr e ↦ elim (Bool-cases (is_neg x.send)) [
    | inl f ↦
        simp (e, f)
          (ap (λ (y : ArpState). y.entries)
            (sym (returns_injective _ _ (rw (e, f, get_arp_table) at h))))
    | inr f ↦
        simp (e, f)
          (receive_loop_entries x.socket x.datagrams no_entries (rw (e, f, get_arp_table) at h))
  ]
]
