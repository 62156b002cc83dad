-- ===== src/Arp/Closed.antt =====
-- The calls of `close` in `get_arp_table`.
use netscan.Base.{
  Bool, Bool-cases, Bytes, List, [], ap, arith, false, if◌then◌else◌, inl, inr, is_neg, refl, sym,
  true, ℕ, ℤ, ◌∙◌, ◌∷◌, ◌≡◌, ◌⊎◌,
}
use netscan.Sys.{is_eintr, returns, returns_injective, pending-ne-returns}
use netscan.Arp.{
  Message, MessageType, handle_message, ArpState, no_entries, close_sock, add_neighbour,
  parse_netlink_message, parse_messages, Datagram, receive_loop, ArpAnswers, get_arp_table,
  nlmsg_done, nlmsg_error, rtm_newneigh, other,
}

-- The loop goes on with the socket open, or stops after one call of `close`.
abbrev Closing : ℤ → ArpState → Bool × ArpState → Type 0
Closing sock s r =
    ((r.0 ≡ true) × (r.1.closes ≡ s.closes)) ⊎ ((r.0 ≡ false) × (r.1.closes ≡ sock ∷ s.closes))

add_neighbour_closes :
    (m : Message) (r : ℕ × Bytes) (s : ArpState) → (add_neighbour m r s).closes ≡ s.closes
unfolding add_neighbour
add_neighbour_closes m (ip, mac) s = ground arith

message-Closing :
    (k : MessageType) (sock : ℤ) (m : Message) (s : ArpState)
    → Closing sock s (handle_message k sock m s)
unfolding handle_message
message-Closing nlmsg_done sock m s = inr (refl, refl)
message-Closing nlmsg_error sock m s = inr (refl, refl)
message-Closing rtm_newneigh sock m s = elim (Bool-cases m.is_inet) [
  | inl e ↦ simp e (inl (refl, add_neighbour_closes m _ s))
  | inr e ↦ simp e (inl (refl, refl))
]
message-Closing other sock m s = inl (refl, refl)

messages-Closing :
    (sock : ℤ) (ms : List Message) (s : ArpState) → Closing sock s (parse_messages sock ms s)
unfolding parse_messages
messages-Closing sock [] s = inl (refl, refl)
messages-Closing sock (m ∷ ms) s = elim (message-Closing m.nlmsg_type sock m s) [
  | inr (stop, e) ↦ rw (stop, parse_messages) (inr (refl, e))
  | inl (more, e) ↦ elim (messages-Closing sock ms (parse_netlink_message sock m s).1) [
    | inl (f, g) ↦ rw (more, parse_messages) (inl (f, g ∙ e))
    | inr (f, g) ↦ rw (more, parse_messages) (inr (f, g ∙ ap (λ (l : List ℤ). sock ∷ l) e))
  ]
]

receive_loop_closes :
    (sock : ℤ) (ds : List Datagram) (s : ArpState) {t : ArpState}
    → receive_loop sock ds s ≡ returns t
    → t.closes ≡ sock ∷ s.closes
unfolding receive_loop
receive_loop_closes sock [] s h = absurd (pending-ne-returns h)
receive_loop_closes sock (d ∷ ds) s h = elim (Bool-cases (is_neg d.len)) [
  | inl failed ↦ elim (Bool-cases (is_eintr d.errno)) [
    | inl again ↦ receive_loop_closes sock ds s (rw (failed, again, receive_loop) at h)
    | inr given_up ↦ closed (rw (failed, given_up, receive_loop) at h)
  ]
  | inr read ↦ elim (Bool-cases d.is_truncated) [
    | inl cut ↦ closed (rw (read, cut, receive_loop) at h)
    | inr whole ↦ elim (messages-Closing sock d.messages s) [
      | inl (more, e) ↦
          receive_loop_closes sock ds (parse_messages sock d.messages s).1
            (rw (read, whole, more, receive_loop) at h)
          ∙ ap (λ (l : List ℤ). sock ∷ l) e
      | inr (stop, e) ↦
          ap (λ (x : ArpState). x.closes)
            (sym (returns_injective _ _ (rw (read, whole, stop, receive_loop) at h)))
          ∙ e
    ]
  ]
]
  where
    closed : {t : ArpState} → returns (close_sock sock s) ≡ returns t → t.closes ≡ sock ∷ s.closes
    closed e = ap (λ (x : ArpState). x.closes) (sym (returns_injective _ _ e))

-- Whatever the kernel answers: when `get_arp_table` returns, it has called `close` exactly once, on
-- its socket, or not at all if no socket was opened.
pub get_arp_table_closes :
    (x : ArpAnswers) {t : ArpState}
    → get_arp_table x ≡ returns t
    → t.closes ≡ (if is_neg x.socket then [] else x.socket ∷ [])
unfolding get_arp_table
get_arp_table_closes x h = elim (Bool-cases (is_neg x.socket)) [
  | inl e ↦
      rw e
        (ap (λ (y : ArpState). y.closes) (sym (returns_injective _ _ (rw (e, get_arp_table) at h))))
  | inr e ↦ elim (Bool-cases (is_neg x.send)) [
    | inl f ↦ rw e (
        ap (λ (y : ArpState). y.closes)
          (sym (returns_injective _ _ (rw (e, f, get_arp_table) at h))))
    | inr f ↦
        rw e (receive_loop_closes x.socket x.datagrams no_entries (rw (e, f, get_arp_table) at h))
  ]
]
