-- ===== src/Ping/Socket/Cleanup.antt =====
-- The descriptors that `initialize_socket` opens, on its error exits and up to the destructor.
use netscan.Base.{
  Bool-cases, List, Option, [], ap, eqb_ℤ, eqb_ℤ_iff, false, inl, inr, is_neg, none, refl, some,
  subst, sym, true, ℤ, ◌∙◌, ◌∷◌, ◌≡◌, ◌⊎◌,
}
use netscan.Sys.{Errno}
use netscan.Ping.Socket.{
  Sockets, SocketAnswers, close_fd, drop_socket, Step, fails, errno_of, configure, steps, and_epoll,
  initialize_epoll, initialize_socket, destroy,
}

-- On success both descriptors are valid and the destructor closes all; after a throw nothing is open
-- and `sock_` is not a descriptor.
abbrev pub Clean : Sockets × Option Errno → Type 0
Clean r =
    ((r.1 ≡ none)
      × (is_neg r.0.sock ≡ false)
      × (is_neg r.0.epoll_fd ≡ false)
      × ((destroy r.0).opened ≡ []))
    ⊎ ((e : Errno) × (r.1 ≡ some e) × (is_neg r.0.sock ≡ true) × (r.0.opened ≡ []))

-- The state while only the socket is open.
record IsOpen (s : Sockets) : Type 0 where
  valid : is_neg s.sock ≡ false
  only : s.opened ≡ s.sock ∷ []

pub close_own : (fd : ℤ) (rest : List ℤ) → close_fd fd (fd ∷ rest) ≡ rest
unfolding close_fd
close_own fd rest = simp ((eqb_ℤ_iff fd fd).1 refl)

close_other : (fd sock : ℤ) → eqb_ℤ fd sock ≡ false → close_fd sock (fd ∷ sock ∷ []) ≡ fd ∷ []
unfolding close_fd
close_other fd sock e = rw (e) (ap (◌∷◌ fd) (close_own sock []))

drop-Clean : (s : Sockets) (e : Errno) → s.opened ≡ s.sock ∷ [] → Clean (drop_socket s e)
unfolding drop_socket
drop-Clean s e o = inr (e, refl, refl, ap (close_fd s.sock) o ∙ close_own s.sock [])

-- After the calls the socket is open, or all is closed.
abbrev Configured : Sockets → Sockets × Option Errno → Type 0
Configured s r = (r ≡ (s, none)) ⊎ ((e : Errno) × (r ≡ drop_socket s e))

configure-Configured : (xs : List Step) (s : Sockets) → Configured s (configure xs s)
unfolding configure
configure-Configured [] s = inl refl
configure-Configured (x ∷ xs) s = elim (Bool-cases (fails x)) [
  | inl e ↦ rw (e, configure) (inr (errno_of x, refl))
  | inr e ↦ rw (e, configure) (configure-Configured xs s)
]

-- Closing the two descriptors in the order of the destructor.
close_both : (fd sock : ℤ) → close_fd fd (close_fd sock (fd ∷ sock ∷ [])) ≡ []
close_both fd sock = elim (Bool-cases (eqb_ℤ fd sock)) [
  | inl e ↦
      subst (λ (x : ℤ). close_fd x (close_fd sock (x ∷ sock ∷ [])) ≡ [])
        (sym ((eqb_ℤ_iff fd sock).0 e))
        (ap (close_fd sock) (close_own sock (sock ∷ [])) ∙ close_own sock [])
  | inr e ↦ ap (close_fd fd) (close_other fd sock e) ∙ close_own fd []
]

closes :
    (s : Sockets) (fd : ℤ)
    → IsOpen s
    → is_neg fd ≡ false
    → (destroy (record s { epoll_fd = fd; opened = fd ∷ s.opened })).opened ≡ []
unfolding destroy
closes s fd v e = rw (v.valid, e, v.only) (close_both fd s.sock)

epoll-Clean : (a : SocketAnswers) (s : Sockets) → IsOpen s → Clean (initialize_epoll a s)
unfolding initialize_epoll
epoll-Clean a s v = elim (Bool-cases (is_neg a.epoll_create.value)) [
  | inl e ↦
      rw (e, initialize_epoll)
        (drop-Clean (record s { epoll_fd = a.epoll_create.value }) a.epoll_create.errno v.only)
  | inr e ↦ elim (Bool-cases (is_neg a.epoll_add.value)) [
    | inl f ↦
        rw (e, initialize_epoll, f)
          (drop-Clean _ a.epoll_add.errno (close_own a.epoll_create.value s.opened ∙ v.only))
    | inr f ↦
        rw (e, initialize_epoll, f) (inl (refl, v.valid, e, closes s a.epoll_create.value v e))
  ]
]

and_epoll-Clean :
    (a : SocketAnswers) (s : Sockets) (r : Sockets × Option Errno)
    → IsOpen s
    → Configured s r
    → Clean (and_epoll a r)
unfolding and_epoll drop_socket
and_epoll-Clean a s r v (inl e) =
    subst (λ (x : Sockets × Option Errno). Clean (and_epoll a x)) (sym e) (epoll-Clean a s v)
and_epoll-Clean a s r v (inr (x, e)) =
    subst (λ (y : Sockets × Option Errno). Clean (and_epoll a y)) (sym e) (drop-Clean s x v.only)

-- Whatever the kernel answers, `initialize_socket` either succeeds with two valid descriptors, which
-- the destructor closes, or reports an error with nothing left open and `sock_` no descriptor.
pub initialize_socket-Clean : (a : SocketAnswers) → Clean (initialize_socket a)
unfolding initialize_socket
initialize_socket-Clean a = elim (Bool-cases (is_neg a.socket.value)) [
  | inl e ↦ rw (e, initialize_socket) (inr (a.socket.errno, refl, e, refl))
  | inr e ↦
      rw (e, initialize_socket)
        (and_epoll-Clean a _ _ (record { valid = e; only = refl })
          (configure-Configured (steps a) _))
]
