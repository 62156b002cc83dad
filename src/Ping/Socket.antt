-- ===== src/Ping/Socket.antt =====
-- `initialize_socket` and `wait_for_socket_writable`. Each system call's answer is an argument: its
-- result and the value of `errno`.
pub mod Cleanup
use netscan.Base.{
  Bool, List, Option, [], eqb_ℤ, false, if◌then◌else◌, is_neg, is_zero, minus_one, none, not, some,
  true, ℤ, ◌&&◌, ◌∷◌,
}
use netscan.Sys.{Errno, is_unsupported, is_eintr, Outcome, returns, throws, pending, ◌>>=◌}

pub record Answer : Type 0 where
  pub value : ℤ
  pub errno : Errno

-- `opened` lists the descriptors that the process has opened here and not closed.
pub record Sockets : Type 0 where
  pub sock : ℤ
  pub epoll_fd : ℤ
  pub opened : List ℤ

pub record SocketAnswers : Type 0 where
  pub socket : Answer
  pub get_flags : Answer
  pub set_flags : Answer
  pub set_sndbuf : Answer
  pub set_rcvbuf : Answer
  pub set_timestampns : Answer
  pub set_rxq_ovfl : Answer
  pub set_recvttl : Answer
  pub epoll_create : Answer
  pub epoll_add : Answer

unfoldable pub close_fd : ℤ → List ℤ → List ℤ
close_fd fd [] = []
close_fd fd (x ∷ xs) = if eqb_ℤ x fd then xs else x ∷ close_fd fd xs

-- `close(sock_); sock_ = -1; throw …`: the error is the second component.
unfoldable pub drop_socket : Sockets → Errno → Sockets × Option Errno
drop_socket s e = (record s { sock = minus_one; opened = close_fd s.sock s.opened }, some e)

-- A call that must succeed, and one that the kernel may not support.
pub data Step : Type 0 where
  must may : Answer → Step

unfoldable pub fails : Step → Bool
fails (must a) = is_neg a.value
fails (may a) = is_neg a.value && not (is_unsupported a.errno)

abbrev pub errno_of : Step → Errno
errno_of (must a) = a.errno
errno_of (may a) = a.errno

-- The calls in their order, up to the first that fails.
unfoldable pub configure : List Step → Sockets → Sockets × Option Errno
configure [] s = (s, none)
configure (step ∷ rest) s = if fails step then drop_socket s (errno_of step) else configure rest s

-- The last two calls: `epoll_create1` and the registration of the socket.
unfoldable pub initialize_epoll : SocketAnswers → Sockets → Sockets × Option Errno
initialize_epoll a s =
    if is_neg a.epoll_create.value
    then drop_socket (record s { epoll_fd = a.epoll_create.value }) a.epoll_create.errno
    else let t = record s {
      epoll_fd = a.epoll_create.value;
      opened = a.epoll_create.value ∷ s.opened;
    } in
      if is_neg a.epoll_add.value
      then drop_socket (record t { epoll_fd = minus_one; opened = close_fd t.epoll_fd t.opened })
          a.epoll_add.errno
      else (t, none)

unfoldable pub steps : SocketAnswers → List Step
steps a =
    must a.get_flags
    ∷ must a.set_flags
    ∷ must a.set_sndbuf
    ∷ must a.set_rcvbuf
    ∷ may a.set_timestampns
    ∷ may a.set_rxq_ovfl
    ∷ must a.set_recvttl
    ∷ []

unfoldable pub and_epoll : SocketAnswers → Sockets × Option Errno → Sockets × Option Errno
and_epoll a (s, none) = initialize_epoll a s
and_epoll a (s, some e) = (s, some e)

unfoldable pub initialize_socket : SocketAnswers → Sockets × Option Errno
initialize_socket a =
    if is_neg a.socket.value
    then (record { sock = a.socket.value; epoll_fd = minus_one; opened = [] }, some a.socket.errno)
    else and_epoll a (
        configure (steps a)
          (record { sock = a.socket.value; epoll_fd = minus_one; opened = a.socket.value ∷ [] }))

-- `~PingScanner`
unfoldable pub destroy : Sockets → Sockets
destroy s =
    let t = if is_neg s.sock then s else record s { opened = close_fd s.sock s.opened } in
    if is_neg s.epoll_fd then t else record t { opened = close_fd s.epoll_fd t.opened }

-- One return of `epoll_wait`: the count, and whether EPOLLOUT, or EPOLLERR or EPOLLHUP, is set.
pub record WaitAnswer : Type 0 where
  pub count : ℤ
  pub errno : Errno
  pub writable : Bool
  pub broken : Bool

pub record WaitAnswers : Type 0 where
  pub mod_out : Answer
  pub waits : List WaitAnswer
  pub mod_in : Answer

unfoldable pub wait_loop : List WaitAnswer → Outcome Bool
wait_loop [] = pending
wait_loop (a ∷ rest) =
    let again = wait_loop rest in
    if is_neg a.count
    then (if is_eintr a.errno then again else throws a.errno)
    else if is_zero a.count
    then returns false
    else if a.writable
    then returns true
    else if a.broken
    then returns false
    else again

unfoldable pub wait_for_socket_writable : WaitAnswers → Outcome Bool
wait_for_socket_writable w =
    if is_neg w.mod_out.value
    then throws w.mod_out.errno
    else wait_loop w.waits >>= λ writable.
        if is_neg w.mod_in.value then throws w.mod_in.errno else returns writable
