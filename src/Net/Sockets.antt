-- ===== src/Net/Sockets.antt =====
-- src/utils/NetworkUtils.cpp: what becomes of a socket when a call that follows fails.
use epoll_http_server.Base.{
  not, leb, length, ◌<◌, ◌≡◌, ◌⊎◌, inl, inr, refl, true, false, [], ◌∷◌, Bytes, if◌then◌else◌, ℤ,
  is_negative, minus_one, arith,
}
use epoll_http_server.Exec.Sys.{Errno}
use epoll_http_server.Net.{
  Connect, SocketAnswers, Opened, connecting, socket_connect_non_block,
  socket_connect_unix_non_block, socket_listen, gone, sun_path_size,
}

-- A function returns the socket, which stays open, or -1, with the socket closed; without a socket it
-- reports no connection.
unfoldable pub IsNotLost : ℤ → Opened → Type 0
IsNotLost sock o =
    ((o.result ≡ sock) × (o.closed ≡ []))
    ⊎ ((o.result ≡ minus_one) × (o.is_connected ≡ false) × (o.closed ≡ sock ∷ []))

connecting-IsNotLost : (sock : ℤ) (c : Connect) → IsNotLost sock (connecting sock c)
unfolding connecting IsNotLost
connecting-IsNotLost sock Connect.connected = inl (refl, refl)
connecting-IsNotLost sock (Connect.refused Errno.einprogress) = inl (refl, refl)
connecting-IsNotLost sock (Connect.refused e) = inr (refl, refl, refl)

-- The calls behind socket(2) in `socketListen`.
listening-IsNotLost :
    (a : SocketAnswers)
    → IsNotLost a.socket (
        if not a.setsockopt
        then gone (a.socket ∷ [])
        else if not a.bind
        then gone (a.socket ∷ [])
        else if not a.listen
        then gone (a.socket ∷ [])
        else record { result = a.socket; is_connected = false; closed = [] })
unfolding IsNotLost
listening-IsNotLost a = ground arith

-- If socket(2) returns a descriptor, then socketConnectNonBlock, socketConnectUnixNonBlock for a path
-- that fits the address, and socketListen each return it, open, or close it and return -1, whatever
-- the calls that follow answer; and if socket(2) fails, each returns -1 and closes nothing.
pub socket_functions-keep :
    (a : SocketAnswers) (path : Bytes)
    → length path < sun_path_size
    → (is_negative a.socket ≡ false
        → IsNotLost a.socket (socket_connect_non_block a)
          × IsNotLost a.socket (socket_connect_unix_non_block a path)
          × IsNotLost a.socket (socket_listen a))
      × (is_negative a.socket ≡ true
          → (socket_connect_non_block a ≡ gone [])
            × (socket_connect_unix_non_block a path ≡ gone [])
            × (socket_listen a ≡ gone []))
unfolding socket_connect_non_block socket_connect_unix_non_block socket_listen
socket_functions-keep a path fits =
    let short : leb sun_path_size (length path) ≡ false = ground (arith, fits) in
    (
      (λ valid.
          rw (valid, short)
            (
              connecting-IsNotLost a.socket a.connect,
              connecting-IsNotLost a.socket a.connect,
              listening-IsNotLost a,
            )),
      (λ failed. rw (failed, short) (refl, refl, refl)),
    )
