-- ===== src/Net/Open.antt =====
-- Which descriptors src/lib/udp.c and src/lib/vpn_raw_sock.c leave open.
use benker_vpn.Base.{
  ℕ, ◌≡◌, refl, none, some, List, [], ◌∷◌, ◌==◌, if◌then◌else◌, ◌⊎◌, inl, inr, ==_refl,
}
use benker_vpn.Net.{
  Call, call_close, Descriptor, no_socket, unbound, bound, get_udp_socket_server,
  get_vpn_raw_socket,
}

-- The descriptor that `socket` gave.
abbrev pub given : Descriptor → List ℕ
given no_socket = []
given (unbound fd) = fd ∷ []
given (bound fd) = fd ∷ []

abbrev without : ℕ → List ℕ → List ℕ
without fd [] = []
without fd (x ∷ xs) = if fd == x then without fd xs else x ∷ without fd xs

abbrev close_one : List ℕ → Call → List ℕ
close_one fds (call_close fd) = without fd fds
close_one fds _ = fds

-- What is left of the open descriptors after the calls.
abbrev pub still_open : List ℕ → List Call → List ℕ
still_open fds [] = fds
still_open fds (c ∷ cs) = still_open (close_one fds c) cs

-- `get_vpn_raw_socket` leaves open what it returns, and nothing where it fails.
pub get_vpn_raw_socket_open :
    (d : Descriptor)
    → let (ret, calls) = get_vpn_raw_socket d in
      ((fd : ℕ) × (ret ≡ some fd) × (still_open (given d) calls ≡ fd ∷ []))
      ⊎ ((ret ≡ none) × (still_open (given d) calls ≡ []))
unfolding get_vpn_raw_socket
get_vpn_raw_socket_open no_socket = inr (refl, refl)
get_vpn_raw_socket_open (unbound fd) = inr (refl, rw (==_refl fd) refl)
get_vpn_raw_socket_open (bound fd) = inl (fd, refl, refl)

-- `get_udp_socket_server` leaves open what it returns; where it fails, nothing, or the socket that could
-- not be bound.
pub get_udp_socket_server_open :
    (port : ℕ) (d : Descriptor)
    → let (ret, calls) = get_udp_socket_server port d in
      ((fd : ℕ) × (ret ≡ some fd) × (still_open (given d) calls ≡ fd ∷ []))
      ⊎ ((ret ≡ none)
          × ((still_open (given d) calls ≡ [])
              ⊎ ((fd : ℕ) × (d ≡ unbound fd) × (still_open (given d) calls ≡ fd ∷ []))))
unfolding get_udp_socket_server
get_udp_socket_server_open port no_socket = inr (refl, inl refl)
get_udp_socket_server_open port (unbound fd) = inr (refl, inr (fd, refl, refl))
get_udp_socket_server_open port (bound fd) = inl (fd, refl, refl)
