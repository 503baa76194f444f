-- ===== src/Trials/Polling.antt =====
-- `main2` of src/server/main_trial.c and src/client/main_trial.c: messages of a UDP socket are reported.
-- `main2` calls `get_udp_socket_server` with the argument of an older version, which is not in the
-- repository: it is a parameter.
use benker_vpn.Base.{
  ℕ, zero, suc, ◌∷◌, ◌++◌, ltb, if◌then◌else◌, Option, none, some, List, [], Run, ok, fault,
  out_of_fuel, ◌>>=◌,
}
use benker_vpn.Packet.{Buffer}
use benker_vpn.Net.{
  Received, SockaddrIn, af_inet, inaddr_any, htons, Call, Descriptor, read_msg_udp,
  get_udp_socket_server,
}
use benker_vpn.Client.{no_addr}
use benker_vpn.Tunnel.{SetupAnswers, setup_tun}
use benker_vpn.Poc.TunTap.{close_of}

abbrev local_port : ℕ
local_port = 8080

abbrev laddr : SockaddrIn
laddr = record { sin_family = af_inet; sin_port = htons local_port; sin_addr = inaddr_any }

module _ (eagain ewouldblock : ℕ) where
  -- The `while` loop, on what the reads of the socket give: the sender and the size of each message, and
  -- the calls of `close`. It ends with a read that failed for want of more than a message.
  unfoldable pub poll_messages :
      (fd : Option ℕ)
      → Buffer
      → SockaddrIn
      → List Received
      → Run (List (SockaddrIn × ℕ) × List Call)
  unfolding read_msg_udp
  poll_messages fd b raddr [] = fault out_of_fuel
  poll_messages fd b raddr (answer ∷ rest) =
      let (ret, b', raddr') = read_msg_udp eagain ewouldblock b raddr answer in
      let next = poll_messages fd b' raddr' rest in
      elim ret [
        | none ↦ ok ([], [])
        | some total_read ↦ do
          (seen, calls) ← next
          ok (
            (raddr', total_read) ∷ seen,
            if ltb 10 total_read then close_of fd ++ calls else calls,
          )
      ]

  -- The client's trial: `none` is `return -1`, which every result of `setup_tun` but 0 leads to.
  unfoldable pub client_main :
      SetupAnswers
      → Descriptor
      → Buffer
      → List Received
      → Run (Option (List (SockaddrIn × ℕ) × List Call))
  unfolding poll_messages get_udp_socket_server setup_tun
  client_main tun udp b reads = elim (setup_tun tun).0 [
    | some (suc fd) ↦ ok none
    | none ↦ ok none
    | some zero ↦ do
      let (fd, calls) = get_udp_socket_server local_port udp
      (seen, closed) ← poll_messages fd b no_addr reads
      ok (some (seen, calls ++ closed))
  ]

  module _ (get_udp_socket_server : SockaddrIn → Option ℕ × List Call) where
    unfoldable pub main2 : Buffer → List Received → Run (List (SockaddrIn × ℕ) × List Call)
    unfolding poll_messages
    main2 b reads = do
      let (fd, calls) = get_udp_socket_server laddr
      (seen, closed) ← poll_messages fd b no_addr reads
      ok (seen, calls ++ closed)
