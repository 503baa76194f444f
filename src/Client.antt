-- ===== src/Client.antt =====
-- The loop of src/client/main.c. What the kernel answers is an input, prints are left out.
pub mod Relay
pub mod InOrder
use benker_vpn.Base.{
  ℕ, zero, suc, Bool, true, false, Option, none, some, List, [], ◌∷◌, ◌++◌, if◌then◌else◌,
}
use benker_vpn.Packet.{Buffer}
use benker_vpn.Net.{
  Received, SockaddrIn, inaddr_any, unset, Call, fill, poll_error, read_msg_udp, fill_port_ip,
  get_udp_socket_client,
}
use benker_vpn.Tunnel.{SetupAnswers, setup_tun}

-- `struct vpn_client`; `none` is a descriptor of -1.
pub record VpnClient : Type 0 where
  pub buf : Buffer
  pub buf_len : ℕ
  pub raddr : SockaddrIn
  pub udpfd : Option ℕ
  pub tunfd : Option ℕ

-- `parsed` is the address that `inet_aton` reads from "127.0.0.1", `udp` what `socket` gives, and `tun`
-- the answers to `setup_tun`. No result is looked at.
unfoldable pub init_vpn_client :
    VpnClient → (parsed udp : Option ℕ) → (tun : SetupAnswers) → VpnClient
init_vpn_client c parsed udp tun = record c {
  buf_len = 9000;
  raddr = (fill_port_ip c.raddr 8080 parsed).1;
  udpfd = (get_udp_socket_client udp).0;
  tunfd = (setup_tun tun).0;
}

-- A `NULL` for the sender's address: nothing reads it.
abbrev pub no_addr : SockaddrIn
no_addr = record { sin_family = unset; sin_port = 0; sin_addr = inaddr_any }

-- What `read` answers on the tunnel: an error number, or a packet and its size.
pub data TunRead : Type 0 where
  failed : ℕ → TunRead
  packet : Buffer → ℕ → TunRead

-- The kernel's answers in one round.
pub record Answers : Type 0 where
  pub tun : TunRead
  pub server_accepts : Bool
  pub udp : Received
  pub tun_accepts : Bool

pub data Sent : Type 0 where
  to_server : Buffer → ℕ → Sent
  to_tun : Buffer → ℕ → Sent

-- `exited` is `exit(-1)`; the packets sent and the buffer come with it.
pub data Status : Type 0 where
  running exited : Status

abbrev pub Result : Type 0
Result = Status × List Sent × Buffer

unfoldable pub after_send : Bool → Sent → Buffer → Result
after_send true sent b = (running, sent ∷ [], b)
after_send false sent b = (exited, [], b)

module _ (eagain ewouldblock : ℕ) where
  -- A `read` that failed.
  unfoldable pub tun_error : Option ℕ → Buffer → Result
  tun_error none b = (exited, [], b)
  tun_error (some n) b = (running, [], b)

  -- What follows `read`, by what it gave.
  unfoldable pub up_read : Buffer → Bool → TunRead → Result
  unfolding tun_error after_send fill
  up_read b accepts (failed errno) = tun_error (poll_error eagain ewouldblock errno) b
  up_read b accepts (packet msg size) =
      let b' = fill msg size b in after_send accepts (to_server b' size) b'

  -- From the top of the loop to `NEXT`.
  unfoldable pub relay_up : Buffer → Answers → Result
  unfolding up_read
  relay_up b a = up_read b a.server_accepts a.tun

  -- What follows `read_msg_udp`, by its result.
  unfoldable pub down_read : Buffer → Bool → Option ℕ → Result
  unfolding after_send
  down_read b accepts none = (exited, [], b)
  down_read b accepts (some zero) = (running, [], b)
  down_read b accepts (some (suc n)) = after_send accepts (to_tun b (suc n)) b

  -- From `NEXT` to the end of the loop. The sender's address is not asked for.
  unfoldable pub relay_down : Buffer → Answers → Result
  unfolding down_read
  relay_down b a =
      let (ret, b', raddr) = read_msg_udp eagain ewouldblock b no_addr a.udp in
      down_read b' a.tun_accepts ret

  unfoldable pub continue_with : Result → (Buffer → Result) → Result
  continue_with (exited, sent, b) next = (exited, sent, b)
  continue_with (running, sent, b) next =
      let (status, sent', b') = next b in (status, sent ++ sent', b')

  unfoldable pub relay_round : Buffer → Answers → Result
  unfolding relay_up relay_down continue_with
  relay_round b a = continue_with (relay_up b a) (λ b'. relay_down b' a)

  -- The `while` loop, for as many rounds as there are answers.
  unfoldable pub relay : Buffer → List Answers → Result
  unfolding relay_round continue_with
  relay b [] = (running, [], b)
  relay b (a ∷ rest) = continue_with (relay_round b a) (λ b'. relay b' rest)
