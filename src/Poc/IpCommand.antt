-- ===== src/Poc/IpCommand.antt =====
-- POC/IP_COMMAND/main.c: the trial from which src/lib/ip_command.c was made, with the program around
-- it. What the kernel and libnetlink answer is an input; a result of -1 is `none` or `false`.
pub mod Laws
use benker_vpn.Base.{
  ℕ, Bool, true, false, not, Option, none, some, List, [], ◌∷◌, ◌++◌, if◌then◌else◌, Run, ok, fault,
  out_of_fuel, ◌>>=◌,
}
use benker_vpn.Packet.{Buffer}
use benker_vpn.Net.{Call, call_close, Descriptor, no_socket, unbound, bound, fill}
use benker_vpn.Tunnel
use benker_vpn.Tunnel.{
  Flags, flag_bits, ControlAnswers, differs, masked, iff_up, Request, SetupAnswers, Event, Netlink,
  Talk,
}
use benker_vpn.Client.{TunRead, packet}
use benker_vpn.Hex.{print_chars}

-- As in src/lib/ip_command.c, but for a line that is printed.
unfoldable pub get_ctl_fd : ControlAnswers → Option ℕ
get_ctl_fd a = Tunnel.get_ctl_fd a

-- Whether it succeeded, the flags that were written, and the calls of `close`.
pub record Change : Type 0 where
  pub success : Bool
  pub written : Option Flags
  pub calls : List Call

-- With the flags of the interface. `err` is what the second `ioctl` gives, or 0.
unfoldable pub change_flags : ℕ → Bool → Flags → Flags → Flags → Change
unfolding differs masked
change_flags fd accepts flags mask old =
    if differs flag_bits old flags mask
    then record {
      success = accepts;
      written = if accepts then some (masked old flags mask) else none;
      calls = call_close fd ∷ [];
    }
    else record { success = true; written = none; calls = call_close fd ∷ [] }

-- What follows the first `ioctl`, by the flags that it gives.
unfoldable pub with_flags : ControlAnswers → Flags → Flags → ℕ → Option Flags → Change
unfolding change_flags
with_flags a flags mask fd none = record {
  success = false;
  written = none;
  calls = call_close fd ∷ [];
}
with_flags a flags mask fd (some old) = change_flags fd a.accepts flags mask old

-- What follows `get_ctl_fd`, by its result.
unfoldable pub with_socket : ControlAnswers → Flags → Flags → Option ℕ → Change
unfolding with_flags
with_socket a flags mask none = record { success = false; written = none; calls = [] }
with_socket a flags mask (some fd) = with_flags a flags mask fd a.get_flags

unfoldable pub do_chflags : ControlAnswers → Flags → Flags → Change
unfolding get_ctl_fd with_socket
do_chflags a flags mask = with_socket a flags mask (get_ctl_fd a)

-- `open` and `ioctl(TUNSETIFF)`: the result and the calls of `close`.
unfoldable pub add_tun : Descriptor → Option ℕ × List Call
add_tun no_socket = (none, [])
add_tun (unbound fd) = (none, call_close fd ∷ [])
add_tun (bound fd) = (some fd, [])

unfoldable pub set_int_up : ControlAnswers → Change
unfolding do_chflags
set_int_up a = do_chflags a iff_up iff_up

-- The two requests are those of src/lib/ip_command.c.
unfoldable pub set_default_route : Option Netlink → Talk
set_default_route rth = Tunnel.set_default_route rth

unfoldable pub set_default_ip_addr : Option Netlink → (index : ℕ) → Talk
set_default_ip_addr rth index = Tunnel.set_default_ip_addr rth index

-- The `while` loop, on what the reads of the tunnel give: the lines that are printed. It ends with a
-- read that failed; a list of answers that is too short is no behaviour.
unfoldable pub print_packets : Buffer → List TunRead → Run (List (List ℕ))
unfolding fill print_chars
print_packets b [] = fault out_of_fuel
print_packets b (TunRead.failed errno ∷ rest) = ok []
print_packets b (packet msg size ∷ rest) = do
  let b' = fill msg size b
  lines ← print_packets b' rest
  ok (print_chars b' 0 size ∷ lines)

-- `exited` is `exit(-1)`.
pub data Status : Type 0 where
  finished exited : Status

-- How the program ends, with its calls of `close`, what `rtnl_open` and `rtnl_close` open and close, its
-- requests, the results of these that it prints, and the lines of packets.
pub record Outcome : Type 0 where
  pub status : Status
  pub closed : List Call
  pub netlink : List Event
  pub requests : List Request
  pub results : List Bool
  pub lines : List (List ℕ)

-- With the interface up.
configure : SetupAnswers → List Call → Buffer → List TunRead → Run Outcome
unfolding set_default_route set_default_ip_addr print_packets
configure a closed b reads = do
  let (addressed, addr_events, addr_request) = set_default_ip_addr a.addr a.index
  let (routed, route_events, route_request) = set_default_route a.route
  lines ← print_packets b reads
  ok (record {
    status = finished;
    closed = closed;
    netlink = addr_events ++ route_events;
    requests = addr_request ++ route_request;
    results = addressed ∷ routed ∷ [];
    lines = lines;
  })

-- What follows `add_tun`, by its result.
after_add : SetupAnswers → Option ℕ × List Call → Buffer → List TunRead → Run Outcome
unfolding set_int_up configure
after_add a (none, closed) b reads = ok (record {
  status = exited;
  closed = closed;
  netlink = [];
  requests = [];
  results = [];
  lines = [];
})
after_add a (some fd, closed) b reads =
    let up = set_int_up a.control in
    if not up.success
    then ok (record {
      status = exited;
      closed = closed ++ up.calls;
      netlink = [];
      requests = [];
      results = [];
      lines = [];
    })
    else configure a (closed ++ up.calls) b reads

unfoldable pub main : SetupAnswers → Buffer → List TunRead → Run Outcome
unfolding add_tun after_add
main a b reads = after_add a (add_tun a.tun) b reads
