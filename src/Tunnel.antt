-- ===== src/Tunnel.antt =====
-- The set-up of the tunnel: src/lib/ip_command.c. What the kernel and libnetlink answer is an input;
-- a result of -1 is `none` or `false`. Each function says which descriptors it opens and closes.
pub mod Descriptors
use benker_vpn.Base.{
  ℕ, zero, suc, Bool, true, false, not, ◌&&◌, ◌||◌, Option, none, some, List, [], ◌∷◌, ◌++◌,
  if◌then◌else◌,
}
use benker_vpn.Net.{Descriptor, no_socket, unbound, bound}

-- What happens to descriptors: `socket`, `open` or `rtnl_open` gives one, `close` or `rtnl_close` gives
-- it back.
pub data Event : Type 0 where
  opens closes : ℕ → Event

-- A word of flags, bit by bit.
abbrev pub Flags : Type 0
Flags = ℕ → Bool

-- `ifr_flags` is a `short`.
abbrev pub flag_bits : ℕ
flag_bits = 16

-- What the calls of `get_ctl_fd` and the two `ioctl` calls give.
pub record ControlAnswers : Type 0 where
  pub inet : Option ℕ
  pub packet : Option ℕ
  pub inet6 : Option ℕ
  pub get_flags : Option Flags
  pub accepts : Bool

unfoldable pub get_ctl_fd : ControlAnswers → Option ℕ
get_ctl_fd a = elim a.inet [
  | some fd ↦ some fd
  | none ↦ elim a.packet [ some fd ↦ some fd | none ↦ a.inet6 ]
]

-- `(ifr_flags ^ flags) & mask`, below bit `n`.
unfoldable pub differs : ℕ → Flags → Flags → Flags → Bool
differs zero old flags mask = false
differs (suc n) old flags mask =
    let differ = (old n && not (flags n)) || (not (old n) && flags n) in
    (differ && mask n) || differs n old flags mask

-- `ifr_flags &= ~mask; ifr_flags |= mask & flags;`
unfoldable pub masked : Flags → Flags → Flags → Flags
masked old flags mask i = (old i && not (mask i)) || (mask i && flags i)

-- Whether it succeeded, the flags that were written, and what it opens and closes.
pub record Change : Type 0 where
  pub success : Bool
  pub written : Option Flags
  pub events : List Event

-- With a control socket and the flags of the interface. A refused change returns in front of `close`.
unfoldable pub change_flags : ℕ → Bool → Flags → Flags → Flags → Change
unfolding differs masked
change_flags fd accepts flags mask old =
    if differs flag_bits old flags mask
    then (if accepts
        then record {
          success = true;
          written = some (masked old flags mask);
          events = opens fd ∷ closes fd ∷ [];
        }
        else record { success = false; written = none; events = opens fd ∷ [] })
    else record { success = true; written = none; events = opens fd ∷ closes fd ∷ [] }

-- What follows the first `ioctl`, by the flags that it gives.
unfoldable pub with_flags : ControlAnswers → Flags → Flags → ℕ → Option Flags → Change
unfolding change_flags
with_flags a flags mask fd none = record { success = false; written = none; events = opens fd ∷ [] }
with_flags a flags mask fd (some old) = change_flags fd a.accepts flags mask old

-- What follows `get_ctl_fd`, by its result.
unfoldable pub with_socket : ControlAnswers → Flags → Flags → Option ℕ → Change
unfolding with_flags
with_socket a flags mask none = record { success = false; written = none; events = [] }
with_socket a flags mask (some fd) = with_flags a flags mask fd a.get_flags

unfoldable pub do_chflags : ControlAnswers → Flags → Flags → Change
unfolding get_ctl_fd with_socket
do_chflags a flags mask = with_socket a flags mask (get_ctl_fd a)

-- `open` and `ioctl(TUNSETIFF)`.
unfoldable pub add_tun : Descriptor → Option ℕ × List Event
add_tun no_socket = (none, [])
add_tun (unbound fd) = (none, opens fd ∷ closes fd ∷ [])
add_tun (bound fd) = (some fd, opens fd ∷ [])

-- `IFF_UP` is the lowest bit.
abbrev pub iff_up : Flags
iff_up zero = true
iff_up (suc i) = false

unfoldable pub set_int_up : ControlAnswers → Change
unfolding do_chflags
set_int_up a = do_chflags a iff_up iff_up

-- Constants of the headers of netlink.
pub data NlConst : Type 0 where
  nlm_f_request nlm_f_create nlm_f_excl rtm_newroute rtm_newaddr : NlConst
  af_inet rt_table_main rtprot_boot rt_scope_universe rtn_unicast : NlConst

pub data Attribute : Type 0 where
  rta_gateway : List ℕ → Attribute
  ifa_local : List ℕ → Attribute
  ifa_address : List ℕ → Attribute

-- `struct rtmsg` and `struct ifaddrmsg`.
pub data Body : Type 0 where
  rtmsg : (family table protocol scope type : NlConst) → (dst_len : ℕ) → Body
  ifaddrmsg : (family : NlConst) → (prefixlen scope index : ℕ) → Body

-- A request: the header's flags and type, its body, and the attributes that `addattr_l` appends. The
-- lengths are libnetlink's.
pub record Request : Type 0 where
  pub nlmsg_flags : List NlConst
  pub nlmsg_type : NlConst
  pub body : Body
  pub attributes : List Attribute

abbrev pub create_flags : List NlConst
create_flags = nlm_f_request ∷ nlm_f_create ∷ nlm_f_excl ∷ []

abbrev pub tunip : List ℕ
tunip = 10 ∷ 0 ∷ 0 ∷ 1 ∷ []

abbrev pub new_route : Request
new_route = record {
  nlmsg_flags = create_flags;
  nlmsg_type = rtm_newroute;
  body = rtmsg af_inet rt_table_main rtprot_boot rt_scope_universe rtn_unicast 0;
  attributes = rta_gateway tunip ∷ [];
}

abbrev pub new_addr : (index : ℕ) → Request
new_addr index = record {
  nlmsg_flags = create_flags;
  nlmsg_type = rtm_newaddr;
  body = ifaddrmsg af_inet 24 0 index;
  attributes = ifa_local tunip ∷ ifa_address tunip ∷ [];
}

-- A handle that `rtnl_open` gives, by its descriptor, and whether `rtnl_talk` then succeeds.
pub record Netlink : Type 0 where
  pub fd : ℕ
  pub talked : Bool

-- The result of a function that makes a request, what it opens and closes, and the requests.
abbrev pub Talk : Type 0
Talk = Bool × List Event × List Request

-- `none` where `rtnl_open` failed, after which nothing is open. The result is that of `rtnl_talk`, and
-- `rtnl_close` follows it, whatever it is.
unfoldable pub set_default_route : Option Netlink → Talk
set_default_route none = (false, [], [])
set_default_route (some rth) = (rth.talked, opens rth.fd ∷ closes rth.fd ∷ [], new_route ∷ [])

-- `index` is what `if_nametoindex` returns.
unfoldable pub set_default_ip_addr : Option Netlink → (index : ℕ) → Talk
set_default_ip_addr none index = (false, [], [])
set_default_ip_addr (some rth) index =
    (rth.talked, opens rth.fd ∷ closes rth.fd ∷ [], new_addr index ∷ [])

-- The answers to `setup_tun`.
pub record SetupAnswers : Type 0 where
  pub tun : Descriptor
  pub control : ControlAnswers
  pub index : ℕ
  pub addr : Option Netlink
  pub route : Option Netlink

-- The result, what is opened and closed, and the requests that were made.
abbrev pub Setup : Type 0
Setup = Option ℕ × List Event × List Request

-- With the tunnel's descriptor; each failure closes it.
unfoldable pub configure : SetupAnswers → ℕ → Setup
unfolding set_int_up set_default_ip_addr set_default_route
configure a fd =
    let up = set_int_up a.control in
    let (addressed, addr_events, addr_request) = set_default_ip_addr a.addr a.index in
    let (routed, route_events, route_request) = set_default_route a.route in
    if not up.success
    then (none, up.events ++ (closes fd ∷ []), [])
    else if not addressed
    then (none, up.events ++ addr_events ++ (closes fd ∷ []), addr_request)
    else if not routed
    then (
      none,
      up.events ++ addr_events ++ route_events ++ (closes fd ∷ []),
      addr_request ++ route_request,
    )
    else (some fd, up.events ++ addr_events ++ route_events, addr_request ++ route_request)

-- What follows `add_tun`, by its result.
unfoldable pub after_add : SetupAnswers → Option ℕ × List Event → Setup
unfolding configure
after_add a (none, events) = (none, events, [])
after_add a (some fd, events) =
    let (ret, more, requests) = configure a fd in (ret, events ++ more, requests)

unfoldable pub setup_tun : SetupAnswers → Setup
unfolding add_tun after_add
setup_tun a = after_add a (add_tun a.tun)
