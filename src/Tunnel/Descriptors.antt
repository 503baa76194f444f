-- ===== src/Tunnel/Descriptors.antt =====
-- Descriptors and flags in src/lib/ip_command.c.
use benker_vpn.Base.{
  ℕ, zero, suc, ◌<◌, ◌≡◌, refl, true, false, arith, Option, none, some, List, [], ◌∷◌, inl, inr,
  Bool-cases, ◌⊎◌, ◌==◌, if◌then◌else◌, ap, ◌++◌, ◌∙◌, ==_refl,
}
use benker_vpn.Net.{Descriptor, no_socket, unbound, bound}
use benker_vpn.Tunnel.{
  Flags, flag_bits, ControlAnswers, get_ctl_fd, differs, masked, Change, change_flags, do_chflags,
  with_flags, with_socket, after_add, iff_up, set_int_up, add_tun, SetupAnswers, Setup, configure,
  setup_tun, set_default_ip_addr, set_default_route, Event, opens, closes, Netlink,
}

-- What the interface's flags are after a change.
abbrev pub now : Flags → Option Flags → Flags
now old none = old
now old (some written) = written

differs-false :
    (n : ℕ) (old flags mask : Flags)
    → differs n old flags mask ≡ false
    → (i : ℕ) → i < n
    → mask i ≡ true
    → old i ≡ flags i
unfolding differs
differs-false zero old flags mask same i h on = absurd (omega arith)
differs-false (suc n) old flags mask same i h on = elim (Bool-cases (i == n)) [
  | inl here ↦ let e : i ≡ n = ground arith in ground arith
  | inr below ↦ differs-false n old flags mask (ground arith) i (ground arith) on
]

-- `do_chflags` with a control socket: where the kernel takes the flags, each of the 16 bits of the
-- interface's flags in the mask is then that of `flags`, and every other one is as before.
pub change_flags_lem :
    (fd : ℕ) (flags mask old : Flags) (i : ℕ)
    → i < flag_bits
    → now old (change_flags fd true flags mask old).written i ≡ (if mask i then flags i else old i)
unfolding change_flags masked
change_flags_lem fd flags mask old i h = elim (Bool-cases (differs flag_bits old flags mask)) [
  | inl other ↦ rw other (ground arith)
  | inr same ↦ rw same (ground (arith, differs-false flag_bits old flags mask same i h))
]

-- The descriptor that is closed is the one opened last under its number.
unfoldable without : ℕ → List ℕ → List ℕ
without fd [] = []
without fd (x ∷ xs) = if fd == x then xs else x ∷ without fd xs

-- Which descriptors are open after the events, where `fds` were open before.
unfoldable pub still_open : List ℕ → List Event → List ℕ
unfolding without
still_open fds [] = fds
still_open fds (opens fd ∷ es) = still_open (fd ∷ fds) es
still_open fds (closes fd ∷ es) = still_open (without fd fds) es

still_open-++ :
    (fds : List ℕ) (es es' : List Event)
    → still_open fds (es ++ es') ≡ still_open (still_open fds es) es'
unfolding still_open
still_open-++ fds [] es' = refl
still_open-++ fds (opens fd ∷ es) es' = still_open-++ (fd ∷ fds) es es'
still_open-++ fds (closes fd ∷ es) es' = still_open-++ (without fd fds) es es'

without_first : (fd : ℕ) (fds : List ℕ) → without fd (fd ∷ fds) ≡ fds
unfolding without
without_first fd fds = rw (==_refl fd) refl

without_second : (fd x : ℕ) → without fd (x ∷ fd ∷ []) ≡ x ∷ []
unfolding without
without_second fd x = elim (Bool-cases (fd == x)) [
  | inl same ↦ let e : fd ≡ x = ground arith in rw same (ap (λ (y : ℕ). y ∷ []) e)
  | inr other ↦ rw (other, ==_refl fd) refl
]

still_open_pair : (fd : ℕ) (fds : List ℕ) → still_open fds (opens fd ∷ closes fd ∷ []) ≡ fds
unfolding still_open
still_open_pair fd fds = without_first fd fds

-- What is still open in front of `fds`.
abbrev LeavesOpen : List Event → List ℕ → Type 0
LeavesOpen es extra = (fds : List ℕ) → still_open fds es ≡ extra ++ fds

-- A change that succeeded leaves no descriptor open, one that failed may leave the control socket.
abbrev IsLeft : ControlAnswers → Change → Type 0
IsLeft a c =
    ((c.success ≡ true) × LeavesOpen c.events [])
    ⊎ ((c.success ≡ false)
        × (LeavesOpen c.events []
            ⊎ ((fd : ℕ) × (get_ctl_fd a ≡ some fd) × LeavesOpen c.events (fd ∷ []))))

change_flags-IsLeft :
    (a : ControlAnswers) (fd : ℕ) (flags mask old : Flags)
    → get_ctl_fd a ≡ some fd
    → IsLeft a (change_flags fd a.accepts flags mask old)
unfolding change_flags get_ctl_fd still_open
change_flags-IsLeft a fd flags mask old e = elim (Bool-cases (differs flag_bits old flags mask)) [
  | inr same ↦ rw same (inl (refl, λ fds. still_open_pair fd fds))
  | inl other ↦ elim (Bool-cases a.accepts) [
    | inl taken ↦ rw (other, taken) (inl (refl, λ fds. still_open_pair fd fds))
    | inr refused ↦ rw (other, refused) (inr (refl, inr (fd, e, λ fds. refl)))
  ]
]

with_flags-IsLeft :
    (a : ControlAnswers) (flags mask : Flags) (fd : ℕ) (o : Option Flags)
    → get_ctl_fd a ≡ some fd
    → IsLeft a (with_flags a flags mask fd o)
unfolding with_flags still_open
with_flags-IsLeft a flags mask fd none e = inr (refl, inr (fd, e, λ fds. refl))
with_flags-IsLeft a flags mask fd (some old) e = change_flags-IsLeft a fd flags mask old e

with_socket-IsLeft :
    (a : ControlAnswers) (flags mask : Flags) (o : Option ℕ)
    → get_ctl_fd a ≡ o
    → IsLeft a (with_socket a flags mask o)
unfolding with_socket still_open
with_socket-IsLeft a flags mask none e = inr (refl, inl (λ fds. refl))
with_socket-IsLeft a flags mask (some fd) e = with_flags-IsLeft a flags mask fd a.get_flags e

set_int_up-IsLeft : (a : ControlAnswers) → IsLeft a (set_int_up a)
unfolding set_int_up do_chflags
set_int_up-IsLeft a = with_socket-IsLeft a iff_up iff_up (get_ctl_fd a) refl

-- The two requests close the handle that they open.
set_default_ip_addr-LeavesOpen :
    (o : Option Netlink) (index : ℕ) → LeavesOpen (set_default_ip_addr o index).1 []
unfolding set_default_ip_addr still_open
set_default_ip_addr-LeavesOpen none index fds = refl
set_default_ip_addr-LeavesOpen (some rth) index fds = still_open_pair rth.fd fds

set_default_route-LeavesOpen : (o : Option Netlink) → LeavesOpen (set_default_route o).1 []
unfolding set_default_route still_open
set_default_route-LeavesOpen none fds = refl
set_default_route-LeavesOpen (some rth) fds = still_open_pair rth.fd fds

-- What `setup_tun` leaves open, where `before` is what it had open: on success its result alone, else
-- at most the control socket.
abbrev LeavesFrom : List ℕ → SetupAnswers → Setup → Type 0
LeavesFrom before a (ret, events, requests) =
    ((fd : ℕ) × (ret ≡ some fd) × (still_open before events ≡ fd ∷ []))
    ⊎ ((ret ≡ none)
        × ((still_open before events ≡ [])
            ⊎ ((fd : ℕ) × (get_ctl_fd a.control ≡ some fd) × (still_open before events ≡ fd ∷ []))))

abbrev pub Leaves : SetupAnswers → Setup → Type 0
Leaves a x = LeavesFrom [] a x

-- The tunnel is closed last, behind events that leave `extra` open.
closed_last :
    (fd : ℕ) (es : List Event) (extra : List ℕ)
    → LeavesOpen es extra
    → still_open (fd ∷ []) (es ++ (closes fd ∷ [])) ≡ without fd (extra ++ (fd ∷ []))
unfolding still_open
closed_last fd es extra l =
    still_open-++ (fd ∷ []) es (closes fd ∷ [])
    ∙ ap (λ (xs : List ℕ). still_open xs (closes fd ∷ [])) (l (fd ∷ []))

both_leave :
    (es es' : List Event) → LeavesOpen es [] → LeavesOpen es' [] → LeavesOpen (es ++ es') []
both_leave es es' l l' fds =
    still_open-++ fds es es' ∙ ap (λ xs. still_open xs es') (l fds) ∙ l' fds

-- Behind the requests, with the interface up.
requests-Leaves :
    (a : SetupAnswers) (fd : ℕ)
    → (set_int_up a.control).success ≡ true
    → LeavesOpen (set_int_up a.control).events []
    → LeavesFrom (fd ∷ []) a (configure a fd)
unfolding configure
requests-Leaves a fd good up =
    let addr = set_default_ip_addr-LeavesOpen a.addr a.index in
    let route = set_default_route-LeavesOpen a.route in
    let up_events = (set_int_up a.control).events in
    let addr_events = (set_default_ip_addr a.addr a.index).1 in
    let route_events = (set_default_route a.route).1 in
    let both = both_leave up_events addr_events up addr in
    let all = both_leave (up_events ++ addr_events) route_events both route in
    elim (Bool-cases (set_default_ip_addr a.addr a.index).0) [
      | inr refused ↦
          rw (good, refused) (inr (refl, inl (closed_last fd _ [] both ∙ without_first fd [])))
      | inl addressed ↦ elim (Bool-cases (set_default_route a.route).0) [
        | inr refused ↦
            rw (good, addressed, refused)
              (inr (refl, inl (closed_last fd _ [] all ∙ without_first fd [])))
        | inl routed ↦ rw (good, addressed, routed) (inl (fd, refl, all (fd ∷ [])))
      ]
    ]

configure-Leaves : (a : SetupAnswers) (fd : ℕ) → LeavesFrom (fd ∷ []) a (configure a fd)
unfolding configure
configure-Leaves a fd = elim (set_int_up-IsLeft a.control) [
  | inl (good, up) ↦ requests-Leaves a fd good up
  | inr (failing, left) ↦ rw failing (
      inr (
        refl,
        elim left [
          | inl none_left ↦ inl (closed_last fd _ [] none_left ∙ without_first fd [])
          | inr (ctl, e, left) ↦
              inr (ctl, e, closed_last fd _ (ctl ∷ []) left ∙ without_second fd ctl)
        ],
      ))
]

after_add-Leaves : (a : SetupAnswers) (d : Descriptor) → Leaves a (after_add a (add_tun d))
unfolding after_add add_tun still_open
after_add-Leaves a no_socket = inr (refl, inl refl)
after_add-Leaves a (unbound fd) = inr (refl, inl (still_open_pair fd []))
after_add-Leaves a (bound fd) = configure-Leaves a fd

-- Where `setup_tun` returns a descriptor, this is the only one that it leaves open: the control socket
-- of `do_chflags` and the handles of the two netlink requests are closed. Where it fails, the tunnel
-- and these handles are closed, and the control socket is all that may be left open.
pub setup_tun-Leaves : (a : SetupAnswers) → Leaves a (setup_tun a)
unfolding setup_tun
setup_tun-Leaves a = after_add-Leaves a a.tun
