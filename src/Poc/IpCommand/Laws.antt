-- ===== src/Poc/IpCommand/Laws.antt =====
-- The trial of POC/IP_COMMAND/main.c beside src/lib/ip_command.c.
use benker_vpn.Base.{
  ℕ, ◌≡◌, refl, Bool, Option, none, some, List, [], ◌∷◌, inl, inr, Bool-cases, ==_refl,
}
use benker_vpn.Net.Open.{still_open}
use benker_vpn.Tunnel
use benker_vpn.Tunnel.{Flags, flag_bits, ControlAnswers, differs}
use benker_vpn.Poc.IpCommand.{get_ctl_fd, Change, change_flags, with_flags, with_socket, do_chflags}

-- The control socket that is opened.
abbrev pub opened : Option ℕ → List ℕ
opened none = []
opened (some fd) = fd ∷ []

-- The same result and the same flags as in the library, and every descriptor closed.
pub record Agrees (fds : List ℕ) (c : Change) (c' : Tunnel.Change) : Type 0 where
  pub success : c.success ≡ c'.success
  pub written : c.written ≡ c'.written
  pub all_closed : still_open fds c.calls ≡ []

change_flags-Agrees :
    (fd : ℕ) (accepts : Bool) (flags mask old : Flags)
    → Agrees
        (fd ∷ [])
        (change_flags fd accepts flags mask old)
        (Tunnel.change_flags fd accepts flags mask old)
unfolding change_flags Tunnel.change_flags
change_flags-Agrees fd accepts flags mask old =
    elim (Bool-cases (differs flag_bits old flags mask)) [
      | inr same ↦
          rw same (record { success = refl; written = refl; all_closed = rw (==_refl fd) refl })
      | inl other ↦ elim (Bool-cases accepts) [
        | inl taken ↦
            rw (other, taken)
              (record { success = refl; written = refl; all_closed = rw (==_refl fd) refl })
        | inr refused ↦
            rw (other, refused)
              (record { success = refl; written = refl; all_closed = rw (==_refl fd) refl })
      ]
    ]

with_flags-Agrees :
    (a : ControlAnswers) (flags mask : Flags) (fd : ℕ) (o : Option Flags)
    → Agrees (fd ∷ []) (with_flags a flags mask fd o) (Tunnel.with_flags a flags mask fd o)
unfolding with_flags Tunnel.with_flags
with_flags-Agrees a flags mask fd none = record {
  success = refl;
  written = refl;
  all_closed = rw (==_refl fd) refl;
}
with_flags-Agrees a flags mask fd (some old) = change_flags-Agrees fd a.accepts flags mask old

with_socket-Agrees :
    (a : ControlAnswers) (flags mask : Flags) (o : Option ℕ)
    → Agrees (opened o) (with_socket a flags mask o) (Tunnel.with_socket a flags mask o)
unfolding with_socket Tunnel.with_socket
with_socket-Agrees a flags mask none = record { success = refl; written = refl; all_closed = refl }
with_socket-Agrees a flags mask (some fd) = with_flags-Agrees a flags mask fd a.get_flags

-- `do_chflags` of the trial has the result of the one in src/lib/ip_command.c and writes the same
-- flags, whatever the kernel answers; and it closes its control socket on every path, those included
-- on which the other one leaves it open.
pub do_chflags-Agrees :
    (a : ControlAnswers) (flags mask : Flags)
    → Agrees (opened (get_ctl_fd a)) (do_chflags a flags mask) (Tunnel.do_chflags a flags mask)
unfolding do_chflags Tunnel.do_chflags
do_chflags-Agrees a flags mask = with_socket-Agrees a flags mask (get_ctl_fd a)
