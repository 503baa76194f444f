-- ===== src/Trials/Tun.antt =====
-- `tun_alloc` and `main` of src/server/main_trial.c: the packets of a tunnel are printed and handled.
-- `handle_client_packet` is called with the arguments of an older version, which is not in the
-- repository: it is a parameter.
use benker_vpn.Base.{
  ℕ, ◌+◌, ◌-◌, ◌^◌, Bool, ltb, if◌then◌else◌, Option, none, some, List, [], ◌∷◌, ◌++◌, Run, ok,
  fault, out_of_fuel, ◌>>=◌, u32,
}
use benker_vpn.Packet.{Buffer}
use benker_vpn.Net.{Call, call_close, Descriptor, no_socket, unbound, bound, fill}
use benker_vpn.Session.{Memory, Table, Clock, init_hash_table}
use benker_vpn.Session.Print.{Lines, print_session_hash_table}
use benker_vpn.Client.{TunRead, packet}
use benker_vpn.Hex.{print_bytes}
use benker_vpn.Poc.RawSock.{behind, with_behind}
use benker_vpn.Poc.TunTap.{close_of}
use benker_vpn.Trials.Connection.{OldHandler, accepts, buffer_of_reply}

-- `open` and `ioctl(TUNSETIFF)`: the result and the calls of `close`.
unfoldable pub tun_alloc : Descriptor → Option ℕ × List Call
tun_alloc no_socket = (none, [])
tun_alloc (unbound fd) = (none, call_close fd ∷ [])
tun_alloc (bound fd) = (some fd, [])

-- What one round prints: the digits of the packet, whether it passed, and the sessions.
pub record Round : Type 0 where
  pub digits : List ℕ
  pub passed : Bool
  pub sessions : List Lines

module _ (handle_client_packet : OldHandler) (clock : Clock) where
  -- One round, for a read of 2 bytes or more: `payload` is `buf + 4`. The handler gets the `int` that
  -- is left of the size as 32 bits.
  unfoldable pub handle_payload :
      Memory → Table → Buffer → (n : ℕ) → Run (Round × Memory × Table × Buffer)
  unfolding print_bytes
  handle_payload m t b n = do
    let payload = behind b 4
    (reply, m₁, t₁) ← handle_client_packet m t payload (u32 (n + 2 ^ 32 - 4))
    (sessions, m₂) ← print_session_hash_table clock m₁ t₁
    ok (
      record {
        digits = print_bytes payload 0 (n - 4);
        passed = accepts reply;
        sessions = sessions;
      },
      m₂,
      t₁,
      with_behind b 4 (buffer_of_reply reply),
    )

  -- The `while` loop, on what the reads of the tunnel give, up to one of less than 2 bytes.
  unfoldable pub handle_payloads :
      Memory → Table → Buffer → List TunRead → Run (List Round × Memory)
  unfolding handle_payload fill
  handle_payloads m t b [] = fault out_of_fuel
  handle_payloads m t b (TunRead.failed errno ∷ rest) = ok ([], m)
  handle_payloads m t b (packet msg size ∷ rest) =
      let next : Run (List Round × Memory) = (do
        (round, m₁, t₁, b₁) ← handle_payload m t (fill msg size b) size
        (rounds, m₂) ← handle_payloads m₁ t₁ b₁ rest
        ok (round ∷ rounds, m₂)) in
      if ltb size 2 then ok ([], m) else next

  -- What is printed, the calls of `close`, and the memory. The table is not deleted, and a tunnel that
  -- cannot be made is reported and no more.
  unfoldable pub main :
      Descriptor → Memory → Buffer → List TunRead → Run (List Round × List Call × Memory)
  unfolding tun_alloc handle_payloads
  main tun m b reads = do
    let (fd, calls) = tun_alloc tun
    (rounds, m₁) ← handle_payloads m (init_hash_table 10 10000 10002) b reads
    ok (rounds, calls ++ close_of fd, m₁)
