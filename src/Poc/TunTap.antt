-- ===== src/Poc/TunTap.antt =====
-- POC/TUNTAP/main.c: the frames of a tap are printed. A descriptor of -1 is `none`; nothing is asked of
-- the kernel for it.
use benker_vpn.Base.{ℕ, Option, none, some, List, [], ◌∷◌, ◌++◌, Run, ok, fault, out_of_fuel, ◌>>=◌}
use benker_vpn.Packet.{Buffer}
use benker_vpn.Net.{Call, call_close, Descriptor, no_socket, unbound, bound, fill}
use benker_vpn.Client.{TunRead, packet}
use benker_vpn.Hex.{print_bytes}

-- `open` and `ioctl(TUNSETIFF)`: the result and the calls of `close`.
unfoldable pub tap_alloc : Descriptor → Option ℕ × List Call
tap_alloc no_socket = (none, [])
tap_alloc (unbound fd) = (none, call_close fd ∷ [])
tap_alloc (bound fd) = (some fd, [])

-- The `while` loop, on what the reads of the tap give: the digits that are printed of each frame.
unfoldable pub print_frames : Buffer → List TunRead → Run (List (List ℕ))
unfolding fill print_bytes
print_frames b [] = fault out_of_fuel
print_frames b (TunRead.failed errno ∷ rest) = ok []
print_frames b (packet msg size ∷ rest) = do
  let b' = fill msg size b
  lines ← print_frames b' rest
  ok (print_bytes b' 0 size ∷ lines)

-- `close(fd)`.
abbrev pub close_of : Option ℕ → List Call
close_of none = []
close_of (some fd) = call_close fd ∷ []

-- What is printed, and the calls of `close`. A tap that cannot be made is reported and no more.
unfoldable pub main : Descriptor → Buffer → List TunRead → Run (List (List ℕ) × List Call)
unfolding tap_alloc print_frames
main tap b reads = do
  let (fd, calls) = tap_alloc tap
  lines ← print_frames b reads
  ok (lines, calls ++ close_of fd)
