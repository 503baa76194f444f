-- ===== src/Server/Outgoing/Reads.antt =====
-- What src/server/main.c reads in a round.
use benker_vpn.Base.{
  ℕ, zero, suc, ◌≡◌, true, false, arith, List, [], ◌∷◌, Option, none, some, Bool-cases, inl, inr,
  Returns, returns, ◌==◌, ltb, ◌&&◌, ◌||◌, not, if◌then◌else◌,
}
use benker_vpn.Packet.{Buffer}
use benker_vpn.Net.{
  Received, Frame, Frame.frame, message, SockaddrLl, SockaddrIn, fill, read_msg_udp, get_ip_packet,
  poll_error,
}
use benker_vpn.Net.Laws.{ends, fill_first}
use benker_vpn.Server.Outgoing.{Input, from_client, from_world, Starts, HasHeaders}

-- What is read.
abbrev taken_input : (Buffer → ℕ → Input) → Buffer → ℕ → List Input
taken_input kind msg zero = []
taken_input kind msg (suc n) = kind msg (suc n) ∷ []

abbrev pub client_inputs : Received → List Input
client_inputs (Received.failed errno) = []
client_inputs (message msg size from) = taken_input from_client msg size

-- The first frame for this host, if no read fails before it.
unfoldable pub world_inputs : (packet_host : ℕ) → List Frame → List Input
world_inputs packet_host [] = []
world_inputs packet_host (Frame.failed errno ∷ rest) = []
world_inputs packet_host (frame msg size from ∷ rest) =
    if from.sll_pkttype == packet_host && ltb 0 from.sll_halen
    then taken_input from_world msg size
    else world_inputs packet_host rest

abbrev pub AllHeaded : List Input → Type 0
AllHeaded [] = Unit
AllHeaded (from_client msg size ∷ rest) = HasHeaders msg size × AllHeaded rest
AllHeaded (from_world msg size ∷ rest) = HasHeaders msg size × AllHeaded rest

-- The result of a read, and the input that is then in the buffer.
pub data Read (kind : Buffer → ℕ → Input) : Option ℕ → Buffer → List Input → Type 0 where
  read_error : {b : Buffer} → Read kind none b []
  read_nothing : {b : Buffer} → Read kind (some 0) b []
  read_message :
      {b msg : Buffer} {n : ℕ}
      → Starts msg (suc n) b
      → Read kind (some (suc n)) b (kind msg (suc n) ∷ [])

taken-Read :
    (kind : Buffer → ℕ → Input) (msg : Buffer) (size : ℕ) (b : Buffer)
    → Read kind (some size) (fill msg size b) (taken_input kind msg size)
taken-Read kind msg zero b = read_nothing
taken-Read kind msg (suc n) b = read_message (fill_first msg (suc n) b)

module _ (eagain ewouldblock : ℕ) where
  poll_error-Read :
      (kind : Buffer → ℕ → Input) (b : Buffer) (errno : ℕ)
      → Read kind (poll_error eagain ewouldblock errno) b []
  unfolding poll_error
  poll_error-Read kind b errno =
      elim (Bool-cases (not (errno == eagain) || not (errno == ewouldblock))) [
        | inl failed ↦ rw failed read_error
        | inr idle ↦ rw idle read_nothing
      ]

  pub read_msg_udp-Read :
      (b : Buffer) (raddr : SockaddrIn) (x : Received)
      → let r = read_msg_udp eagain ewouldblock b raddr x in
        Read from_client r.0 r.1 (client_inputs x)
  unfolding read_msg_udp
  read_msg_udp-Read b raddr (Received.failed errno) = poll_error-Read from_client b errno
  read_msg_udp-Read b raddr (message msg size from) = taken-Read from_client msg size b

  pub get_ip_packet-Read :
      (packet_host : ℕ) (b : Buffer) (ll : SockaddrLl) (frames : List Frame)
      → ends packet_host frames ≡ true
      → Returns
          (λ r. Read from_world r.0 r.1 (world_inputs packet_host frames))
          (get_ip_packet eagain ewouldblock packet_host b ll frames)
  unfolding get_ip_packet world_inputs
  get_ip_packet-Read packet_host b ll [] end = absurd (ground arith)
  get_ip_packet-Read packet_host b ll (Frame.failed errno ∷ rest) end =
      returns (poll_error-Read from_world b errno)
  get_ip_packet-Read packet_host b ll (frame msg size from ∷ rest) end =
      elim (Bool-cases (not (from.sll_pkttype == packet_host) || from.sll_halen == 0)) [
        | inl skip ↦
            let later : ends packet_host rest ≡ true = ground arith in
            let other : (from.sll_pkttype == packet_host && ltb 0 from.sll_halen) ≡ false =
              ground arith in
            rw (skip, other) (get_ip_packet-Read packet_host (fill msg size b) from rest later)
        | inr take ↦
            let here : (from.sll_pkttype == packet_host && ltb 0 from.sll_halen) ≡ true =
              ground arith in
            rw (take, here) (returns (taken-Read from_world msg size b))
      ]
