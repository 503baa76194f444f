-- ===== src/Net/Laws.antt =====
-- What the readers of src/lib/udp.c and src/lib/vpn_raw_sock.c return.
use benker_vpn.Base.{
  ℕ, ◌≡◌, ◌≢◌, ◌<◌, true, false, arith, Option, none, some, List, [], ◌∷◌, Returns, returns, Bool,
  Bool-cases, ltb, ◌==◌, ◌&&◌, ◌||◌, not, ◌⊎◌, Returns-mono, inl, inr, ◌↔◌, ◌++◌, ok,
}
use benker_vpn.Packet.{Buffer, IsBytes}
use benker_vpn.Net.{
  Received, Frame, SockaddrLl, Frame.frame, message, fill, poll_error, get_ip_packet,
}

-- The answers of a kernel hold bytes.
abbrev pub SaneReceived : Received → Type 0
SaneReceived (Received.failed e) = Unit
SaneReceived (message msg size from) = IsBytes msg

abbrev pub SaneFrames : List Frame → Type 0
SaneFrames [] = Unit
SaneFrames (Frame.failed e ∷ rest) = SaneFrames rest
SaneFrames (frame msg size from ∷ rest) = IsBytes msg × SaneFrames rest

-- Some answer is a failed read or a frame for this host.
abbrev pub ends : ℕ → List Frame → Bool
ends packet_host [] = false
ends packet_host (Frame.failed e ∷ rest) = true
ends packet_host (frame msg size from ∷ rest) =
    from.sll_pkttype == packet_host && ltb 0 from.sll_halen || ends packet_host rest

pub fill-IsBytes :
    (msg : Buffer) (size : ℕ) (b : Buffer) → IsBytes msg → IsBytes b → IsBytes (fill msg size b)
unfolding fill
fill-IsBytes msg size b h h' j = ground (arith, h j, h' j)

-- Frames that hold bytes, none of them for this host with a hardware address, and no failed read.
abbrev pub AllSkipped : (packet_host : ℕ) → List Frame → Type 0
AllSkipped packet_host [] = Unit
AllSkipped packet_host (Frame.failed e ∷ rest) = false ≡ true
AllSkipped packet_host (frame msg size from ∷ rest) =
    IsBytes msg
    × ((from.sll_pkttype ≢ packet_host) ⊎ (from.sll_halen ≡ 0))
    × AllSkipped packet_host rest

-- The buffer after frames have been read into it.
abbrev pub filled : List Frame → Buffer → Buffer
filled [] b = b
filled (Frame.failed e ∷ rest) b = filled rest b
filled (frame msg size from ∷ rest) b = filled rest (fill msg size b)

pub filled-IsBytes :
    (packet_host : ℕ) (frames : List Frame) (b : Buffer)
    → AllSkipped packet_host frames
    → IsBytes b
    → IsBytes (filled frames b)
filled-IsBytes packet_host [] b h bytes = bytes
filled-IsBytes packet_host (Frame.failed e ∷ rest) b h bytes = absurd (cc)
filled-IsBytes packet_host (frame msg size from ∷ rest) b h bytes =
    filled-IsBytes packet_host rest (fill msg size b) h.2 (fill-IsBytes msg size b h.0 bytes)

pub fill_first :
    (msg : Buffer) (size : ℕ) (b : Buffer) (i : ℕ) → i < size → fill msg size b i ≡ msg i
unfolding fill
fill_first msg size b i h = ground arith

module _ (eagain ewouldblock : ℕ) where
  -- Where `EAGAIN` and `EWOULDBLOCK` are one number, a failed read counts as no message exactly if the
  -- error is that number, and as an error otherwise.
  pub poll_error_iff :
      (same : eagain ≡ ewouldblock) (errno : ℕ)
      → ((poll_error eagain ewouldblock errno ≡ some 0) ↔ (errno ≡ eagain))
        × ((poll_error eagain ewouldblock errno ≡ none) ↔ (errno ≢ eagain))
  unfolding poll_error
  poll_error_iff same errno = ground arith

  -- Where they are two numbers, every failed read is an error.
  pub poll_error_strict :
      eagain ≢ ewouldblock → (errno : ℕ) → poll_error eagain ewouldblock errno ≡ none
  unfolding poll_error
  poll_error_strict differ errno = ground arith

  module _ (packet_host : ℕ) where
    -- How the loop of `get_ip_packet` goes through the answers: it ends with a failed read, or with
    -- the first frame for this host that has a hardware address.
    pub data Picked : List Frame → Option ℕ → List Frame → Type 0 where
      pick_error :
          {e : ℕ} {rest : List Frame}
          → Picked (Frame.failed e ∷ rest) (poll_error eagain ewouldblock e) rest
      pick_frame :
          {msg : Buffer} {size : ℕ} {from : SockaddrLl} {rest : List Frame}
          → from.sll_pkttype ≡ packet_host
          → 0 < from.sll_halen
          → Picked (frame msg size from ∷ rest) (some size) rest
      pick_later :
          {msg : Buffer} {size : ℕ} {from : SockaddrLl} {rest out : List Frame} {r : Option ℕ}
          → (from.sll_pkttype ≢ packet_host) ⊎ (from.sll_halen ≡ 0)
          → Picked rest r out
          → Picked (frame msg size from ∷ rest) r out

    -- The frame for this host that is behind frames that are skipped.
    pub get_ip_packet_skips :
        (b : Buffer) (ll : SockaddrLl) (skipped : List Frame) (w : Buffer) (size : ℕ)
        (from : SockaddrLl) (rest : List Frame)
        → AllSkipped packet_host skipped
        → from.sll_pkttype ≡ packet_host
        → 0 < from.sll_halen
        → get_ip_packet eagain ewouldblock packet_host b ll (skipped ++ (frame w size from ∷ rest))
          ≡ ok (
            some size,
            fill w size (filled skipped b),
            record from { sll_hatype = 0; sll_pkttype = 0 },
            rest,
          )
    unfolding get_ip_packet
    get_ip_packet_skips b ll [] w size from rest h here long = ground arith
    get_ip_packet_skips b ll (Frame.failed e ∷ others) w size from rest h here long = absurd (cc)
    get_ip_packet_skips b ll (frame msg n other ∷ others) w size from rest h here long =
        let other_host = h.1 in
        let skip : (not (other.sll_pkttype == packet_host) || other.sll_halen == 0) ≡ true =
          ground arith in
        rw skip (get_ip_packet_skips (fill msg n b) other others w size from rest h.2 here long)

    -- Where the buffer and all messages hold bytes and some answer is a failed read or a frame for
    -- this host with a hardware address, `get_ip_packet` returns, by the first such answer: the
    -- error's result or the size of the frame. The buffer then holds bytes, and the answers behind
    -- are left.
    pub get_ip_packet-Picked :
        (b : Buffer) (ll : SockaddrLl) (frames : List Frame)
        → IsBytes b
        → SaneFrames frames
        → ends packet_host frames ≡ true
        → Returns
            (λ r. IsBytes r.1 × Picked frames r.0 r.3)
            (get_ip_packet eagain ewouldblock packet_host b ll frames)
    unfolding get_ip_packet
    get_ip_packet-Picked b ll [] h sane end = absurd (ground arith)
    get_ip_packet-Picked b ll (Frame.failed e ∷ rest) h sane end = returns (h, pick_error)
    get_ip_packet-Picked b ll (frame msg size from ∷ rest) h sane end =
        let h' = fill-IsBytes msg size b sane.0 h in
        elim (Bool-cases (not (from.sll_pkttype == packet_host) || from.sll_halen == 0)) [
          | inl skip ↦
              let later : ends packet_host rest ≡ true = ground arith in
              rw skip (
                Returns-mono (get_ip_packet-Picked (fill msg size b) from rest h' sane.1 later)
                  (λ r p. (p.0, pick_later (ground arith) p.1)))
          | inr take ↦ rw take (returns (h', pick_frame (ground arith) (ground arith)))
        ]
