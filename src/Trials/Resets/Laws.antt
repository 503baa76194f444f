-- ===== src/Trials/Resets/Laws.antt =====
-- What `main3` of src/server/main_trial.c answers to each frame.
use benker_vpn.Base.{
  ℕ, ◌+◌, ◌-◌, ◌<◌, ◌≡◌, ◌≢◌, refl, inl, inr, Bool-cases, arith, some, List, [], ◌∷◌, ◌==◌, Returns,
  returns, Returns-bind,
}
use benker_vpn.Packet.{Buffer, IsBytes, get16, memcpy}
use benker_vpn.Packet.Bytes.{memcpy-IsBytes}
use benker_vpn.Net.{
  Call, call_sendto_ll, call_socket, af_packet, sock_raw, eth_p_ip, no_flags, fill,
}
use benker_vpn.Net.Laws.{fill-IsBytes, fill_first}
use benker_vpn.Handler.{Reply, valid_session, invalid_session}
use benker_vpn.Client.{TunRead, packet}
use benker_vpn.Poc.RawSock.{behind, with_behind, ll_addr, sizeof_ethhdr}
use benker_vpn.Trials.Resets.{swap_addresses, reset_frame, handle_frame, reset_frames, main3}

-- The frame that goes back: the addresses of `b` are exchanged around the packet `r`.
pub record IsBack (b r whole : Buffer) : Type 0 where
  pub to : (i : ℕ) → i < 6 → whole i ≡ b (6 + i)
  pub from : (i : ℕ) → i < 6 → whole (6 + i) ≡ b i
  pub type : get16 whole 12 ≡ get16 b 12
  pub packet_behind : (j : ℕ) → whole (sizeof_ethhdr + j) ≡ r j

swap_addresses_lem :
    (b r : Buffer) → IsBytes b → IsBack b r (swap_addresses (with_behind b sizeof_ethhdr r))
unfolding swap_addresses
swap_addresses_lem b r h = record {
  to = λ i p. ground (arith, h (6 + i));
  from = λ i p. ground (arith, h i);
  type = refl;
  packet_behind =
      λ j. let e : sizeof_ethhdr + j - sizeof_ethhdr ≡ j = omega arith in ground (arith, e);
}

swap_addresses-IsBytes : (b : Buffer) → IsBytes b → IsBytes (swap_addresses b)
unfolding swap_addresses
swap_addresses-IsBytes b h =
    memcpy-IsBytes _ 0 (memcpy (λ i. 0) 0 b 6 6) 0 6 (memcpy-IsBytes b 6 b 0 6 h)

with_behind-IsBytes :
    (b : Buffer) (n : ℕ) (p : Buffer) → IsBytes b → IsBytes p → IsBytes (with_behind b n p)
with_behind-IsBytes b n p h h' j = ground (arith, h j, h' (j - n))

abbrev pub ReplyBytes : Reply → Type 0
ReplyBytes (valid_session r) = IsBytes r
ReplyBytes (invalid_session r size) = IsBytes r

-- A read failed in the end, and what was read before holds bytes.
abbrev pub SaneReads : List TunRead → Type 0
SaneReads [] = ⊥
SaneReads (TunRead.failed errno ∷ rest) = Unit
SaneReads (packet msg size ∷ rest) = IsBytes msg × SaneReads rest

module _ (handle : Buffer → (size : ℕ) → Reply) (sock : ℕ) where
  -- What is sent for a frame of `size` bytes that lies in the buffer `b`: nothing if it holds no IP
  -- packet or the handler accepts this; else the handler's reset, to the hardware address from which
  -- the frame came.
  pub data Answered (b : Buffer) (size : ℕ) : List Call → Type 0 where
    other_type : get16 b 12 ≢ 0x800 → Answered b size []
    accepted :
        {r : Buffer}
        → get16 b 12 ≡ 0x800
        → handle (behind b sizeof_ethhdr) size ≡ valid_session r
        → Answered b size []
    sent_back :
        {r whole : Buffer} {temp : ℕ}
        → get16 b 12 ≡ 0x800
        → handle (behind b sizeof_ethhdr) size ≡ invalid_session r temp
        → IsBack b r whole
        → Answered b size
            (call_sendto_ll sock whole (sizeof_ethhdr + temp) no_flags (ll_addr whole) ∷ [])

  -- One list of calls for each frame, in order.
  pub data AllAnswered : List TunRead → List (List Call) → Type 0 where
    stopped : {errno : ℕ} {rest : List TunRead} → AllAnswered (TunRead.failed errno ∷ rest) []
    next :
        {b msg : Buffer} {size : ℕ} {calls : List Call} {rest : List TunRead}
        {more : List (List Call)}
        → ((i : ℕ) → i < size → b i ≡ msg i)
        → Answered b size calls
        → AllAnswered rest more
        → AllAnswered (packet msg size ∷ rest) (calls ∷ more)

  module _ (keeps : (b : Buffer) (size : ℕ) → IsBytes b → ReplyBytes (handle b size)) where
    reset_frame-Answered :
        (b : Buffer) (size : ℕ) (reply : Reply)
        → IsBytes b
        → get16 b 12 ≡ 0x800
        → handle (behind b sizeof_ethhdr) size ≡ reply
        → ReplyBytes reply
        → Answered b size (reset_frame handle sock b reply).0
          × IsBytes (reset_frame handle sock b reply).1
    unfolding reset_frame
    reset_frame-Answered b size (valid_session r) h ip e hr =
        (accepted ip e, with_behind-IsBytes b sizeof_ethhdr r h hr)
    reset_frame-Answered b size (invalid_session r temp) h ip e hr = (
      sent_back ip e (swap_addresses_lem b r h),
      swap_addresses-IsBytes _ (with_behind-IsBytes b sizeof_ethhdr r h hr),
    )

    handle_frame-Answered :
        (b : Buffer) (size : ℕ)
        → IsBytes b
        → Answered b size (handle_frame handle sock b size).0
          × IsBytes (handle_frame handle sock b size).1
    unfolding handle_frame
    handle_frame-Answered b size h = elim (Bool-cases (get16 b 12 == 0x800)) [
      | inl ip ↦ rw ip (
          reset_frame-Answered b size (handle (behind b sizeof_ethhdr) size) h (ground arith) refl
            (keeps (behind b sizeof_ethhdr) size (λ j. h (sizeof_ethhdr + j))))
      | inr other ↦ rw other (other_type (ground arith), h)
    ]

    reset_frames-AllAnswered :
        (b : Buffer) (reads : List TunRead)
        → IsBytes b
        → SaneReads reads
        → Returns (AllAnswered reads) (reset_frames handle sock b reads)
    unfolding reset_frames
    reset_frames-AllAnswered b [] h sane = absurd sane
    reset_frames-AllAnswered b (TunRead.failed errno ∷ rest) h sane = returns stopped
    reset_frames-AllAnswered b (packet msg size ∷ rest) h sane =
        let filled = fill msg size b in
        let (answered, h') = handle_frame-Answered filled size (fill-IsBytes msg size b sane.0 h) in
        Returns-bind
          (reset_frames-AllAnswered (handle_frame handle sock filled size).1 rest h' sane.1)
          (λ more o. returns (next {b = filled} (fill_first msg size b) answered o))

    -- With a socket, a handler that leaves bytes in the packet, and a buffer and frames of bytes,
    -- `main3` goes on until a read fails. For each frame before that it sends at most one: none if the
    -- frame holds no IP packet or the handler accepts its packet; else the handler's reset, of the size
    -- that this reports, behind an Ethernet header of the same type with the two addresses exchanged,
    -- to the address from which the frame came.
    pub main3-AllAnswered :
        (b : Buffer) (reads : List TunRead)
        → IsBytes b
        → SaneReads reads
        → Returns
            (λ r. (r.0 ≡ call_socket af_packet sock_raw eth_p_ip ∷ []) × AllAnswered reads r.1)
            (main3 handle (some sock) b reads)
    unfolding main3
    main3-AllAnswered b reads h sane =
        Returns-bind (reset_frames-AllAnswered b reads h sane) (λ sent o. returns (refl, o))
