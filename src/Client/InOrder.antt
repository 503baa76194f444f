-- ===== src/Client/InOrder.antt =====
-- The loop of src/client/main.c passes on what it reads, in order.
use benker_vpn.Base.{
  ℕ, zero, suc, ◌<◌, ◌≡◌, refl, true, false, arith, Bool, Option, none, some, List, [], ◌∷◌, ◌++◌,
  not, ◌||◌, ◌==◌, Bool-cases, inl, inr,
}
use benker_vpn.Packet.{Buffer}
use benker_vpn.Net.Laws.{fill_first}
use benker_vpn.Net.{Received, message, poll_error, read_msg_udp}
use benker_vpn.Client.{
  no_addr, TunRead, packet, Answers, Sent, to_server, to_tun, Status, running, exited, Result,
  after_send, tun_error, up_read, relay_up, down_read, relay_down, continue_with, relay_round,
  relay,
}

-- A packet of the tunnel, or a message of the server that is not empty.
pub data Input : Type 0 where
  from_tun from_server : Buffer → ℕ → Input

abbrev pub tun_input : TunRead → List Input
tun_input (TunRead.failed errno) = []
tun_input (packet msg size) = from_tun msg size ∷ []

abbrev pub udp_input : Received → List Input
udp_input (Received.failed errno) = []
udp_input (message msg zero from) = []
udp_input (message msg (suc n) from) = from_server msg (suc n) ∷ []

-- What there is to read, in the order of the reads.
abbrev pub inputs : List Answers → List Input
inputs [] = []
inputs (a ∷ rest) = (tun_input a.tun ++ udp_input a.udp) ++ inputs rest

-- The same bytes, to the other side.
pub data PassedOn : Input → Sent → Type 0 where
  up :
      {b msg : Buffer} {size : ℕ}
      → ((i : ℕ) → i < size → b i ≡ msg i)
      → PassedOn (from_tun msg size) (to_server b size)
  down :
      {b msg : Buffer} {size : ℕ}
      → ((i : ℕ) → i < size → b i ≡ msg i)
      → PassedOn (from_server msg size) (to_tun b size)

-- One packet is sent for each input, in order: for all of them while the client is running, and for
-- the first ones if it has exited.
pub data InOrder : List Input → Status → List Sent → Type 0 where
  all : InOrder [] running []
  stopped : {xs : List Input} → InOrder xs exited []
  next :
      {x : Input} {y : Sent} {xs : List Input} {status : Status} {ys : List Sent}
      → PassedOn x y
      → InOrder xs status ys
      → InOrder (x ∷ xs) status (y ∷ ys)

append :
    {xs xs' : List Input} {ys ys' : List Sent} {status : Status}
    → InOrder xs running ys
    → InOrder xs' status ys'
    → InOrder (xs ++ xs') status (ys ++ ys')
append all o' = o'
append (next p o) o' = next p (append o o')

extend :
    {xs : List Input} {ys : List Sent} (xs' : List Input)
    → InOrder xs exited ys
    → InOrder (xs ++ xs') exited ys
extend xs' stopped = stopped
extend xs' (next p o) = next p (extend xs' o)

after_send-InOrder :
    (accepts : Bool) (x : Input) (y : Sent) (b : Buffer)
    → PassedOn x y
    → let r = after_send accepts y b in InOrder (x ∷ []) r.0 r.1
unfolding after_send
after_send-InOrder true x y b p = next p all
after_send-InOrder false x y b p = stopped

module _ (eagain ewouldblock : ℕ) where
  continue_with-InOrder :
      (xs xs' : List Input) (r : Result) (rest : Buffer → Result)
      → InOrder xs r.0 r.1
      → ((b : Buffer) → InOrder xs' (rest b).0 (rest b).1)
      → let r' = continue_with eagain ewouldblock r rest in InOrder (xs ++ xs') r'.0 r'.1
  unfolding continue_with
  continue_with-InOrder xs xs' (exited, sent, b) rest o h = extend xs' o
  continue_with-InOrder xs xs' (running, sent, b) rest o h = append o (h b)

  tun_error-InOrder :
      (b : Buffer) (o : Option ℕ) → let r = tun_error eagain ewouldblock o b in InOrder [] r.0 r.1
  unfolding tun_error
  tun_error-InOrder b none = stopped
  tun_error-InOrder b (some n) = all

  up_read-InOrder :
      (b : Buffer) (accepts : Bool) (t : TunRead)
      → let r = up_read eagain ewouldblock b accepts t in InOrder (tun_input t) r.0 r.1
  unfolding up_read
  up_read-InOrder b accepts (TunRead.failed errno) =
      tun_error-InOrder b (poll_error eagain ewouldblock errno)
  up_read-InOrder b accepts (packet msg size) =
      after_send-InOrder accepts _ _ _ (up (fill_first msg size b))

  no_message-InOrder :
      (b : Buffer) (accepts : Bool) (errno : ℕ)
      → let r = down_read eagain ewouldblock b accepts (poll_error eagain ewouldblock errno) in
        InOrder [] r.0 r.1
  unfolding down_read poll_error
  no_message-InOrder b accepts errno =
      elim (Bool-cases (not (errno == eagain) || not (errno == ewouldblock))) [
        | inl failed ↦ rw failed stopped
        | inr idle ↦ rw idle all
      ]

  down_read-InOrder :
      (b : Buffer) (accepts : Bool) (x : Received)
      → let (ret, b', raddr) = read_msg_udp eagain ewouldblock b no_addr x in
        let r = down_read eagain ewouldblock b' accepts ret in InOrder (udp_input x) r.0 r.1
  unfolding down_read read_msg_udp
  down_read-InOrder b accepts (Received.failed errno) = no_message-InOrder b accepts errno
  down_read-InOrder b accepts (message msg zero from) = all
  down_read-InOrder b accepts (message msg (suc n) from) =
      after_send-InOrder accepts _ _ _ (down (fill_first msg (suc n) b))

  relay-InOrder :
      (b : Buffer) (answers : List Answers)
      → let r = relay eagain ewouldblock b answers in InOrder (inputs answers) r.0 r.1
  unfolding relay relay_round relay_up relay_down
  relay-InOrder b [] = all
  relay-InOrder b (a ∷ rest) =
      continue_with-InOrder (tun_input a.tun ++ udp_input a.udp) (inputs rest) _ _
        (continue_with-InOrder (tun_input a.tun) (udp_input a.udp) _ _
          (up_read-InOrder b a.server_accepts a.tun)
          (λ b'. down_read-InOrder b' a.tun_accepts a.udp))
        (λ b'. relay-InOrder b' rest)

  -- Both kernels take what is sent, and a read fails only for want of a message.
  abbrev pub Idle : ℕ → Type 0
  Idle errno = (errno ≡ eagain) × (errno ≡ ewouldblock)

  poll_error-Idle : (errno : ℕ) → Idle errno → poll_error eagain ewouldblock errno ≡ some 0
  unfolding poll_error
  poll_error-Idle errno (e, e') = ground arith

  abbrev pub SmoothTun : TunRead → Type 0
  SmoothTun (TunRead.failed errno) = Idle errno
  SmoothTun (packet msg size) = Unit

  abbrev pub SmoothUdp : Received → Type 0
  SmoothUdp (Received.failed errno) = Idle errno
  SmoothUdp (message msg size from) = Unit

  abbrev pub AllSmooth : List Answers → Type 0
  AllSmooth [] = Unit
  AllSmooth (a ∷ rest) =
      (a.server_accepts ≡ true)
      × (a.tun_accepts ≡ true)
      × SmoothTun a.tun
      × SmoothUdp a.udp
      × AllSmooth rest

  continue_with-running :
      (r : Result) (rest : Buffer → Result)
      → r.0 ≡ running
      → ((b : Buffer) → (rest b).0 ≡ running)
      → (continue_with eagain ewouldblock r rest).0 ≡ running
  unfolding continue_with
  continue_with-running (running, sent, b) rest e h = h b
  continue_with-running (exited, sent, b) rest e h = e

  up_read-running :
      (b : Buffer) (accepts : Bool) (t : TunRead)
      → accepts ≡ true
      → SmoothTun t
      → (up_read eagain ewouldblock b accepts t).0 ≡ running
  unfolding up_read tun_error after_send
  up_read-running b accepts (TunRead.failed errno) taken h = rw (poll_error-Idle errno h) refl
  up_read-running b accepts (packet msg size) taken h = rw taken refl

  down_read-running :
      (b : Buffer) (accepts : Bool) (x : Received)
      → accepts ≡ true
      → SmoothUdp x
      → let (ret, b', raddr) = read_msg_udp eagain ewouldblock b no_addr x in
        (down_read eagain ewouldblock b' accepts ret).0 ≡ running
  unfolding down_read read_msg_udp after_send
  down_read-running b accepts (Received.failed errno) taken h = rw (poll_error-Idle errno h) refl
  down_read-running b accepts (message msg zero from) taken h = refl
  down_read-running b accepts (message msg (suc n) from) taken h = rw taken refl

  relay-running :
      (b : Buffer) (answers : List Answers)
      → AllSmooth answers
      → (relay eagain ewouldblock b answers).0 ≡ running
  unfolding relay relay_round relay_up relay_down
  relay-running b [] h = refl
  relay-running b (a ∷ rest) (taken, taken', tun, udp, h) =
      continue_with-running _ _
        (continue_with-running _ _ (up_read-running b a.server_accepts a.tun taken tun)
          (λ b'. down_read-running b' a.tun_accepts a.udp taken' udp))
        (λ b'. relay-running b' rest h)

  -- What the client sends over any number of rounds: for the packets of the tunnel and the messages of
  -- the server that are not empty, in the order in which they are read, one packet each with the same
  -- size and bytes, to the other side; for all of them while it is running, and for the first ones if
  -- it has exited. It is running after rounds in which the kernels take what is sent and a read fails
  -- only with the error that stands for no message.
  pub relay-PassedOn :
      (b : Buffer) (answers : List Answers)
      → let r = relay eagain ewouldblock b answers in
        InOrder (inputs answers) r.0 r.1 × (AllSmooth answers → r.0 ≡ running)
  relay-PassedOn b answers = (relay-InOrder b answers, relay-running b answers)
