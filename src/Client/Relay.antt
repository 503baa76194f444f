-- ===== src/Client/Relay.antt =====
-- The client of src/client/main.c relays packets as they are.
use benker_vpn.Base.{
  ℕ, zero, suc, ◌<◌, ◌≡◌, refl, true, false, arith, Bool, Option, none, some, List, [], ◌∷◌, ◌++◌,
  ap,
}
use benker_vpn.Packet.{Buffer}
use benker_vpn.Net.Laws.{fill_first}
use benker_vpn.Net.{SockaddrIn, Received, message, poll_error, read_msg_udp}
use benker_vpn.Client.{
  no_addr, TunRead, packet, Answers, Sent, to_server, to_tun, running, exited, Result, after_send,
  tun_error, up_read, relay_up, down_read, relay_down, continue_with, relay_round,
}

-- A packet that was sent is one of the two that were read.
pub data IsRelayed (a : Answers) : Sent → Type 0 where
  up :
      {b msg : Buffer} {size : ℕ}
      → a.tun ≡ packet msg size
      → ((i : ℕ) → i < size → b i ≡ msg i)
      → IsRelayed a (to_server b size)
  down :
      {b msg : Buffer} {size : ℕ} {from : SockaddrIn}
      → a.udp ≡ message msg size from
      → ((i : ℕ) → i < size → b i ≡ msg i)
      → 0 < size
      → IsRelayed a (to_tun b size)

abbrev pub AllRelayed : Answers → List Sent → Type 0
AllRelayed a [] = Unit
AllRelayed a (x ∷ xs) = IsRelayed a x × AllRelayed a xs

append_relayed :
    (a : Answers) (xs ys : List Sent) → AllRelayed a xs → AllRelayed a ys → AllRelayed a (xs ++ ys)
append_relayed a [] ys h h' = h'
append_relayed a (x ∷ xs) ys h h' = (h.0, append_relayed a xs ys h.1 h')

after_send_relayed :
    (a : Answers) (accepts : Bool) (x : Sent) (b : Buffer)
    → IsRelayed a x
    → AllRelayed a (after_send accepts x b).1
unfolding after_send
after_send_relayed a true x b h = (h, omega arith)
after_send_relayed a false x b h = omega arith

module _ (eagain ewouldblock : ℕ) where
  tun_error_relayed :
      (a : Answers) (o : Option ℕ) (b : Buffer) → AllRelayed a (tun_error eagain ewouldblock o b).1
  unfolding tun_error
  tun_error_relayed a none b = omega arith
  tun_error_relayed a (some n) b = omega arith

  up_read_relayed :
      (b : Buffer) (a : Answers) (t : TunRead)
      → a.tun ≡ t
      → AllRelayed a (up_read eagain ewouldblock b a.server_accepts t).1
  unfolding up_read
  up_read_relayed b a (TunRead.failed errno) e =
      tun_error_relayed a (poll_error eagain ewouldblock errno) b
  up_read_relayed b a (packet msg size) e =
      after_send_relayed a a.server_accepts _ _ (up e (fill_first msg size b))

  relay_up_relayed : (b : Buffer) (a : Answers) → AllRelayed a (relay_up eagain ewouldblock b a).1
  unfolding relay_up
  relay_up_relayed b a = up_read_relayed b a a.tun refl

  down_read_relayed :
      (b : Buffer) (a : Answers) (accepts : Bool) (o : Option ℕ)
      → ((n : ℕ) → o ≡ some (suc n) → IsRelayed a (to_tun b (suc n)))
      → AllRelayed a (down_read eagain ewouldblock b accepts o).1
  unfolding down_read
  down_read_relayed b a accepts none h = omega arith
  down_read_relayed b a accepts (some zero) h = omega arith
  down_read_relayed b a accepts (some (suc n)) h =
      after_send_relayed a accepts (to_tun b (suc n)) b (h n refl)

  read_relayed :
      (b : Buffer) (x : Received) (n : ℕ)
      → (read_msg_udp eagain ewouldblock b no_addr x).0 ≡ some (suc n)
      → (msg : Buffer) × (from : SockaddrIn) × (x ≡ message msg (suc n) from)
        × ((i : ℕ) → i < suc n → (read_msg_udp eagain ewouldblock b no_addr x).1 i ≡ msg i)
  unfolding read_msg_udp poll_error
  read_relayed b (Received.failed e) n is = absurd (ground arith)
  read_relayed b (message msg size from) n is =
      let same : size ≡ suc n = cc in
      (msg, from, ap (λ k. message msg k from) same, λ i h. fill_first msg size b i (omega arith))

  relay_down_relayed :
      (b : Buffer) (a : Answers) → AllRelayed a (relay_down eagain ewouldblock b a).1
  unfolding relay_down
  relay_down_relayed b a =
      down_read_relayed _ a a.tun_accepts _
        (λ n is. let (msg, from, e, same) = read_relayed b a.udp n is in down e same (omega arith))

  continue_relayed :
      (a : Answers) (r : Result) (next : Buffer → Result)
      → AllRelayed a r.1
      → ((b : Buffer) → AllRelayed a (next b).1)
      → AllRelayed a (continue_with eagain ewouldblock r next).1
  unfolding continue_with
  continue_relayed a (exited, sent, b) next h h' = h
  continue_relayed a (running, sent, b) next h h' = append_relayed a sent (next b).1 h (h' b)

  -- Every packet that the client sends in a round is one that it has just read, the same bytes and
  -- the same size: from the tunnel to the server, or, if it is not empty, from the server to the
  -- tunnel.
  pub relay_round_relayed :
      (b : Buffer) (a : Answers) → AllRelayed a (relay_round eagain ewouldblock b a).1
  unfolding relay_round
  relay_round_relayed b a =
      continue_relayed a (relay_up eagain ewouldblock b a) _ (relay_up_relayed b a)
        (λ b'. relay_down_relayed b' a)
