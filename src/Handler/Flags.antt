-- ===== src/Handler/Flags.antt =====
-- How the handlers of src/lib/packet_handler.c move the state of a session.
use benker_vpn.Base.{◌-◌, ◌^◌, ◌≤◌, ◌<◌, ◌≡◌, true, arith, ◌⊎◌, inl, inr, List, [], ◌∷◌}
use benker_vpn.Session.{Session}
use benker_vpn.Handler.{Segment, client_flags, world_flags}

-- The states that a session can have: no handshake, `SYN` answered, handshake complete; each `FIN`
-- not sent, sent, acknowledged.
pub record IsState (s : Session) : Type 0 where
  pub syn : (s.syn_state ≡ 0) ⊎ (s.syn_state ≡ 2) ⊎ (s.syn_state ≡ 3)
  pub client_fin : s.client_fin_state ≤ 2
  pub server_fin : s.server_fin_state ≤ 2

-- `s'` is the same session, no further back than `s`.
pub record Advances (s s' : Session) : Type 0 where
  pub same_client_ip : s'.client_ip ≡ s.client_ip
  pub same_client_port : s'.client_port ≡ s.client_port
  pub same_server_port : s'.server_port ≡ s.server_port
  pub same_expire : s'.expire ≡ s.expire
  pub syn : s.syn_state ≤ s'.syn_state
  pub client_fin : s.client_fin_state ≤ s'.client_fin_state
  pub server_fin : s.server_fin_state ≤ s'.server_fin_state

-- A packet from either side of the gateway.
pub data Event : Type 0 where
  from_client : Segment → Event
  from_world : Segment → Event

unfoldable pub on_event : Session → Event → Session
on_event s (from_client g) = client_flags s g
on_event s (from_world g) = world_flags s g

unfoldable pub run_events : Session → List Event → Session
run_events s [] = s
run_events s (e ∷ es) = run_events (on_event s e) es

pub client_flags-Advances :
    (s : Session) (g : Segment)
    → IsState s
    → IsState (client_flags s g) × Advances s (client_flags s g)
unfolding client_flags
client_flags-Advances s g h = ground arith

pub world_flags-Advances :
    (s : Session) (g : Segment)
    → IsState s
    → IsState (world_flags s g) × Advances s (world_flags s g)
unfolding world_flags
world_flags-Advances s g h = ground arith

on_event-Advances :
    (s : Session) (e : Event) → IsState s → IsState (on_event s e) × Advances s (on_event s e)
unfolding on_event
on_event-Advances s (from_client g) h = client_flags-Advances s g h
on_event-Advances s (from_world g) h = world_flags-Advances s g h

-- From a state that a session can have, any sequence of packets leads to one, never back, and
-- changes neither the addresses and ports of the session nor the time at which it expires.
pub run_events-Advances :
    (s : Session) (es : List Event)
    → IsState s
    → IsState (run_events s es) × Advances s (run_events s es)
unfolding run_events
run_events-Advances s [] h = (h, omega arith)
run_events-Advances s (e ∷ es) h =
    let (h', a) = on_event-Advances s e h in
    let (h'', a') = run_events-Advances (on_event s e) es h' in (h'', omega arith)

-- The two moves of the handshake.
pub data SynMove (s : Session) : Event → Session → Type 0 where
  stays : {e : Event} {s' : Session} → s'.syn_state ≡ s.syn_state → SynMove s e s'
  answered :
      {g : Segment} {s' : Session}
      → s.syn_state ≡ 0
      → g.is_syn ≡ true
      → g.is_ack ≡ true
      → s.client_last_state_seq < g.ack_number
      → s'.syn_state ≡ 2
      → s'.server_last_state_seq ≡ g.seq_number
      → SynMove s (from_world g) s'
  completed :
      {g : Segment} {s' : Session}
      → s.syn_state ≡ 2
      → g.is_ack ≡ true
      → s.server_last_state_seq < g.ack_number
      → s'.syn_state ≡ 3
      → SynMove s (from_client g) s'

client_syn :
    (s : Session) (g : Segment)
    → ((client_flags s g).syn_state ≡ s.syn_state)
      ⊎ ((s.syn_state ≡ 2)
          × (g.is_ack ≡ true)
          × (s.server_last_state_seq < g.ack_number)
          × ((client_flags s g).syn_state ≡ 3))
unfolding client_flags
client_syn s g = ground arith

world_syn :
    (s : Session) (g : Segment)
    → ((world_flags s g).syn_state ≡ s.syn_state)
      ⊎ ((s.syn_state ≡ 0)
          × (g.is_syn ≡ true)
          × (g.is_ack ≡ true)
          × (s.client_last_state_seq < g.ack_number)
          × ((world_flags s g).syn_state ≡ 2)
          × ((world_flags s g).server_last_state_seq ≡ g.seq_number))
unfolding world_flags
world_syn s g = ground arith

-- A packet leaves the handshake where it is, or the world answers the first `SYN` with a `SYN` that
-- acknowledges more than `client_last_state_seq` and whose number becomes `server_last_state_seq`, or
-- the client acknowledges more than the `server_last_state_seq` that the session then holds.
pub on_event-SynMove : (s : Session) (e : Event) → SynMove s e (on_event s e)
unfolding on_event
on_event-SynMove s (from_client g) = elim (client_syn s g) [
  | inl same ↦ stays same
  | inr (at, acks, more, done) ↦ completed at acks more done
]
on_event-SynMove s (from_world g) = elim (world_syn s g) [
  | inl same ↦ stays same
  | inr (at, syns, acks, more, done, number) ↦ answered at syns acks more done number
]

-- Sequence numbers are compared as numbers and not modulo 2 ^ 32: where the client's last number is
-- 2 ^ 32 - 1, no packet of the world, its acknowledged number below 2 ^ 32, moves the handshake.
pub world_flags_stuck :
    (s : Session) (g : Segment)
    → s.client_last_state_seq ≡ 2 ^ 32 - 1
    → g.ack_number < 2 ^ 32
    → (world_flags s g).syn_state ≡ s.syn_state
unfolding world_flags
world_flags_stuck s g last fits = ground arith
