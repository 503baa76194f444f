-- ===== src/Trials/Connection.antt =====
-- `main5` of src/server/main_trial.c: the packets of one connection, from the first `SYN` to the last
-- `ACK`, go through the handlers. It calls these with the arguments of an older version, which is not
-- in the repository: they are parameters.
use Prim.Native.String.{String}
use Prim.Native.Char.{code}
use benker_vpn.Base.{ℕ, Bool, true, false, List, [], ◌∷◌, Run, ok, ◌>>=◌}
use benker_vpn.Packet.{Buffer}
use benker_vpn.Session.{Memory, Table, Clock, init_hash_table, delete_hash_table}
use benker_vpn.Session.Print.{Lines, print_session_hash_table}
use benker_vpn.Handler.{Reply, valid_session, invalid_session}
use benker_vpn.Hex.{load_packet}

-- The codes of the characters of a text.
abbrev pub codes : String → List ℕ
codes String.[] = []
codes (String.◌∷◌ c s) = code c ∷ codes s

pub data Side : Type 0 where
  from_client from_world : Side

-- A handler of the older version: what it answers, and what it leaves of the table.
abbrev pub OldHandler : Type 0
OldHandler = Memory → Table → Buffer → (buffer_len : ℕ) → Run (Reply × Memory × Table)

abbrev max_buf : ℕ
max_buf = 3000

abbrev pub accepts : Reply → Bool
accepts (valid_session b) = true
accepts (invalid_session b size) = false

abbrev pub buffer_of_reply : Reply → Buffer
buffer_of_reply (valid_session b) = b
buffer_of_reply (invalid_session b size) = b

-- `packets`, with the handler that each one is given to.
unfoldable pub packets : List (Side × String)
packets =
    (
      from_client,
      "4510003ce73b400040066479c0a80102ac43810980a00050c6510d3d00000000a002faf0f41e0000020405b40402080a3b0fda6a0000000001030307",
    )
    ∷ (
      from_world,
      "4500003400004000370654cdac438109c0a80102005080a01a8f34f6c6510d3e8012ffffdc3d000002040578010104020103030a",
    )
    ∷ (
      from_client,
      "45100028e73c40004006648cc0a80102ac43810980a00050c6510d3e1a8f34f7501001f61ae10000",
    )
    ∷ (
      from_client,
      "4510002de73d400040066486c0a80102ac43810980a00050c6510d3e1a8f34f7501801f614e10000fff4fffd06",
    )
    ∷ (
      from_world,
      "450000283159400037062380ac438109c0a80102005080a01a8f34f7c6510d43501000401c920000",
    )
    ∷ (
      from_world,
      "45000164315a400037062243ac438109c0a80102005080a01a8f34f7c6510d435018004026fb0000485454502f312e31203430302042616420526571756573740d0a5365727665723a20636c6f7564666c6172650d0a446174653a2053756e2c203130204a616e20323032312031333a34363a343720474d540d0a436f6e74656e742d547970653a20746578742f68746d6c0d0a436f6e74656e742d4c656e6774683a203135350d0a436f6e6e656374696f6e3a20636c6f73650d0a43462d5241593a202d0d0a0d0a3c68746d6c3e0d0a3c686561643e3c7469746c653e3430302042616420526571756573743c2f7469746c653e3c2f686561643e0d0a3c626f64793e0d0a3c63656e7465723e3c68313e3430302042616420526571756573743c2f68313e3c2f63656e7465723e0d0a3c68723e3c63656e7465723e636c6f7564666c6172653c2f63656e7465723e0d0a3c2f626f64793e0d0a3c2f68746d6c3e0d0a",
    )
    ∷ (
      from_client,
      "45100028e73e40004006648ac0a80102ac43810980a00050c6510d431a8f3633501001f419a20000",
    )
    ∷ (
      from_world,
      "45000028315b40003706237eac438109c0a80102005080a01a8f3633c6510d43501100401b550000",
    )
    ∷ (
      from_client,
      "45100028e73f400040066489c0a80102ac43810980a00050c6510d431a8f3634501101f5199f0000",
    )
    ∷ (
      from_world,
      "45000028315c40003706237dac438109c0a80102005080a01a8f3634c6510d44501000401b540000",
    )
    ∷ []

module _ (handle_client_packet handle_world_packet : OldHandler) where
  abbrev handler : Side → OldHandler
  handler from_client = handle_client_packet
  handler from_world = handle_world_packet

  -- A packet after the other: loaded over what the buffer holds, and handled. What is returned is which
  -- of them passed; the program prints the others.
  unfoldable pub play :
      Memory → Table → Buffer → List (Side × String) → Run (List Bool × Memory × Table)
  unfolding load_packet
  play m t b [] = ok ([], m, t)
  play m t b ((side, text) ∷ rest) = do
    (reply, m₁, t₁) ← handler side m t (load_packet b 0 (codes text)) max_buf
    (passed, m₂, t₂) ← play m₁ t₁ (buffer_of_reply reply) rest
    ok (accepts reply ∷ passed, m₂, t₂)

  -- Which packets passed, what is printed of the sessions, and the memory that is left.
  unfoldable pub main5 : Clock → Memory → Buffer → Run (List Bool × List Lines × Memory)
  unfolding play packets
  main5 clock m b = do
    (passed, m₁, t) ← play m (init_hash_table 100 32928 33000) b packets
    (lines, m₂) ← print_session_hash_table clock m₁ t
    m₃ ← delete_hash_table m₂ t
    ok (passed, lines, m₃)
