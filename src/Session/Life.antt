-- ===== src/Session/Life.antt =====
-- The life of a session table of src/lib/session_struct.c, from `init_hash_table` to
-- `delete_hash_table`, under any clock.
pub mod Step
pub mod Account
use benker_vpn.Base.{◌>>=◌, ℕ, Option, none, List, [], ◌∷◌, Run, ok}
use benker_vpn.Session
use benker_vpn.Session.{Ptr, Memory, Clock, Table}

-- What a program does with a table. `count` is what the variable of that name holds.
pub data Operation : Type 0 where
  add : (count client_ip client_port timeout : ℕ) → Operation
  by_client : (client_ip client_port : ℕ) → Operation
  by_server : (server_port : ℕ) → Operation
  clean : Operation

-- The session that a call returns, and what it leaves.
unfoldable pub operate : Clock → Operation → Memory → Table → Run (Option Ptr × Memory × Table)
unfolding Session.add_tcp_session Session.get_tcp_session_by_client
    Session.get_tcp_session_by_server Session.clean_expired_session
operate clock (add count client_ip client_port timeout) m c =
    Session.add_tcp_session clock count m c client_ip client_port timeout
operate clock (by_client client_ip client_port) m c = do
  session ← Session.get_tcp_session_by_client m c client_ip client_port
  ok (session, m, c)
operate clock (by_server server_port) m c = do
  session ← Session.get_tcp_session_by_server m c server_port
  ok (session, m, c)
operate clock clean m c = do (m₁, c₁) ← Session.clean_expired_session clock m c; ok (none, m₁, c₁)

-- The answers to the calls, and the memory once the table is deleted.
unfoldable pub serve : Clock → List Operation → Memory → Table → Run (List (Option Ptr) × Memory)
unfolding operate Session.delete_hash_table
serve clock [] m c = do m₁ ← Session.delete_hash_table m c; ok ([], m₁)
serve clock (o ∷ os) m c = do
  (a, m₁, c₁) ← operate clock o m c
  (answers, m₂) ← serve clock os m₁ c₁
  ok (a ∷ answers, m₂)
