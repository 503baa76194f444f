-- ===== src/Trials/Sessions.antt =====
-- `main4` of src/server/main_trial.c: sessions are added, printed, and deleted with their table.
pub mod Laws
use benker_vpn.Base.{ℕ, zero, suc, ◌+◌, none, some, List, Run, ok, ◌>>=◌}
use benker_vpn.Session.{Memory, Table, Clock, init_hash_table, add_tcp_session, delete_hash_table}
use benker_vpn.Session.Print.{Lines, print_session_hash_table}

-- `for (i=0; i<10; i++)`, with `left` rounds to go. `counts` is what the variable of that name in
-- `add_tcp_session` holds in each round.
unfoldable pub add_sessions :
    Clock → (counts : ℕ → ℕ) → (left i : ℕ) → Memory → Table → Run (Memory × Table)
unfolding add_tcp_session
add_sessions clock counts zero i m t = ok (m, t)
add_sessions clock counts (suc left) i m t = do
  (session, m₁, t₁) ← add_tcp_session clock (counts i) m t i i i
  elim session [ none ↦ ok (m₁, t₁) | some p ↦ add_sessions clock counts left (i + 1) m₁ t₁ ]

-- What is printed of the sessions, and the memory that is left.
unfoldable pub main4 : Clock → (counts : ℕ → ℕ) → Memory → Run (List Lines × Memory)
main4 clock counts m = do
  (m₁, t) ← add_sessions clock counts 10 0 m (init_hash_table 100 10000 10010)
  (lines, m₂) ← print_session_hash_table clock m₁ t
  m₃ ← delete_hash_table m₂ t
  ok (lines, m₃)
