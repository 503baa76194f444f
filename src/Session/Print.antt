-- ===== src/Session/Print.antt =====
-- `print_session_linked_list` and `print_session_hash_table` of src/lib/session_struct.c: what is
-- printed of each session, and the calls of `time(NULL)` that this takes.
use benker_vpn.Base.{
  ℕ, zero, suc, ◌+◌, ◌≡◌, refl, Bool, List, [], ◌∷◌, ◌++◌, arith, Run, ok, Returns, returns,
  Returns-bind, ◌>>=◌,
}
use benker_vpn.Session.{Memory, Chain, Clock, Table, load, session_expired}
use benker_vpn.Session.Search.{AllLive, load-ok}
use benker_vpn.Session.Valid.{IsValid, server_home}
use benker_vpn.Session.Clean.{later, session_expired-run}

-- The lines for one session: the numbers as they are printed, and whether it has expired.
pub record Lines : Type 0 where
  pub client_ip : ℕ
  pub client_port : ℕ
  pub server_port : ℕ
  pub syn_state : ℕ
  pub client_fin_state : ℕ
  pub server_fin_state : ℕ
  pub expired : Bool

unfoldable pub print_session_linked_list : Clock → Memory → Chain → Run (List Lines × Memory)
unfolding load
print_session_linked_list clock m [] = ok ([], m)
print_session_linked_list clock m (p ∷ ps) = do
  s ← load m p
  (dead, m₁) ← session_expired clock m p
  (rest, m₂) ← print_session_linked_list clock m₁ ps
  let lines : Lines = record {
    client_ip = s.client_ip;
    client_port = s.client_port;
    server_port = s.server_port;
    syn_state = s.syn_state;
    client_fin_state = s.client_fin_state;
    server_fin_state = s.server_fin_state;
    expired = dead;
  }
  ok (lines ∷ rest, m₂)

-- `for (i = 0; i < len; ++i)`, with `left` rounds to go.
unfoldable pub print_lists : Clock → Table → (left i : ℕ) → Memory → Run (List Lines × Memory)
unfolding print_session_linked_list
print_lists clock t zero i m = ok ([], m)
print_lists clock t (suc left) i m = do
  (lines, m₁) ← print_session_linked_list clock m (t.list_client_key i)
  (rest, m₂) ← print_lists clock t left (i + 1) m₁
  ok (lines ++ rest, m₂)

unfoldable pub print_session_hash_table : Clock → Memory → Table → Run (List Lines × Memory)
unfolding print_lists
print_session_hash_table clock m t = print_lists clock t t.len 0 m

-- Printing only calls `time(NULL)`.
abbrev pub OnlyCalls : Memory → List Lines × Memory → Type 0
OnlyCalls m (lines, m') = (n : ℕ) × (m' ≡ later m n)

print_session_linked_list-OnlyCalls :
    (clock : Clock) (m : Memory) (n : ℕ) (ps : Chain)
    → AllLive m ps
    → Returns (OnlyCalls m) (print_session_linked_list clock (later m n) ps)
unfolding print_session_linked_list
print_session_linked_list-OnlyCalls clock m n [] live = returns (n, refl)
print_session_linked_list-OnlyCalls clock m n (p ∷ ps) live =
    let alive = live p (ground arith) in
    rw (load-ok (later m n) p alive, session_expired-run clock (later m n) p alive)
      (Returns-bind
        (print_session_linked_list-OnlyCalls clock m (n + 1) ps (λ q i. live q (ground arith)))
        (λ x h. returns h))

print_lists-OnlyCalls :
    (clock : Clock) (m : Memory) (t : Table) (left i n : ℕ)
    → ((j : ℕ) → AllLive m (t.list_client_key j))
    → Returns (OnlyCalls m) (print_lists clock t left i (later m n))
unfolding print_lists
print_lists-OnlyCalls clock m t zero i n live = returns (n, refl)
print_lists-OnlyCalls clock m t (suc left) i n live =
    Returns-bind (print_session_linked_list-OnlyCalls clock m n (t.list_client_key i) (live i))
      (λ x h.
        rw h.1 (
          Returns-bind (print_lists-OnlyCalls clock m t left (i + 1) h.0 live)
            (λ y h'. returns h')))

pub print_session_hash_table-OnlyCalls :
    (clock : Clock) (m : Memory) (t : Table)
    → IsValid m t
    → Returns (OnlyCalls m) (print_session_hash_table clock m t)
unfolding print_session_hash_table
print_session_hash_table-OnlyCalls clock m t v =
    print_lists-OnlyCalls clock m t t.len 0 m.calls
      (λ i p h. ground (arith, v.clients i p, v.servers (server_home m t p) p))
