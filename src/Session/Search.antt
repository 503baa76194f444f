-- ===== src/Session/Search.antt =====
-- What the two searches of src/lib/session_struct.c find.
use benker_vpn.Base.{
  ℕ, ◌≡◌, Bool, true, false, ◌||◌, ◌&&◌, Option, none, some, [], ◌∷◌, arith, ◌==◌, Run, ok,
  Bool-cases, inl, inr,
}
use benker_vpn.Session.{
  Ptr, Memory, Chain, load, insert_tcp_session, search_tcp_session_by_client,
  search_tcp_session_by_server,
}

abbrev pub has : Ptr → Chain → Bool
has p [] = false
has p (q ∷ ps) = (p == q) || has p ps

-- Every session of the chain is allocated.
abbrev pub AllLive : Memory → Chain → Type 0
AllLive m ps = (p : Ptr) → has p ps ≡ true → m.live p ≡ true

abbrev pub is_client : Memory → ℕ → ℕ → Ptr → Bool
is_client m ip port p = (m.cell p).client_ip == ip && (m.cell p).client_port == port

abbrev pub is_server : Memory → ℕ → Ptr → Bool
is_server m port p = (m.cell p).server_port == port

-- A search that does not fault: it finds a session of the chain that passes the test, or none does.
pub data Searched (test : Ptr → Bool) (ps : Chain) : Run (Option Ptr) → Type 0 where
  found : (p : Ptr) → has p ps ≡ true → test p ≡ true → Searched test ps (ok (some p))
  absent : ((p : Ptr) → has p ps ≡ true → test p ≡ false) → Searched test ps (ok none)

pub load-ok : (m : Memory) (p : Ptr) → m.live p ≡ true → load m p ≡ ok (m.cell p)
unfolding load
load-ok m p h = rw h

Searched-cons :
    (test : Ptr → Bool) (q : Ptr) (ps : Chain) {r : Run (Option Ptr)}
    → test q ≡ false
    → Searched test ps r
    → Searched test (q ∷ ps) r
Searched-cons test q ps miss (found p i h) = found p (ground arith) h
Searched-cons test q ps miss (absent no_one) = absent λ p i. ground (arith, no_one p)

==_self : (q : ℕ) (b : Bool) → ((q == q) || b) ≡ true
==_self q b = ground arith

AllLive-tail : (m : Memory) (q : Ptr) (ps : Chain) → AllLive m (q ∷ ps) → AllLive m ps
AllLive-tail m q ps h p i = h p (ground arith)

pub search_by_client-Searched :
    (m : Memory) (ps : Chain) (ip port : ℕ)
    → AllLive m ps
    → Searched (is_client m ip port) ps (search_tcp_session_by_client m ps ip port)
unfolding search_tcp_session_by_client
search_by_client-Searched m [] ip port h = absent λ p i. cc
search_by_client-Searched m (q ∷ ps) ip port h =
    rw (load-ok m q (h q (==_self q (has q ps)))) (elim (Bool-cases (is_client m ip port q)) [
      | inl hit ↦ rw hit (found q (==_self q (has q ps)) hit)
      | inr miss ↦ rw miss (
          Searched-cons (is_client m ip port) q ps miss
            (search_by_client-Searched m ps ip port (AllLive-tail m q ps h)))
    ])

pub search_by_server-Searched :
    (m : Memory) (ps : Chain) (port : ℕ)
    → AllLive m ps
    → Searched (is_server m port) ps (search_tcp_session_by_server m ps port)
unfolding search_tcp_session_by_server
search_by_server-Searched m [] port h = absent λ p i. cc
search_by_server-Searched m (q ∷ ps) port h =
    rw (load-ok m q (h q (==_self q (has q ps)))) (elim (Bool-cases (is_server m port q)) [
      | inl hit ↦ rw hit (found q (==_self q (has q ps)) hit)
      | inr miss ↦ rw miss (
          Searched-cons (is_server m port) q ps miss
            (search_by_server-Searched m ps port (AllLive-tail m q ps h)))
    ])

pub has-insert_tcp_session :
    (p q : Ptr) (ps : Chain) → has p (insert_tcp_session ps q) ≡ (has p ps || (p == q))
unfolding insert_tcp_session
has-insert_tcp_session p q [] = ground arith
has-insert_tcp_session p q (x ∷ ps) = ground (arith, has-insert_tcp_session p q ps)

-- A pointer stands in a chain once at most.
abbrev pub Distinct : Chain → Type 0
Distinct [] = Unit
Distinct (p ∷ ps) = (has p ps ≡ false) × Distinct ps

pub Distinct-insert_tcp_session :
    (q : Ptr) (ps : Chain) → has q ps ≡ false → Distinct ps → Distinct (insert_tcp_session ps q)
unfolding insert_tcp_session
Distinct-insert_tcp_session q [] h d = ground arith
Distinct-insert_tcp_session q (x ∷ ps) h d = (
  ground (arith, has-insert_tcp_session x q ps),
  Distinct-insert_tcp_session q ps (ground arith) d.1,
)
