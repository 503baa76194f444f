-- ===== src/Tests/Hash.antt =====
-- A session table of src/lib/session_struct.c with its nodes, for the life of two clients.
use benker_vpn.Base.{
  ℕ, ltb, if◌then◌else◌, Bool, Run, true, false, ◌≡◌, refl, arith, none, some, [], ◌∷◌, List, ok,
  Returns, Agree, Agree-at, Returns-at, Option, int_zero, ◌>>=◌,
}
use benker_vpn.Session
use benker_vpn.Session.{Ptr, Memory, Clock, Table}
use benker_vpn.Session.Safe.{IsSafe, IsValid-IsSafe}
use benker_vpn.Session.Safe.Clean.{Ticked, clean_expired_session-Ticked}
use benker_vpn.Session.Clean.{later}
use benker_vpn.Session.Life.{Operation, add, by_client, by_server, clean, serve}
use benker_vpn.Session.Life.Account.{Outlives, life-Accounted}
use benker_vpn.Session.Nodes.Hash
use benker_vpn.Session.Nodes.Hash.{Nodes, HashTable}
use benker_vpn.Session.Lookup.{add_tcp_session-IsValid}
use benker_vpn.Session.Nodes.Hash.Add.{SameResult, add_tcp_session-Agree}
use benker_vpn.Session.Nodes.Hash.Clean.{SameTable, clean_expired_session-Agree}
use benker_vpn.Session.Nodes.Hash.Life.{
  no_nodes, serve_nodes, init_hash_table-Represents, SameLife, safe_chains, life-SameLife,
}
use benker_vpn.Tests.Data.{no_memory, frozen, first_table, first_table-IsValid}

-- It is 11 from the third call of `time(NULL)` on.
abbrev tick : Clock
tick n = if ltb n 2 then 0 else 11

-- The first session expires at 10, between the looks at the two lists that hold it. The table has two
-- ports, and the third session gets the port of the first one.
abbrev calls : List Operation
calls =
    add int_zero 7 1001 10
    ∷ clean
    ∷ add int_zero 8 1001 10
    ∷ add int_zero 9 1000 10
    ∷ by_client 7 1001
    ∷ by_server 10
    ∷ []

life-SameLife_example :
    Returns
      (SameLife (serve tick calls no_memory (Session.init_hash_table 3 10 11)))
      (serve_nodes tick calls no_memory no_nodes (Hash.init_hash_table 3 10 11))
life-SameLife_example =
    life-SameLife tick calls no_memory 3 10 11 (λ p h. cc) (omega arith) (omega arith) (omega arith)
      (omega arith)

life-Accounted_example :
    Returns
      (λ x. Outlives tick no_memory x.1)
      (serve tick calls no_memory (Session.init_hash_table 3 10 11))
life-Accounted_example =
    life-Accounted tick calls no_memory 3 10 11 (λ p h. cc) (omega arith) (omega arith)
      (omega arith) (omega arith)

-- The answers, the ports of the first and the third session, and which sessions are left in the end.
abbrev ticked : Run (List (Option Ptr) × ℕ × ℕ × List Bool)
ticked = do
  (answers, m, ns) ← serve_nodes tick calls no_memory no_nodes (Hash.init_hash_table 3 10 11)
  ok (answers, (m.cell 1).server_port, (m.cell 3).server_port, m.live 1 ∷ m.live 2 ∷ m.live 3 ∷ [])

port_shared :
    ticked
    ≡ ok (some 1 ∷ none ∷ some 2 ∷ some 3 ∷ some 1 ∷ some 3 ∷ [], 10, 10, true ∷ false ∷ false ∷ [])
unfolding serve_nodes Hash.init_hash_table
port_shared = refl

add_tcp_session-Agree_example :
    Agree SameResult
      (Hash.add_tcp_session frozen int_zero no_memory no_nodes
        (Hash.init_hash_table 200 40000 41000)
        7
        1000
        10)
      (Session.add_tcp_session frozen int_zero no_memory
        (Session.init_hash_table 200 40000 41000)
        7
        1000
        10)
add_tcp_session-Agree_example =
    add_tcp_session-Agree frozen int_zero no_memory no_nodes (Hash.init_hash_table 200 40000 41000)
      (Session.init_hash_table 200 40000 41000) 7 1000 10
      (init_hash_table-Represents 200 40000 41000)

-- The table with one client, on chains and on nodes.
on_chains :
    (x : Option Ptr × Memory × Table) × (Session.add_tcp_session frozen int_zero no_memory
        (Session.init_hash_table 200 40000 41000)
        7
        1000
        10
      ≡ ok x)
unfolding Session.add_tcp_session Session.init_hash_table
on_chains = (_, refl)

on_nodes :
    (x : Option Ptr × Memory × Nodes × HashTable) × (Hash.add_tcp_session frozen int_zero no_memory
        no_nodes
        (Hash.init_hash_table 200 40000 41000)
        7
        1000
        10
      ≡ ok x)
unfolding Hash.add_tcp_session Hash.init_hash_table
on_nodes = (_, refl)

one_client : SameResult on_nodes.0 on_chains.0
one_client =
    Agree-at
      (add_tcp_session-Agree frozen int_zero no_memory no_nodes
        (Hash.init_hash_table 200 40000 41000) (Session.init_hash_table 200 40000 41000) 7 1000 10
        (init_hash_table-Represents 200 40000 41000))
      on_nodes.1 on_chains.1

one_client-IsSafe : IsSafe on_chains.0.1 on_chains.0.2
one_client-IsSafe = IsValid-IsSafe (
    Returns-at
      (add_tcp_session-IsValid frozen int_zero no_memory first_table 7 1000 10 first_table-IsValid)
      on_chains.1)

clean_expired_session-Agree_example :
    Agree SameTable
      (Hash.clean_expired_session frozen on_chains.0.1 on_nodes.0.2 on_nodes.0.3)
      (Session.clean_expired_session frozen on_chains.0.1 on_chains.0.2)
clean_expired_session-Agree_example =
    clean_expired_session-Agree frozen on_chains.0.1 on_nodes.0.2 on_nodes.0.3 on_chains.0.2
      one_client.2 (safe_chains one_client-IsSafe)

clean_expired_session-Ticked_example :
    (n : ℕ) × (c' : Table) × (Session.clean_expired_session tick on_chains.0.1 on_chains.0.2
      ≡ ok (later on_chains.0.1 n, c'))
    × Ticked tick on_chains.0.1 on_chains.0.1.calls n on_chains.0.2 c'
clean_expired_session-Ticked_example =
    clean_expired_session-Ticked tick on_chains.0.1 on_chains.0.2 one_client-IsSafe
