-- ===== src/Tests/Sessions.antt =====
-- src/lib/session_struct.c at concrete tables.
use benker_vpn.Base.{
  ◌+◌, ◌≡◌, refl, arith, none, some, Option, ok, Returns, Returns-at, int_zero, Run, ◌>>=◌,
}
use benker_vpn.Session.{
  Memory, Table, Ptr, add_tcp_session, get_tcp_session_by_client, get_tcp_session_by_server,
  init_hash_table, clean_expired_session, delete_hash_table,
}
use benker_vpn.Session.Valid.{IsValid, Taken, listed, init_hash_table-IsValid}
use benker_vpn.Session.Add.{Added, add_tcp_session-Added}
use benker_vpn.Session.Lookup.{AddThenGet, add_tcp_session-IsValid, add_tcp_session-get}
use benker_vpn.Session.Lookup.Full.{add_tcp_session-none}
use benker_vpn.Session.Clean.{CleanedTable, clean_expired_session-Cleaned}
use benker_vpn.Session.Delete.{Freed, delete_hash_table-Freed}
use benker_vpn.Tests.Data.{no_memory, first_table, first_table-IsValid, frozen, value}

-- Two clients of a table with the ports 10 and 11, and a third that gets none.
abbrev small : Table
small = init_hash_table 3 10 11

abbrev added : Run (Option Ptr × Option Ptr × Option Ptr × Option Ptr × Option Ptr)
added = do
  (a, m₁, t₁) ← add_tcp_session frozen int_zero no_memory small 7 1000 10
  (b, m₂, t₂) ← add_tcp_session frozen int_zero m₁ t₁ 7 1001 10
  (c, m₃, t₃) ← add_tcp_session frozen int_zero m₂ t₂ 8 1000 10
  x ← get_tcp_session_by_client m₃ t₃ 7 1001
  y ← get_tcp_session_by_server m₃ t₃ 10
  ok (a, b, c, x, y)

three_clients : added ≡ ok (some 1, some 2, none, some 2, some 1)
unfolding add_tcp_session get_tcp_session_by_client get_tcp_session_by_server init_hash_table
three_clients = refl

-- What `count` holds on entry matters: here the second client gets no port, and port 11 is free.
abbrev added_late : Run (Option Ptr × Option Ptr)
added_late = do
  (a, m₁, t₁) ←
      add_tcp_session frozen (int_zero + 2) no_memory (record small { next_num = 1 }) 7 1000 10
  (b, m₂, t₂) ← add_tcp_session frozen (int_zero + 2) m₁ (record t₁ { next_num = 1 }) 7 1001 10
  ok (a, b)

garbage_count : added_late ≡ ok (some 1, none)
unfolding add_tcp_session init_hash_table
garbage_count = refl

add_tcp_session-Added_example :
    Returns
      (Added frozen int_zero no_memory first_table 7 1000 10)
      (add_tcp_session frozen int_zero no_memory first_table 7 1000 10)
add_tcp_session-Added_example =
    add_tcp_session-Added frozen no_memory first_table 7 1000 10 int_zero first_table-IsValid

add_tcp_session-IsValid_example :
    Returns (λ r. IsValid r.1 r.2) (add_tcp_session frozen int_zero no_memory first_table 7 1000 10)
add_tcp_session-IsValid_example =
    add_tcp_session-IsValid frozen int_zero no_memory first_table 7 1000 10 first_table-IsValid

add_tcp_session-get_example :
    Returns
      (AddThenGet no_memory first_table 7 1000)
      (add_tcp_session frozen int_zero no_memory first_table 7 1000 10)
add_tcp_session-get_example =
    add_tcp_session-get frozen int_zero no_memory first_table 7 1000 10 first_table-IsValid

clean_expired_session-Cleaned_example :
    Returns
      (CleanedTable frozen 100 (λ n. refl) no_memory first_table)
      (clean_expired_session frozen no_memory first_table)
clean_expired_session-Cleaned_example =
    clean_expired_session-Cleaned frozen 100 (λ n. refl) no_memory first_table first_table-IsValid

-- A table with the one port 10, after it has been given away.
abbrev one_port : Table
one_port = init_hash_table 3 10 10

abbrev first_client : Option Ptr × Memory × Table
first_client =
    value (none, no_memory, one_port) (add_tcp_session frozen int_zero no_memory one_port 7 1000 10)

abbrev second_client : Option Ptr × Memory × Table
second_client =
    value (none, no_memory, one_port)
      (add_tcp_session frozen int_zero first_client.1 first_client.2 7 1001 10)

first_client_run : add_tcp_session frozen int_zero no_memory one_port 7 1000 10 ≡ ok first_client
unfolding add_tcp_session init_hash_table
first_client_run = refl

first_client-IsValid : IsValid first_client.1 first_client.2
first_client-IsValid =
    Returns-at
      (add_tcp_session-IsValid frozen int_zero no_memory one_port 7 1000 10 (
        init_hash_table-IsValid no_memory 3 10 10 (λ p h. cc) (omega arith) (omega arith)
          (omega arith) (omega arith)))
      first_client_run

second_client_run :
    add_tcp_session frozen int_zero first_client.1 first_client.2 7 1001 10
    ≡ ok (none, second_client.1, second_client.2)
unfolding add_tcp_session init_hash_table
second_client_run = refl

first_client_ports :
    (first_client.2.min_port ≡ 10) × (first_client.2.mod_num ≡ 1) × (first_client.2.next_num ≡ 1)
unfolding add_tcp_session init_hash_table
first_client_ports = (refl, refl, refl)

add_tcp_session-none_example : Taken first_client.1 first_client.2 10
add_tcp_session-none_example =
    add_tcp_session-none first_client.1 first_client.2 first_client-IsValid
      (omega (arith, first_client_ports.1, first_client_ports.2)) frozen int_zero 7 1001 10
      second_client.1 second_client.2 (omega arith) second_client_run 10
      (omega (arith, first_client_ports.0)) (omega (arith, first_client_ports))

delete_hash_table-Freed_example :
    Returns
      (λ m'. Freed first_client.1 m' (listed first_client.1 first_client.2))
      (delete_hash_table first_client.1 first_client.2)
delete_hash_table-Freed_example =
    delete_hash_table-Freed first_client.1 first_client.2 first_client-IsValid
