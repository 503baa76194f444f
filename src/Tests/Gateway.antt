-- ===== src/Tests/Gateway.antt =====
-- The gateway at a `SYN`, the answer of the world, a clean-up when the session has expired, and the answer
-- again.
use benker_vpn.Base.{ℕ, ◌≡◌, refl, arith, List, [], ◌∷◌, Returns, int_zero, true}
use benker_vpn.Validate.{validate_ip_tcp}
use benker_vpn.Session.{init_hash_table}
use benker_vpn.Session.Valid.{IsValid}
use benker_vpn.Handler.{handle_client_packet}
use benker_vpn.Handler.Served.{CanPass, can_open, IsPassed, handle_client_packet-IsPassed}
use benker_vpn.Gateway.{Request, client_packet, world_packet, clean_up, perform_all, Trace}
use benker_vpn.Gateway.View.{view}
use benker_vpn.Gateway.Refines.{perform_all-Trace}
use benker_vpn.Tests.Data.{
  syn, syn-IsBytes, answer, answer-IsBytes, local_ip, no_memory, first_table, first_table-IsValid,
  frozen,
}

abbrev requests : List (ℕ × Request)
requests =
    (100, client_packet syn 9000 int_zero)
    ∷ (110, world_packet answer 9000 0)
    ∷ (111, clean_up)
    ∷ (112, world_packet answer 9000 0)
    ∷ []

perform_all-Trace_example :
    Returns
      (λ x.
        IsValid x.1 x.2 × Trace local_ip (view no_memory first_table) requests x.0 (view x.1 x.2))
      (perform_all local_ip no_memory first_table requests)
perform_all-Trace_example =
    perform_all-Trace local_ip no_memory first_table requests first_table-IsValid
      (syn-IsBytes, (answer-IsBytes, (tt, (answer-IsBytes, tt))))

syn_good : validate_ip_tcp syn 9000 ≡ true
unfolding validate_ip_tcp
syn_good = refl

syn_CanPass : CanPass 100 int_zero no_memory first_table syn
unfolding init_hash_table
syn_CanPass =
    can_open 40000 refl (λ p h. cc) (λ p h. cc) (omega arith) (omega arith) (omega arith)
      (omega arith)

handle_client_packet-IsPassed_example :
    Returns
      (IsPassed first_table local_ip syn)
      (handle_client_packet frozen int_zero no_memory first_table syn 9000 local_ip)
handle_client_packet-IsPassed_example =
    handle_client_packet-IsPassed frozen 100 (λ n. refl) int_zero no_memory first_table syn 9000
      local_ip first_table-IsValid syn_good syn_CanPass
