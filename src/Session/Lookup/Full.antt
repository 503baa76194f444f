-- ===== src/Session/Lookup/Full.antt =====
-- When `add_tcp_session` (src/lib/session_struct.c) finds no port.
use native.Mathlib.Nat.{mul-add-mod_self_left, div-add-mod, mod-eq_of_lt}
use benker_vpn.Base.{
  ℕ, ◌+◌, ◌-◌, ◌*◌, ◌/◌, ◌%◌, ◌^◌, ◌≤◌, ◌<◌, ◌≡◌, refl, ◌∙◌, ap, subst, arith, Option, none,
  Returns-at, ok, Bool-cases, leb, inl, inr, u32, int_zero,
}
use benker_vpn.Session.{Ptr, Memory, Clock, Table, add_tcp_session}
use benker_vpn.Session.Valid.{IsValid, Taken}
use benker_vpn.Session.Port.{candidate}
use benker_vpn.Session.Add.{Added, existing, full, created, add_tcp_session-Added}

-- Within `m` steps from any number every remainder is met.
reach : (n m q : ℕ) → q < m → (j : ℕ) × (j < m) × ((n + j) % m ≡ q)
reach n m q h =
    let whole = div-add-mod n m in
    elim (Bool-cases (leb (n % m) q)) [
      | inl up ↦
          let e : n + (q - n % m) ≡ m * (n / m) + q = ground arith in
          (
            q - n % m,
            omega arith,
            ap (λ x. x % m) e ∙ (mul-add-mod_self_left m (n / m) q ∙ mod-eq_of_lt h),
          )
      | inr around ↦
          let low : q < n % m = ground arith in
          let e : n + (q + m - n % m) ≡ m * (n / m + 1) + q = omega arith in
          (
            q + m - n % m,
            omega arith,
            ap (λ x. x % m) e ∙ (mul-add-mod_self_left m (n / m + 1) q ∙ mod-eq_of_lt h),
          )
    ]

module _ (m : Memory) (t : Table) (v : IsValid m t)
    (no_wrap : t.next_num + t.mod_num < 2 ^ 32) where
  -- The candidates of `mod_num` rounds are all ports of the range.
  candidate_onto :
      (port : ℕ)
      → t.min_port ≤ port
      → port < t.min_port + t.mod_num
      → (j : ℕ) × (j < t.mod_num) × (candidate t j ≡ port)
  candidate_onto port low high =
      let (j, below, at) = reach t.next_num t.mod_num (port - t.min_port) (omega arith) in
      let ports = v.ports_fit in
      let whole : u32 (t.next_num + j) ≡ t.next_num + j = omega arith in
      (j, below, rw (whole, at) (omega arith))

  candidates_lem :
      (k : ℕ)
      → t.mod_num < k + 1
      → ((j : ℕ) → j ≤ k → Taken m t (candidate t j))
      → (port : ℕ) → t.min_port ≤ port
      → port < t.min_port + t.mod_num
      → Taken m t port
  candidates_lem k over all port low high =
      let (j, below, at) = candidate_onto port low high in
      subst (Taken m t) at (all j (omega arith))

  none_lem :
      (clock : Clock) (count ip port timeout : ℕ) {r : Option Ptr × Memory × Table}
      → count ≤ int_zero
      → Added clock count m t ip port timeout r
      → r.0 ≡ none
      → (number : ℕ) → t.min_port ≤ number
      → number < t.min_port + t.mod_num
      → Taken m t number
  none_lem clock count ip port timeout at_most (existing p c) e = cc
  none_lem clock count ip port timeout at_most (full k none_such over all) e =
      candidates_lem k (omega arith) all
  none_lem clock count ip port timeout at_most (created k none_such unused before) e = cc

  -- If `count` holds 0 or less on entry and `next_num` does not wrap on the way, then
  -- `add_tcp_session` on a well formed table returns nothing only when every port of the range
  -- belongs to a session.
  pub add_tcp_session-none :
      (clock : Clock) (count ip port timeout : ℕ) (m' : Memory) (t' : Table)
      → count ≤ int_zero
      → add_tcp_session clock count m t ip port timeout ≡ ok (none, m', t')
      → (number : ℕ) → t.min_port ≤ number
      → number < t.min_port + t.mod_num
      → Taken m t number
  add_tcp_session-none clock count ip port timeout m' t' at_most run =
      none_lem clock count ip port timeout at_most
        (Returns-at (add_tcp_session-Added clock m t ip port timeout count v) run) refl
