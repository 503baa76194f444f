-- ===== src/Session/Port.antt =====
-- Which port the `do` loop of `add_tcp_session` (src/lib/session_struct.c) claims.
use benker_vpn.Base.{
  ℕ, zero, suc, ◌+◌, ◌%◌, ◌^◌, ◌≤◌, ◌<◌, ◌≡◌, refl, ap, ◌∙◌, true, arith, u16, u32, subst, ◌⊎◌, inl,
  inr, Option, none, some, ltb, int_zero, Run, ok, Returns, returns, Returns-mono, Bool-cases,
}
use benker_vpn.Session.{Ptr, Memory, Table, rem, search_tcp_session_by_server, claim_port}
use benker_vpn.Session.Search.{
  AllLive, Searched, found, absent, is_server, search_by_server-Searched,
}
use benker_vpn.Session.Valid.{IsValid, listed, server_hash, Taken, IsFree, renumber-IsValid}

pub rem-ok : (x y : ℕ) → 0 < y → rem x y ≡ ok (x % y)
unfolding rem
rem-ok x y h = ground arith

-- The port that the loop tries in round `k`; `next_num` wraps in 32 bits.
abbrev pub candidate : Table → ℕ → ℕ
candidate t k = u16 (u32 (t.next_num + k) % t.mod_num + t.min_port)

-- The table after `k` rounds.
abbrev pub advance : Table → ℕ → Table
advance t k = record t { next_num = u32 (t.next_num + k) }

-- The loop returns the first free candidate; or it returns nothing, after the round in which the
-- count passed `mod_num`, and then every candidate that it tried is taken.
abbrev pub Claims : Memory → Table → ℕ → Option ℕ × Table → Type 0
Claims m t count (some port, t') =
    (k : ℕ) × (port ≡ candidate t k)
    × IsFree m t port
    × ((j : ℕ) → j < k → Taken m t (candidate t j))
    × (t' ≡ advance t (k + 1))
Claims m t count (none, t') =
    (k : ℕ) × (t.mod_num + int_zero < count + k + 1)
    × ((j : ℕ) → j ≤ k → Taken m t (candidate t j))
    × (t' ≡ advance t (k + 1))

pub server_chain_live :
    {m : Memory} {t : Table} → IsValid m t → (i : ℕ) → AllLive m (t.list_server_key i)
server_chain_live v i p h = (v.servers i p h).2

-- A search in the chain of a port decides whether the port is taken.
pub data Tried (m : Memory) (t : Table) (port : ℕ) : Run (Option Ptr) → Type 0 where
  taken :
      (p : Ptr) → listed m t p ≡ true → (m.cell p).server_port ≡ port → Tried m t port (ok (some p))
  is_free : IsFree m t port → Tried m t port (ok none)

tried :
    {m : Memory} {t : Table} (port : ℕ) {r : Run (Option Ptr)}
    → IsValid m t
    → Searched (is_server m port) (t.list_server_key (server_hash t port)) r
    → Tried m t port r
tried {m} {t} port v (found p i h) =
    taken p (rw (v.servers (server_hash t port) p i).0 i) (ground arith)
tried {m} {t} port v (absent no_one) =
    is_free λ p l e. let i = rw e at l in ground (arith, no_one p i)

pub search_by_server-Tried :
    {m : Memory} {t : Table} (port : ℕ)
    → IsValid m t
    → Tried m t port (search_tcp_session_by_server m (t.list_server_key (server_hash t port)) port)
search_by_server-Tried {m} {t} port v = tried port v (
    search_by_server-Searched m (t.list_server_key (server_hash t port)) port
      (server_chain_live v (server_hash t port)))

-- One failed round, and then the claim of the rounds behind it.
Claims-next :
    (m : Memory) (t : Table) (count : ℕ) (r : Option ℕ × Table)
    → Taken m t (candidate t 0)
    → Claims m (advance t 1) (count + 1) r
    → Claims m t count r
Claims-next m t count (some port, t') here (k, at, unused, before, left) = (
  k + 1,
  at ∙ ap (λ n. u16 (n % t.mod_num + t.min_port)) (omega arith),
  unused,
  earlier,
  left ∙ ap (λ n. record t { next_num = n }) (omega arith),
)
  where
    earlier : (j : ℕ) → j < k + 1 → Taken m t (candidate t j)
    earlier zero h = here
    earlier (suc j) h =
        subst (λ n. Taken m t (u16 (n % t.mod_num + t.min_port))) (omega arith)
          (before j (omega arith))
Claims-next m t count (none, t') here (k, over, all, left) =
    (k + 1, omega arith, earlier, left ∙ ap (λ n. record t { next_num = n }) (omega arith))
  where
    earlier : (j : ℕ) → j ≤ k + 1 → Taken m t (candidate t j)
    earlier zero h = here
    earlier (suc j) h =
        subst (λ n. Taken m t (u16 (n % t.mod_num + t.min_port))) (omega arith)
          (all j (omega arith))

first_candidate :
    (t : Table) → t.next_num < 2 ^ 32 → u16 (t.next_num % t.mod_num + t.min_port) ≡ candidate t 0
first_candidate t h = ap (λ n. u16 (n % t.mod_num + t.min_port)) (omega arith)

pub Tried-cases :
    {m : Memory} {t : Table} {port : ℕ} {r : Run (Option Ptr)}
    → Tried m t port r
    → (IsFree m t port × (r ≡ ok none))
      ⊎ ((p : Ptr) × (r ≡ ok (some p)) × (listed m t p ≡ true) × ((m.cell p).server_port ≡ port))
Tried-cases (taken p l e) = inr (p, refl, l, e)
Tried-cases (is_free unused) = inl (unused, refl)

Taken-first :
    (m : Memory) (t : Table) (j : ℕ) → j ≡ 0 → Taken m t (candidate t 0) → Taken m t (candidate t j)
Taken-first m t j e h = rw e h

-- With enough rounds the loop returns, and what it returns is as claimed.
pub claim_port-Claims :
    (m : Memory) (fuel count : ℕ) (t : Table)
    → IsValid m t
    → t.mod_num + int_zero < count + fuel
    → 0 < fuel
    → Returns (Claims m t count) (claim_port m fuel count t)
unfolding claim_port
claim_port-Claims m zero count t v enough some_fuel = absurd (omega arith)
claim_port-Claims m (suc fuel) count t v enough some_fuel =
    let port = u16 (t.next_num % t.mod_num + t.min_port) in
    let e = first_candidate t v.next_fits in
    rw (rem-ok t.next_num t.mod_num v.mod_pos, rem-ok port t.len v.len_pos)
      (elim (Tried-cases (search_by_server-Tried port v)) [
        | inl (unused, run) ↦ rw run (returns (0, e, unused, (λ j h. absurd (omega arith)), refl))
        | inr (p, run, l, same) ↦
            let here : Taken m t port = (p, l, same) in
            rw run (elim (Bool-cases (ltb (t.mod_num + int_zero) (count + 1))) [
              | inl full ↦ rw full (
                  returns (
                    0,
                    ground arith,
                    (λ j h. Taken-first m t j (omega arith) (rw e at here)),
                    refl,
                  ))
              | inr more ↦ rw more (
                  Returns-mono
                    (claim_port-Claims m fuel (count + 1) (advance t 1)
                      (renumber-IsValid (u32 (t.next_num + 1)) (omega arith) v) (ground arith)
                      (ground arith))
                    (λ r c. Claims-next m t count r (rw e at here) c))
            ])
      ])

pub Claims-cases :
    (m : Memory) (t : Table) (count : ℕ) (r : Option ℕ × Table)
    → Claims m t count r
    → ((k : ℕ) × (r ≡ (some (candidate t k), advance t (k + 1)))
        × IsFree m t (candidate t k)
        × ((j : ℕ) → j < k → Taken m t (candidate t j)))
      ⊎ ((k : ℕ) × (r ≡ (none, advance t (k + 1)))
          × (t.mod_num + int_zero < count + k + 1)
          × ((j : ℕ) → j ≤ k → Taken m t (candidate t j)))
Claims-cases m t count (some port, t') (k, at, unused, before, left) =
    inl (k, cc, rw at at unused, before)
Claims-cases m t count (none, t') (k, over, all, left) = inr (k, cc, over, all)
