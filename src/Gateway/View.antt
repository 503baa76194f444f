-- ===== src/Gateway/View.antt =====
-- The mapping that a session table (src/lib/session_struct.c) stands for.
use benker_vpn.Base.{
  ℕ, ◌≡◌, refl, true, false, arith, Option, none, some, Run, ok, fault, ◌==◌, ap, sym, ◌∙◌, inl,
  inr, ◌⊎◌, Bool-cases,
}
use benker_vpn.Session.{Session, Ptr, Memory, Table, store, get_tcp_session_by_server}
use benker_vpn.Session.Valid.{IsValid, listed, IsFree}
use benker_vpn.Session.Clean.{later}
use benker_vpn.Session.Add.{IsClient, NoClient, memory_with, table_with, new_cell, kept, listed_new}
use benker_vpn.Session.Lookup.{get_by_server-ok, get_by_server-cases}
use benker_vpn.Handler.Store.{
  SameKeys, keys, store_self, listed-store, store-IsValid, later-IsValid,
}
use benker_vpn.Gateway.{Mapping, set, Owns, OwnsNone}

abbrev pub cell_of : Memory → Run (Option Ptr) → Option Session
cell_of m (ok (some p)) = some (m.cell p)
cell_of m (ok none) = none
cell_of m (fault e) = none

-- The session that the table finds by the port.
abbrev pub view : Memory → Table → Mapping
view m t n = cell_of m (get_tcp_session_by_server m t n)

pub view-renumber :
    (m : Memory) (t : Table) (next n : ℕ) → view m (record t { next_num = next }) n ≡ view m t n
unfolding get_tcp_session_by_server
view-renumber m t next n = refl

pub set-congr :
    (v w : Mapping) (n : ℕ) (s : Session)
    → ((k : ℕ) → v k ≡ w k)
    → (k : ℕ) → set v n s k ≡ set w n s k
set-congr v w n s h k = rw (h k) refl

pub set-set : (v : Mapping) (n : ℕ) (s s' : Session) (k : ℕ) → set (set v n s) n s' k ≡ set v n s' k
set-set v n s s' k = ground arith

-- The owner of a port is the session of the table that has it.
pub view-listed :
    {m : Memory} {t : Table} (p : Ptr) (n : ℕ)
    → IsValid m t
    → listed m t p ≡ true
    → (m.cell p).server_port ≡ n
    → view m t n ≡ some (m.cell p)
view-listed p n v l e = rw (get_by_server-ok v l e) refl

pub view-cases :
    {m : Memory} {t : Table} (n : ℕ)
    → IsValid m t
    → (IsFree m t n × (view m t n ≡ none))
      ⊎ ((p : Ptr) × (listed m t p ≡ true)
          × ((m.cell p).server_port ≡ n)
          × (view m t n ≡ some (m.cell p)))
view-cases n v = elim (get_by_server-cases n v) [
  | inl (unused, run) ↦ inl (unused, rw run refl)
  | inr (p, run, l, e) ↦ inr (p, l, e, rw run refl)
]

pub view-free : {m : Memory} {t : Table} (n : ℕ) → IsValid m t → IsFree m t n → view m t n ≡ none
view-free n v unused = elim (view-cases n v) [
  | inl (same, e) ↦ e
  | inr (p, l, at, e) ↦ absurd (unused p l at)
]

-- Two tables with the same sessions by port have the same view.
pub view-same :
    {m m' : Memory} {t t' : Table}
    → IsValid m t
    → IsValid m' t'
    → ((p : Ptr) → listed m t p ≡ true → (listed m' t' p ≡ true) × (m'.cell p ≡ m.cell p))
    → ((p : Ptr) → listed m' t' p ≡ true → listed m t p ≡ true)
    → (n : ℕ) → view m' t' n ≡ view m t n
view-same {m} {m'} v v' forth back n = elim (view-cases n v) [
  | inl (unused, e) ↦
      view-free n v' (λ p l'.
        let l = back p l' in
        let (l₂, same) = forth p l in
        λ at. unused p l (sym (ap (λ (x : Session). x.server_port) same) ∙ at))
      ∙ sym e
  | inr (p, l, at, e) ↦
      let (l', same) = forth p l in
      view-listed p n v' l' (ap (λ (x : Session). x.server_port) same ∙ at) ∙ ap some same ∙ sym e
]

pub view-later :
    {m : Memory} {t : Table} (calls : ℕ)
    → IsValid m t
    → (n : ℕ) → view (later m calls) t n ≡ view m t n
view-later calls v = view-same v (later-IsValid calls v) (λ p l. (l, refl)) (λ p l. l)

store_other :
    (m : Memory) (p q : Ptr) (s' : Session) → (p == q) ≡ false → (store m p s').cell q ≡ m.cell q
unfolding store
store_other m p q s' h = rw h refl

-- A store to a session of the table, which keeps its keys, changes the owner of its port.
pub view-store :
    (m : Memory) (t : Table) (p : Ptr) (s' : Session)
    → SameKeys (m.cell p) s'
    → IsValid m t
    → listed m t p ≡ true
    → (n : ℕ) → view (store m p s') t n ≡ set (view m t) (m.cell p).server_port s' n
view-store m t p s' k v l n =
    let v' = store-IsValid m t p s' k v in
    elim (Bool-cases ((m.cell p).server_port == n)) [
      | inl here ↦
          let at : (m.cell p).server_port ≡ n = ground arith in
          rw here (
            view-listed p n v' (listed-store m t p s' k p ∙ l) ((keys m t p s' k p).server ∙ at)
            ∙ ap some (store_self m p s'))
      | inr away ↦ rw away (elim (view-cases n v) [
        | inl (unused, e) ↦
            view-free n v' (λ q l' at.
              unused q (sym (listed-store m t p s' k q) ∙ l') (sym (keys m t p s' k q).server ∙ at))
            ∙ sym e
        | inr (q, lq, at, e) ↦
            let other : (p == q) ≡ false = elim (Bool-cases (p == q)) [
              | inr differ ↦ differ
              | inl same ↦
                  let e' : p ≡ q = ground arith in
                  let ports : (m.cell p).server_port ≡ n =
                    ap (λ r. (m.cell r).server_port) e' ∙ at in
                  absurd (ground arith)
            ] in
            view-listed q n v' (listed-store m t p s' k q ∙ lq) ((keys m t p s' k q).server ∙ at)
            ∙ ap some (store_other m p q s' other)
            ∙ sym e
      ])
    ]

-- A store behind a call of `time(NULL)`.
pub view-written :
    (m : Memory) (t : Table) (p : Ptr) (s' : Session) (calls : ℕ)
    → SameKeys (m.cell p) s'
    → IsValid m t
    → listed m t p ≡ true
    → (n : ℕ) → view (store (later m calls) p s') t n ≡ set (view m t) (m.cell p).server_port s' n
view-written m t p s' calls k v l n =
    view-store (later m calls) t p s' k (later-IsValid calls v) l n
    ∙ set-congr (view (later m calls) t) (view m t) (m.cell p).server_port s' (view-later calls v) n

pub Owns-listed :
    {m : Memory} {t : Table} {ip port : ℕ} {p : Ptr}
    → IsValid m t
    → IsClient m t ip port p
    → Owns (view m t) ip port (m.cell p).server_port (m.cell p)
Owns-listed {p} v c = record {
  owner = view-listed p _ v c.in_table refl;
  same_ip = c.same_ip;
  same_port = c.same_port;
}

pub OwnsNone-listed :
    {m : Memory} {t : Table} {ip port : ℕ}
    → IsValid m t
    → NoClient m t ip port
    → OwnsNone (view m t) ip port
OwnsNone-listed {m} v none_such n s e same = elim (view-cases n v) [
  | inl (unused, e') ↦ absurd (ground arith)
  | inr (p, l, at, e') ↦ let is : s ≡ m.cell p = cc in rw is (none_such p l (rw is at same))
]

-- A session put into both chains owns its port, and every other port keeps its owner.
pub view-insert :
    (m : Memory) (t : Table) (s : Session)
    → IsValid m t
    → IsValid (memory_with m s) (table_with m t s)
    → IsFree m t s.server_port
    → (n : ℕ) → view (memory_with m s) (table_with m t s) n ≡ set (view m t) s.server_port s n
view-insert m t s v v' unused n =
    let cell = new_cell m s in
    elim (Bool-cases (s.server_port == n)) [
      | inl here ↦
          let at : s.server_port ≡ n = ground arith in
          rw here (
            view-listed m.next n v' (ground (arith, listed_new m t s v m.next))
              (ap (λ (x : Session). x.server_port) cell ∙ at)
            ∙ ap some cell)
      | inr away ↦ rw away (elim (view-cases n v) [
        | inl (none_has, e) ↦
            view-free n v' (λ q l' at. elim (Bool-cases (m.next == q)) [
              | inl new ↦
                  let is : m.next ≡ q = ground arith in
                  let ports : s.server_port ≡ n =
                    sym (ap (λ (x : Session). x.server_port) cell)
                    ∙ ap (λ r. ((memory_with m s).cell r).server_port) is
                    ∙ at in
                  absurd (ground arith)
              | inr old ↦
                  let l : listed m t q ≡ true = ground (arith, listed_new m t s v q) in
                  none_has q l (sym (ap (λ (x : Session). x.server_port) (kept m t s v q l).0) ∙ at)
            ])
            ∙ sym e
        | inr (q, l, at, e) ↦
            let (same, l') = kept m t s v q l in
            view-listed q n v' l' (ap (λ (x : Session). x.server_port) same ∙ at)
            ∙ ap some same
            ∙ sym e
      ])
    ]
