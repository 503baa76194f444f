-- ===== src/Handler/Store.antt =====
-- Sessions read and written through a pointer, in src/lib/packet_handler.c.
use benker_vpn.Base.{ℕ, ◌%◌, ◌≡◌, refl, ap, true, arith}
use benker_vpn.Session.{Session, Ptr, Memory, Table, store}
use benker_vpn.Session.Search.{has}
use benker_vpn.Session.Valid.{IsValid, listed, server_home}
use benker_vpn.Session.Clean.{later}
pub use benker_vpn.Session.Clean.{session_expired-run}

-- `s'` has the keys of `s`, and expires when `s` does.
pub record SameKeys (s s' : Session) : Type 0 where
  pub ip : s'.client_ip ≡ s.client_ip
  pub port : s'.client_port ≡ s.client_port
  pub server : s'.server_port ≡ s.server_port
  pub same_expire : s'.expire ≡ s.expire

store-live : (m : Memory) (p q : Ptr) (s' : Session) → (store m p s').live q ≡ m.live q
unfolding store
store-live m p q s' = refl

store-next : (m : Memory) (p : Ptr) (s' : Session) → (store m p s').next ≡ m.next
unfolding store
store-next m p s' = refl

pub store-calls : (m : Memory) (p : Ptr) (s' : Session) → (store m p s').calls ≡ m.calls
unfolding store
store-calls m p s' = refl

pub store_self : (m : Memory) (p : Ptr) (s' : Session) → (store m p s').cell p ≡ s'
unfolding store
store_self m p s' = ground arith

module _ (m : Memory) (t : Table) (p : Ptr) (s' : Session) (same : SameKeys (m.cell p) s') where
  pub keys : (q : Ptr) → SameKeys (m.cell q) ((store m p s').cell q)
  unfolding store
  keys q = ground (arith, same.ip, same.port, same.server, same.same_expire)

  pub listed-store : (q : Ptr) → listed (store m p s') t q ≡ listed m t q
  listed-store q = ap (λ n. has q (t.list_server_key (n % t.len))) (keys q).server

  -- A store that keeps the keys of a session keeps the table well formed.
  pub store-IsValid : IsValid m t → IsValid (store m p s') t
  store-IsValid v = record {
    len_pos = v.len_pos;
    mod_pos = v.mod_pos;
    ports_fit = v.ports_fit;
    next_fits = v.next_fits;
    fresh = λ q h. rw (store-next m p s') (v.fresh q (rw (store-live m p q s') at h));
    clients = λ i q h. let k = keys q in rw (listed-store q, k.ip, k.port) (v.clients i q h);
    servers = λ i q h.
        let k = keys q in rw (k.ip, k.port, k.server, store-live m p q s') (v.servers i q h);
    client_once = v.client_once;
    server_once = v.server_once;
    client_key = λ q r hq hr.
        let k = keys q in
        let l = keys r in
        rw (k.ip, l.ip, k.port, l.port)
          (v.client_key q r (rw (listed-store q) at hq) (rw (listed-store r) at hr));
    server_key = λ q r hq hr.
        let k = keys q in
        let l = keys r in
        rw (k.server, l.server)
          (v.server_key q r (rw (listed-store q) at hq) (rw (listed-store r) at hr));
  }

-- More calls of `time(NULL)` change nothing in the table.
pub later-IsValid : {m : Memory} {t : Table} (n : ℕ) → IsValid m t → IsValid (later m n) t
later-IsValid n v = record {
  len_pos = v.len_pos;
  mod_pos = v.mod_pos;
  ports_fit = v.ports_fit;
  next_fits = v.next_fits;
  fresh = v.fresh;
  clients = v.clients;
  servers = v.servers;
  client_once = v.client_once;
  server_once = v.server_once;
  client_key = v.client_key;
  server_key = v.server_key;
}

pub live_of_listed :
    {m : Memory} {t : Table} → IsValid m t → (p : Ptr) → listed m t p ≡ true → m.live p ≡ true
live_of_listed {m} {t} v p l = (v.servers (server_home m t p) p l).2
