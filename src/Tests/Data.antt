-- ===== src/Tests/Data.antt =====
-- Packets and tables for the tests: a `SYN` of a client, the answer to it, and the table that
-- src/server/main.c starts with.
use benker_vpn.Base.{ℕ, zero, suc, ◌<◌, arith, false, List, [], ◌∷◌, Run, ok, fault}
use benker_vpn.Packet.{Buffer, IsBytes}
use benker_vpn.Session.{Session, Memory, Table, Clock, init_hash_table}
use benker_vpn.Session.Valid.{IsValid, init_hash_table-IsValid}

abbrev pub buffer_of : List ℕ → Buffer
buffer_of [] i = 0
buffer_of (x ∷ xs) zero = x
buffer_of (x ∷ xs) (suc i) = buffer_of xs i

abbrev pub AllBytes : List ℕ → Type 0
AllBytes [] = Unit
AllBytes (x ∷ xs) = (x < 256) × AllBytes xs

pub buffer_of-IsBytes : (xs : List ℕ) → AllBytes xs → IsBytes (buffer_of xs)
buffer_of-IsBytes [] h i = omega arith
buffer_of-IsBytes (x ∷ xs) h zero = h.0
buffer_of-IsBytes (x ∷ xs) h (suc i) = buffer_of-IsBytes xs h.1 i

-- The value of a run that returns.
abbrev pub value {ℓ} : {A : Type ℓ} → A → Run A → A
value d (ok a) = a
value d (fault e) = d

-- 10.0.0.2:32928 to 8.8.8.8:80, `SYN`, number 100.
abbrev pub syn_bytes : List ℕ
syn_bytes =
    69 ∷ 0 ∷ 0 ∷ 40 ∷ 0 ∷ 1 ∷ 0 ∷ 0 ∷ 64 ∷ 6 ∷ 0 ∷ 0 ∷ 10 ∷ 0 ∷ 0 ∷ 2 ∷ 8 ∷ 8 ∷ 8 ∷ 8 ∷ 128 ∷ 160
    ∷ 0 ∷ 80 ∷ 0 ∷ 0 ∷ 0 ∷ 100 ∷ 0 ∷ 0 ∷ 0 ∷ 0 ∷ 80 ∷ 2 ∷ 0 ∷ 0 ∷ 0 ∷ 0 ∷ 0 ∷ 0 ∷ []

abbrev pub syn : Buffer
syn = buffer_of syn_bytes

pub syn-IsBytes : IsBytes syn
syn-IsBytes = buffer_of-IsBytes syn_bytes (omega arith)

-- 8.8.8.8:80 to 192.168.122.234:40000, `SYN` and `ACK`, acknowledging 101.
abbrev pub answer_bytes : List ℕ
answer_bytes =
    69 ∷ 0 ∷ 0 ∷ 40 ∷ 0 ∷ 1 ∷ 0 ∷ 0 ∷ 64 ∷ 6 ∷ 0 ∷ 0 ∷ 8 ∷ 8 ∷ 8 ∷ 8 ∷ 192 ∷ 168 ∷ 122 ∷ 234 ∷ 0
    ∷ 80 ∷ 156 ∷ 64 ∷ 0 ∷ 0 ∷ 1 ∷ 0 ∷ 0 ∷ 0 ∷ 0 ∷ 101 ∷ 80 ∷ 18 ∷ 0 ∷ 0 ∷ 0 ∷ 0 ∷ 0 ∷ 0 ∷ []

abbrev pub answer : Buffer
answer = buffer_of answer_bytes

pub answer-IsBytes : IsBytes answer
answer-IsBytes = buffer_of-IsBytes answer_bytes (omega arith)

-- A captured `ACK` that src/server/main_trial.c holds, with its checksums.
abbrev pub captured_bytes : List ℕ
captured_bytes =
    69 ∷ 16 ∷ 0 ∷ 40 ∷ 231 ∷ 60 ∷ 64 ∷ 0 ∷ 64 ∷ 6 ∷ 100 ∷ 140 ∷ 192 ∷ 168 ∷ 1 ∷ 2 ∷ 172 ∷ 67 ∷ 129
    ∷ 9 ∷ 128 ∷ 160 ∷ 0 ∷ 80 ∷ 198 ∷ 81 ∷ 13 ∷ 62 ∷ 26 ∷ 143 ∷ 52 ∷ 247 ∷ 80 ∷ 16 ∷ 1 ∷ 246 ∷ 26
    ∷ 225 ∷ 0 ∷ 0 ∷ []

abbrev pub captured : Buffer
captured = buffer_of captured_bytes

pub captured-IsBytes : IsBytes captured
captured-IsBytes = buffer_of-IsBytes captured_bytes (omega arith)

-- 192.168.122.234, as in src/server/main.c.
abbrev pub local_ip : ℕ
local_ip = 3232266986

abbrev pub blank : Session
blank = record {
  client_ip = 0;
  client_port = 0;
  server_port = 0;
  client_last_state_seq = 0;
  server_last_state_seq = 0;
  syn_state = 0;
  client_fin_state = 0;
  server_fin_state = 0;
  expire = 0;
}

abbrev pub no_memory : Memory
no_memory = record { cell = λ p. blank; live = λ p. false; next = 1; calls = 0 }

abbrev pub frozen : Clock
frozen n = 100

abbrev pub first_table : Table
first_table = init_hash_table 200 40000 41000

pub first_table-IsValid : IsValid no_memory first_table
first_table-IsValid =
    init_hash_table-IsValid no_memory 200 40000 41000 (λ p h. cc) (omega arith) (omega arith)
      (omega arith) (omega arith)
