-- ===== src/Pool.antt =====
-- Pixie-XC/ConnectionPool.hpp and ConnectionPool.cpp: a pool of connections to port 8002.
pub mod Filled
use pixiecpp.Base.{
  ℕ, zero, suc, Option, List, [], ◌∷◌, if◌then◌else◌, ℤ, pos, eq_ℤ, is_pos, Bytes, codes,
}
use pixiecpp.Os.{M, pure, ◌>>=◌, assert_failed}
use pixiecpp.Sockets.Connect.{Connected, socket_connect_host_port}
use pixiecpp.Queue
use pixiecpp.Queue.{Queue}

pub record Connection : Type 0 where
  pub host : Bytes
  pub port : ℤ
  pub socket : ℤ

-- The static variables `availableQueue` and `connections`.
pub record ConnectionPool : Type 0 where
  pub available : Queue
  pub connections : List Connection

-- A write outside of the array changes nothing here; the index stays below 10.
abbrev pub set : List Connection → ℕ → Connection → List Connection
set [] i v = []
set (x ∷ xs) zero v = v ∷ xs
set (x ∷ xs) (suc i) v = x ∷ set xs i v

-- The body of the loop after the connect, with the new value of `index`.
abbrev pub keep : ℕ → ConnectionPool → Connected → ConnectionPool × ℕ
keep index pool c =
    if is_pos c.sock
    then (
      record {
        available = Queue.add c.sock pool.available;
        connections =
            set pool.connections index
              (record { host = codes "localhost"; port = pos 8002; socket = c.sock });
      },
      suc index,
    )
    else (pool, index)

-- The loop of ConnectionPool::initialize, with `n` rounds to go.
unfoldable pub connect_loop : ℕ → ℕ → ConnectionPool → M ConnectionPool
connect_loop zero index pool = pure pool
connect_loop (suc n) index pool = do
  c ← socket_connect_host_port (codes "localhost") (pos 8002)
  connect_loop n (keep index pool c).1 (keep index pool c).0

-- ConnectionPool::initialize
unfoldable pub initialize : ConnectionPool → M ConnectionPool
unfolding connect_loop
initialize pool = connect_loop 10 0 pool

-- ConnectionPool::acquire in thread `t`; `none` while it waits.
unfoldable pub acquire : ℕ → ℤ → ConnectionPool → M (Option ℤ × ConnectionPool)
acquire t port pool =
    let (r, q) = Queue.remove t pool.available in
    if eq_ℤ port (pos 8002) then pure (r, record pool { available = q }) else assert_failed

-- ConnectionPool::release
unfoldable pub release : ℤ → ConnectionPool → ConnectionPool
release socket pool = record pool { available = Queue.add socket pool.available }
