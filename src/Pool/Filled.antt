-- ===== src/Pool/Filled.antt =====
-- What ConnectionPool::initialize leaves in the pool.
use pixiecpp.Base.{
  ℕ, zero, suc, ◌≡◌, refl, sym, ◌∙◌, ap, Bool-cases, inl, inr, if◌then◌else◌, List, [], ◌∷◌, ◌++◌,
  append_assoc, append-nil, ℤ, pos, is_pos, codes,
}
use mathlib.Core.List.{map}
use pixiecpp.Os.{World, M, Outcome, returned, blocked, threw, aborted, exited, bind}
use pixiecpp.Sockets.Connect.{Connected, socket_connect_host_port}
use pixiecpp.Queue.Threads.{add-q}
use pixiecpp.Pool.{Connection, ConnectionPool, keep, connect_loop, initialize, set}

-- Connects to port 8002 one after the other, each from the world that the one before has left, and the
-- values that they return.
pub data Connects : ℕ → World → List ℤ → World → Type 0 where
  none_left : {w : World} → Connects zero w [] w
  one_more :
      {n : ℕ} {w w' w'' : World} {c : Connected} {ss : List ℤ}
      → socket_connect_host_port (codes "localhost") (pos 8002) w ≡ returned c w'
      → Connects n w' ss w''
      → Connects (suc n) w (c.sock ∷ ss) w''

-- The values that are descriptors above 0.
abbrev pub opened : List ℤ → List ℤ
opened [] = []
opened (s ∷ ss) = let rest = opened ss in if is_pos s then s ∷ rest else rest

abbrev pub connection : ℤ → Connection
connection s = record { host = codes "localhost"; port = pos 8002; socket = s }

-- The array with `vs` in the places from `i` on, and the other elements as they are.
abbrev pub put_at : ℕ → List Connection → List Connection → List Connection
put_at zero [] cs = cs
put_at zero (v ∷ vs) [] = []
put_at zero (v ∷ vs) (c ∷ cs) = v ∷ put_at zero vs cs
put_at (suc i) vs [] = []
put_at (suc i) vs (c ∷ cs) = c ∷ put_at i vs cs

-- The pool after the loop has run from `index`: the connects that it made, and what is left of them.
abbrev pub IsFilled : ℕ → ℕ → ConnectionPool → World → ConnectionPool → World → Type 0
IsFilled n index pool w pool' w' =
    (ss : List ℤ) × Connects n w ss w'
    × (pool'.available.q ≡ pool.available.q ++ opened ss)
    × (pool'.connections ≡ put_at index (map connection (opened ss)) pool.connections)

abbrev pub Fills : ℕ → ℕ → ConnectionPool → World → Outcome ConnectionPool → Type 0
Fills n index pool w (returned pool' w') = IsFilled n index pool w pool' w'
Fills n index pool w _ = Unit {0}

put_at-none : (i : ℕ) (cs : List Connection) → put_at i [] cs ≡ cs
put_at-none zero cs = refl
put_at-none (suc i) [] = refl
put_at-none (suc i) (c ∷ cs) = ap (λ k. c ∷ k) (put_at-none i cs)

put_at-set :
    (i : ℕ) (v : Connection) (vs cs : List Connection)
    → put_at (suc i) vs (set cs i v) ≡ put_at i (v ∷ vs) cs
put_at-set zero v vs [] = refl
put_at-set zero v vs (c ∷ cs) = refl
put_at-set (suc i) v vs [] = refl
put_at-set (suc i) v vs (c ∷ cs) = ap (λ k. c ∷ k) (put_at-set i v vs cs)

-- One round of the loop, with the rounds behind it.
round-IsFilled :
    (n index : ℕ) (pool : ConnectionPool) (c : Connected) (w w' : World) (pool' : ConnectionPool)
    (w'' : World)
    → socket_connect_host_port (codes "localhost") (pos 8002) w ≡ returned c w'
    → IsFilled n (keep index pool c).1 (keep index pool c).0 w' pool' w''
    → IsFilled (suc n) index pool w pool' w''
round-IsFilled n index pool c w w' pool' w'' e (ss, connects, queue, array) =
    elim (Bool-cases (is_pos c.sock)) [
      | inl good ↦ (
        c.sock ∷ ss,
        Connects.one_more e connects,
        rw good (
            (rw good at queue)
            ∙ (ap (λ q. q ++ opened ss) (add-q c.sock pool.available)
                ∙ append_assoc pool.available.q (c.sock ∷ []) (opened ss))),
        rw good (
            (rw good at array)
            ∙ put_at-set index (connection c.sock) (map connection (opened ss)) pool.connections),
      )
      | inr bad ↦ (
        c.sock ∷ ss,
        Connects.one_more e connects,
        rw bad (rw bad at queue),
        rw bad (rw bad at array),
      )
    ]

then_filled :
    (n index : ℕ) (pool : ConnectionPool) (w : World) (oc : Outcome Connected)
    (k : Connected → M ConnectionPool)
    → socket_connect_host_port (codes "localhost") (pos 8002) w ≡ oc
    → ((c : Connected) (w' : World)
        → Fills n (keep index pool c).1 (keep index pool c).0 w' (k c w'))
    → Fills (suc n) index pool w (bind oc k)
then_filled n index pool w (returned c w') k e f = kept (k c w') (f c w')
  where
    kept :
        (o : Outcome ConnectionPool)
        → Fills n (keep index pool c).1 (keep index pool c).0 w' o
        → Fills (suc n) index pool w o
    kept (returned pool' w'') h = round-IsFilled n index pool c w w' pool' w'' e h
    kept (blocked w'') h = tt
    kept (threw w'') h = tt
    kept (aborted w'') h = tt
    kept (exited x w'') h = tt
then_filled n index pool w (blocked w') k e f = tt
then_filled n index pool w (threw w') k e f = tt
then_filled n index pool w (aborted w') k e f = tt
then_filled n index pool w (exited x w') k e f = tt

connect_loop-Fills :
    (n index : ℕ) (pool : ConnectionPool) (w : World)
    → Fills n index pool w (connect_loop n index pool w)
unfolding connect_loop
connect_loop-Fills zero index pool w = (
  [],
  Connects.none_left,
  sym (append-nil pool.available.q),
  sym (put_at-none index pool.connections),
)
connect_loop-Fills (suc n) index pool w =
    then_filled n index pool w (socket_connect_host_port (codes "localhost") (pos 8002) w) _ refl
      (λ c w'. connect_loop-Fills n (keep index pool c).1 (keep index pool c).0 w')

-- Whatever the system replies, where ConnectionPool::initialize returns, it has made ten connects to
-- port 8002 one after the other, and of the values that they returned it has put those above 0, in
-- their order, behind the sockets that were available, and a connection for each of them, in the same
-- order, in the places of the array from the first on. The other elements of the array are unchanged.
pub initialize-Fills : (pool : ConnectionPool) (w : World) → Fills 10 0 pool w (initialize pool w)
unfolding initialize
initialize-Fills pool w = connect_loop-Fills 10 0 pool w
