-- ===== src/Tests/Pool.antt =====
-- The connection pool at a concrete input: one connection is made, and nine host names are unknown.
use pixiecpp.Base.{[], ◌∷◌, replicate, ℤ, pos}
use pixiecpp.Os.{Reply, World}
use pixiecpp.Queue.{new_queue}
use pixiecpp.Pool.{ConnectionPool, initialize}
use pixiecpp.Pool.Filled.{Fills, initialize-Fills}

abbrev answer : ℤ → Reply
answer v = record { value = v; errno = 0; bytes = []; read_set = []; write_set = [] }

abbrev empty_pool : ConnectionPool
empty_pool = record {
  available = new_queue;
  connections = replicate 10 (record { host = []; port = pos 0; socket = pos 0 });
}

abbrev replies : World
replies = record {
  script = answer (pos 1) ∷ answer (pos 9) ∷ answer (pos 0) ∷ replicate 9 (answer (pos 0));
  log = [];
}

initialize-Fills_example : Fills 10 0 empty_pool replies (initialize empty_pool replies)
initialize-Fills_example = initialize-Fills empty_pool replies
