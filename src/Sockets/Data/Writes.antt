-- ===== src/Sockets/Data/Writes.antt =====
-- The functions of socket_functions.cpp that read, write and close: what they write.
use pixiecpp.Base.{ltb, ◌&&◌, eq_ℤ, ltb_ℤ, to_size, take, ℤ, pos, negsuc, Bytes}
use pixiecpp.Os.{Call, sys_write}
use pixiecpp.Os.Calls.{
  Only, Only-bind, Only-then, Only-pure, Only-note, Only-ask, Only-assert, Only-if,
}
use pixiecpp.Sockets.Data.{socket_write_data, write_result}

-- The calls of write satisfy `W`.
abbrev pub Writes : (ℤ → Bytes → Type 0) → Call → Type 0
Writes W (sys_write fd bs) = W fd bs
Writes W _ = Unit {0}

module _ {W : ℤ → Bytes → Type 0} where
  write_result-Only : (r n : ℤ) → Only (Writes W) (λ _. Unit {0}) (write_result r n)
  unfolding write_result
  write_result-Only (negsuc k) n = Only-then (Only-note _ tt tt) (Only-pure tt)
  write_result-Only (pos k) n =
      Only-if (ltb 0 k && eq_ℤ (pos k) n) (λ _. Only-pure tt)
        (λ _.
          Only-if (ltb 0 k && ltb_ℤ (pos k) n) (λ _. Only-assert)
            (λ _. Only-then (Only-note _ tt tt) (Only-pure tt)))

  pub socket_write_data-Only :
      (socket : ℤ) (bs : Bytes) (n : ℤ)
      → W socket (take (to_size n) bs)
      → Only (Writes W) (λ _. Unit {0}) (socket_write_data socket bs n)
  unfolding socket_write_data
  socket_write_data-Only socket bs n h =
      Only-bind (Only-ask (sys_write socket (take (to_size n) bs)) h (λ _. tt))
        (λ r _. write_result-Only r.value n)
