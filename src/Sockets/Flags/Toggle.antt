-- ===== src/Sockets/Flags/Toggle.antt =====
-- The flags of a descriptor that is made non-blocking and then blocking again.
use pixiecpp.Base.{
  ℕ, ◌+◌, ◌-◌, ◌%◌, ◌^◌, ◌<◌, ◌≡◌, refl, true, false, List, [], ◌∷◌, ◌++◌, arith, ℤ, pos, is_neg,
}
use pixiecpp.Os.{Reply, Call, returned, ask, ◌>>=◌, sys_getfl, sys_setfl}
use pixiecpp.Blk.Socket.Read.{world}
use pixiecpp.Sockets.Flags.{is_non_blocking, socket_set_blocking, socket_set_non_blocking}

small : (f : ℕ) → f < 2 ^ 31 → f % 2 ^ 32 ≡ f
small f h = omega arith

small_more : (f : ℕ) → f < 2 ^ 31 → is_non_blocking f ≡ false → (f + 4) % 2 ^ 32 ≡ f + 4
small_more f h b = omega arith

now_non_blocking : (f : ℕ) → is_non_blocking f ≡ false → is_non_blocking (f + 4) ≡ true
now_non_blocking f b = ground arith

back : (f : ℕ) → f + 4 - 4 ≡ f
back f = omega arith

-- A blocking descriptor whose flags F_GETFL returns as they were set, where no call fails:
-- socket_set_non_blocking sets O_NONBLOCK and no other flag, and socket_set_blocking then sets the
-- flags that there were at the start.
pub socket_set_blocking-socket_set_non_blocking :
    (socket : ℤ) (f : ℕ) (get get' set set' : Reply) (rs : List Reply) (log : List Call)
    → f < 2 ^ 31
    → is_non_blocking f ≡ false
    → get.value ≡ pos f
    → get'.value ≡ pos (f + 4)
    → is_neg set.value ≡ false
    → is_neg set'.value ≡ false
    → (socket_set_non_blocking socket >>= socket_set_blocking)
        (world (get ∷ set ∷ get' ∷ set' ∷ rs) log)
      ≡ returned socket (
          world rs (
            (((log ++ (sys_getfl socket ∷ [])) ++ (sys_setfl socket (f + 4) ∷ []))
              ++ (sys_getfl socket ∷ []))
            ++ (sys_setfl socket f ∷ [])))
unfolding socket_set_non_blocking socket_set_blocking ask
socket_set_blocking-socket_set_non_blocking socket f get get' set set' rs log h b g g' s s' =
    rw (g, g', s, s') (rw (small f h, small_more f h b) (rw (b, now_non_blocking f b, back f) refl))
