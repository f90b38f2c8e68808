-- ===== src/Twc/Machine/Step.antt =====
-- The two parts of sm_execute at one reply of the system.
use pixiecpp.Base.{
  leb-true, ℕ, ◌-◌, ◌<◌, ◌≡◌, refl, true, false, some, List, [], ◌∷◌, ◌++◌, arith, ◌==◌, lt→ltb, ℤ,
  pos, negsuc, length, take-length,
}
use pixiecpp.Os.{Reply, Call, returned, ask, sys_read, sys_write}
use pixiecpp.Blk.Socket.Read.{world}
use pixiecpp.Twc.Cbuffer.{Cbuffer}
use pixiecpp.Twc.Cbuffer.Pending.{pending, IsLinear, fill, drain}
use pixiecpp.Twc.Machine.{StateMachine, FdSet, fd_isset, sm_write, sm_read, sm_ok, sm_ioerr, sm_eof}

positive : (n : ℕ) → 0 < n → (n == 0) ≡ false
positive n h = ground arith

abbrev pub room : Cbuffer → ℕ
room cb = cb.buffer_size - cb.read_ptr

abbrev pub wrote : StateMachine → List Call → List Call
wrote sm log = log ++ (sys_write sm.write_fd (pending sm.cbuffer) ∷ [])

abbrev pub did_read : StateMachine → List Call → List Call
did_read sm log = log ++ (sys_read sm.read_fd (room sm.cbuffer) ∷ [])

module _ (sm : StateMachine) (l : IsLinear sm.cbuffer) (fds : FdSet) (status : ℤ) (r : Reply)
    (rs : List Reply) (log : List Call) where
  pub sm_write-took :
      (n : ℕ) (cb' : Cbuffer)
      → fd_isset sm.write_fd fds ≡ true
      → sm.cbuffer.write_ptr < sm.cbuffer.read_ptr
      → r.value ≡ pos n
      → 0 < n
      → drain sm.cbuffer n ≡ some cb'
      → sm_write sm fds status (world (r ∷ rs) log)
        ≡ returned (record sm { cbuffer = cb' }, sm_ok) (world rs (wrote sm log))
  unfolding sm_write drain ask
  sm_write-took n cb' isset some_bytes v h e =
      rw (isset, leb-true sm.cbuffer.write_ptr sm.cbuffer.read_ptr l.ordered)
        (rw (lt→ltb 0 (sm.cbuffer.read_ptr - sm.cbuffer.write_ptr) (omega arith), v)
          (rw (lt→ltb 0 n h, e) refl))

  pub sm_write-failed :
      (n : ℕ)
      → fd_isset sm.write_fd fds ≡ true
      → sm.cbuffer.write_ptr < sm.cbuffer.read_ptr
      → r.value ≡ negsuc n
      → sm_write sm fds status (world (r ∷ rs) log)
        ≡ returned (sm, sm_ioerr) (world rs (wrote sm log))
  unfolding sm_write ask
  sm_write-failed n isset some_bytes v =
      rw (isset, leb-true sm.cbuffer.write_ptr sm.cbuffer.read_ptr l.ordered)
        (rw (lt→ltb 0 (sm.cbuffer.read_ptr - sm.cbuffer.write_ptr) (omega arith), v) refl)

  pub sm_read-stored :
      (cb' : Cbuffer)
      → fd_isset sm.read_fd fds ≡ true
      → sm.read_suspended ≡ false
      → r.value ≡ pos (length r.bytes)
      → 0 < length r.bytes
      → fill sm.cbuffer r.bytes ≡ some cb'
      → sm_read sm fds status (world (r ∷ rs) log)
        ≡ returned (record sm { cbuffer = cb' }, sm_ok) (world rs (did_read sm log))
  unfolding sm_read fill ask
  sm_read-stored cb' isset awake v h e =
      rw
        (
          isset,
          awake,
          leb-true sm.cbuffer.read_ptr sm.cbuffer.buffer_size (omega (arith, l.inside)),
        )
        (rw (lt→ltb 0 (sm.cbuffer.buffer_size - sm.cbuffer.read_ptr) (omega (arith, l.inside)), v)
          (rw (positive (length r.bytes) h, lt→ltb 0 (length r.bytes) h, take-length r.bytes, e)
            refl))

  pub sm_read-failed :
      (n : ℕ)
      → fd_isset sm.read_fd fds ≡ true
      → sm.read_suspended ≡ false
      → r.value ≡ negsuc n
      → sm_read sm fds status (world (r ∷ rs) log)
        ≡ returned (sm, sm_ioerr) (world rs (did_read sm log))
  unfolding sm_read ask
  sm_read-failed n isset awake v =
      rw
        (
          isset,
          awake,
          leb-true sm.cbuffer.read_ptr sm.cbuffer.buffer_size (omega (arith, l.inside)),
        )
        (rw (lt→ltb 0 (sm.cbuffer.buffer_size - sm.cbuffer.read_ptr) (omega (arith, l.inside)), v)
          refl)

  pub sm_read-eof :
      fd_isset sm.read_fd fds ≡ true
      → sm.read_suspended ≡ false
      → r.value ≡ pos 0
      → sm_read sm fds status (world (r ∷ rs) log)
        ≡ returned (sm, sm_eof) (world rs (did_read sm log))
  unfolding sm_read ask
  sm_read-eof isset awake v =
      rw
        (
          isset,
          awake,
          leb-true sm.cbuffer.read_ptr sm.cbuffer.buffer_size (omega (arith, l.inside)),
        )
        (rw (lt→ltb 0 (sm.cbuffer.buffer_size - sm.cbuffer.read_ptr) (omega (arith, l.inside)), v)
          refl)
