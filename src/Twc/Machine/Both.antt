-- ===== src/Twc/Machine/Both.antt =====
-- One call of sm_execute whose two descriptors are ready: what becomes of the bytes in the buffer.
use pixiecpp.Base.{
  zero, suc, to_ℕ, ◌≡◌, refl, sym, ap, ◌∙◌, List, [], ◌∷◌, ◌++◌, append_assoc, arith, ℤ, pos,
  negsuc, take,
}
use pixiecpp.Os.{Reply, Call, returned, sys_read}
use pixiecpp.Blk.Socket.Read.{world}
use pixiecpp.Twc.Cbuffer.Pending.{pending}
use pixiecpp.Twc.Machine.{StateMachine, FdSet, Executed, sm_request, sm_execute, sm_ok}
use pixiecpp.Twc.Machine.Step.{room, wrote, did_read}
use pixiecpp.Twc.Machine.Replies.{
  AreReady, Took, Got, read_status, arrived, sm_write-Took, sm_read-Got,
}

sm_request-cbuffer :
    (sm : StateMachine) (read_fds write_fds : FdSet) (status : ℤ)
    → (sm_request sm read_fds write_fds status).machine.cbuffer ≡ sm.cbuffer
unfolding sm_request
sm_request-cbuffer sm read_fds write_fds (pos zero) = refl
sm_request-cbuffer sm read_fds write_fds (pos (suc n)) = ground arith
sm_request-cbuffer sm read_fds write_fds (negsuc n) = refl

sm_request-status :
    (sm : StateMachine) (read_fds write_fds : FdSet) (status : ℤ)
    → (sm_request sm read_fds write_fds status).status ≡ status
unfolding sm_request
sm_request-status sm read_fds write_fds (pos zero) = refl
sm_request-status sm read_fds write_fds (pos (suc n)) = ground arith
sm_request-status sm read_fds write_fds (negsuc n) = refl

Got-same :
    (sm sm' : StateMachine) (r : Reply)
    → sm'.cbuffer.read_ptr ≡ sm.cbuffer.read_ptr
    → sm'.cbuffer.buffer_size ≡ sm.cbuffer.buffer_size
    → Got sm r
    → Got sm' r
Got-same sm sm' r e e' (Got.stored h fits v) = Got.stored h (omega arith) v
Got-same sm sm' r e e' (Got.at_end v) = Got.at_end v
Got-same sm sm' r e e' (Got.not_read n v) = Got.not_read n v

-- One call of sm_execute with both descriptors ready and some bytes pending, in which the write
-- fails or takes some of them, and the read fails, meets the end of the stream, or stores some
-- bytes, short of the end of the buffer. In all six cases the bytes that the write took, followed by
-- those left in the buffer, are those that were pending, followed by those that arrived; and the
-- status is that of the read alone, so that a failed write is forgotten, and SM_EOF is returned
-- whatever is left in the buffer.
pub sm_execute-both :
    (sm : StateMachine) (read_fds write_fds : FdSet) (w r : Reply) (rs : List Reply)
    (log : List Call)
    → AreReady sm read_fds write_fds
    → Took sm w
    → Got sm r
    → (e : Executed) × (sm_execute sm read_fds write_fds sm_ok (world (w ∷ r ∷ rs) log)
        ≡ returned e (world rs (did_read sm (wrote sm log))))
      × (e.status ≡ read_status r.value)
      × (take (to_ℕ w.value) (pending sm.cbuffer) ++ pending e.machine.cbuffer
          ≡ pending sm.cbuffer ++ arrived r)
unfolding sm_execute
sm_execute-both sm read_fds write_fds w r rs log a took got =
    let first =
      sm_write-Took sm write_fds sm_ok w (r ∷ rs) log a.linear a.may_write a.some_pending took in
    let sm' : StateMachine = record sm { cbuffer = first.cb } in
    let second =
      sm_read-Got sm' read_fds first.status' r rs (wrote sm log) first.linear a.may_read a.awake
        (Got-same sm sm' r first.same_end first.same_size got) in
    let same_room : room first.cb ≡ room sm.cbuffer =
      omega (arith, first.same_end, first.same_size) in
    let last : StateMachine = record sm { cbuffer = second.cb } in
    let end = sm_request last read_fds write_fds (read_status r.value) in
    (
      end,
      rw first.ran (
          rw second.ran (
            ap (λ k. returned end (world rs (wrote sm log ++ (sys_read sm.read_fd k ∷ []))))
              same_room)),
      sm_request-status last read_fds write_fds (read_status r.value),
      ap (λ k. take (to_ℕ w.value) (pending sm.cbuffer) ++ pending k)
            (sm_request-cbuffer last read_fds write_fds (read_status r.value))
          ∙ (ap (λ k. take (to_ℕ w.value) (pending sm.cbuffer) ++ k) second.joined
              ∙ (sym (
                    append_assoc (take (to_ℕ w.value) (pending sm.cbuffer)) (pending first.cb)
                      (arrived r))
                  ∙ ap (λ k. k ++ arrived r) first.split)),
    )
