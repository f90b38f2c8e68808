-- ===== src/Twc/Machine/Replies.antt =====
-- The two parts of sm_execute at any reply that the system may give.
use pixiecpp.Base.{
  ℕ, zero, suc, to_ℕ, Bytes, append-nil, ◌+◌, ◌≤◌, ◌<◌, ◌≡◌, refl, sym, ap, ◌∙◌, true, false, List,
  ◌∷◌, ◌++◌, arith, ℤ, pos, negsuc, take, length, take-length, take-append-drop,
}
use pixiecpp.Os.{Reply, Call, Outcome, returned}
use pixiecpp.Blk.Socket.Read.{world}
use pixiecpp.Twc.Cbuffer.{Cbuffer}
use pixiecpp.Twc.Cbuffer.Pending.{pending, IsLinear, fill_lem, drain_lem, length-pending}
use pixiecpp.Twc.Machine.{StateMachine, FdSet, fd_isset, sm_write, sm_read, sm_ok, sm_ioerr, sm_eof}
use pixiecpp.Twc.Machine.Step.{
  wrote, did_read, sm_write-took, sm_write-failed, sm_read-stored, sm_read-eof, sm_read-failed,
}

-- Both descriptors of a machine are ready.
pub record AreReady (sm : StateMachine) (read_fds write_fds : FdSet) : Type 0 where
  pub linear : IsLinear sm.cbuffer
  pub may_read : fd_isset sm.read_fd read_fds ≡ true
  pub may_write : fd_isset sm.write_fd write_fds ≡ true
  pub awake : sm.read_suspended ≡ false
  pub some_pending : sm.cbuffer.write_ptr < sm.cbuffer.read_ptr

-- What write(2) may answer when some bytes are pending: an error, or that it took some of them.
pub data Took (sm : StateMachine) (r : Reply) : Type 0 where
  some_bytes : (n : ℕ) → 0 < n → n ≤ length (pending sm.cbuffer) → r.value ≡ pos n → Took sm r
  not_written : (n : ℕ) → r.value ≡ negsuc n → Took sm r

-- What read(2) may answer: an error, the end of the stream, or some bytes, short of the end of the
-- buffer.
pub data Got (sm : StateMachine) (r : Reply) : Type 0 where
  stored :
      0 < length r.bytes
      → suc (sm.cbuffer.read_ptr + length r.bytes) < sm.cbuffer.buffer_size
      → r.value ≡ pos (length r.bytes)
      → Got sm r
  at_end : r.value ≡ pos 0 → Got sm r
  not_read : (n : ℕ) → r.value ≡ negsuc n → Got sm r

-- The status that belongs to the value of a read.
abbrev pub read_status : ℤ → ℤ
read_status (negsuc n) = sm_ioerr
read_status (pos zero) = sm_eof
read_status (pos (suc n)) = sm_ok

abbrev pub arrived : Reply → Bytes
arrived r = take (to_ℕ r.value) r.bytes

-- The first part: what was taken and what is left are what was pending.
pub record Written (sm : StateMachine) (fds : FdSet) (status : ℤ) (r : Reply) (rs : List Reply)
    (log : List Call) : Type 0 where
  pub cb : Cbuffer
  pub status' : ℤ
  pub ran :
      sm_write sm fds status (world (r ∷ rs) log)
      ≡ returned (record sm { cbuffer = cb }, status') (world rs (wrote sm log))
  pub linear : IsLinear cb
  pub same_end : cb.read_ptr ≡ sm.cbuffer.read_ptr
  pub same_size : cb.buffer_size ≡ sm.cbuffer.buffer_size
  pub split : take (to_ℕ r.value) (pending sm.cbuffer) ++ pending cb ≡ pending sm.cbuffer

pub sm_write-Took :
    (sm : StateMachine) (fds : FdSet) (status : ℤ) (r : Reply) (rs : List Reply) (log : List Call)
    → IsLinear sm.cbuffer
    → fd_isset sm.write_fd fds ≡ true
    → sm.cbuffer.write_ptr < sm.cbuffer.read_ptr
    → Took sm r
    → Written sm fds status r rs log
sm_write-Took sm fds status r rs log l isset some_pending (Took.some_bytes n h le v) =
    let (cb, e, linear, queue, same_end, same_size) =
      drain_lem sm.cbuffer n l (omega (arith, length-pending sm.cbuffer l)) in
    record {
      cb = cb;
      status' = sm_ok;
      ran = sm_write-took sm l fds status r rs log n cb isset some_pending v h e;
      linear = linear;
      same_end = same_end;
      same_size = same_size;
      split = rw (v, queue) (take-append-drop n (pending sm.cbuffer));
    }
sm_write-Took sm fds status r rs log l isset some_pending (Took.not_written n v) = record {
  cb = sm.cbuffer;
  status' = sm_ioerr;
  ran = sm_write-failed sm l fds status r rs log n isset some_pending v;
  linear = l;
  same_end = refl;
  same_size = refl;
  split = rw v refl;
}

-- The second part: what arrived stands behind what was pending, and the status is that of the read.
pub record Filled (sm : StateMachine) (fds : FdSet) (status : ℤ) (r : Reply) (rs : List Reply)
    (log : List Call) : Type 0 where
  pub cb : Cbuffer
  pub ran :
      sm_read sm fds status (world (r ∷ rs) log)
      ≡ returned (record sm { cbuffer = cb }, read_status r.value) (world rs (did_read sm log))
  pub joined : pending cb ≡ pending sm.cbuffer ++ arrived r

read_status-pos : (n : ℕ) → 0 < n → read_status (pos n) ≡ sm_ok
read_status-pos zero h = absurd (omega arith)
read_status-pos (suc n) h = refl

pub sm_read-Got :
    (sm : StateMachine) (fds : FdSet) (status : ℤ) (r : Reply) (rs : List Reply) (log : List Call)
    → IsLinear sm.cbuffer
    → fd_isset sm.read_fd fds ≡ true
    → sm.read_suspended ≡ false
    → Got sm r
    → Filled sm fds status r rs log
sm_read-Got sm fds status r rs log l isset awake got =
    let with_status : Cbuffer → ℤ → Outcome (StateMachine × ℤ) =
      λ cb k. returned (record sm { cbuffer = cb }, k) (world rs (did_read sm log)) in
    elim got [
      | Got.stored h fits v ↦
          let (cb, e, _, queue, _, _) = fill_lem sm.cbuffer r.bytes l fits in
          record {
            cb = cb;
            ran =
                sm_read-stored sm l fds status r rs log cb isset awake v h e
                ∙ ap (with_status cb) (sym (ap read_status v ∙ read_status-pos (length r.bytes) h));
            joined =
                queue
                ∙ ap (λ k. pending sm.cbuffer ++ k)
                    (sym (ap (λ k. take (to_ℕ k) r.bytes) v ∙ take-length r.bytes));
          }
      | Got.at_end v ↦ record {
        cb = sm.cbuffer;
        ran =
            sm_read-eof sm l fds status r rs log isset awake v
            ∙ ap (with_status sm.cbuffer) (sym (ap read_status v));
        joined = rw v (sym (append-nil (pending sm.cbuffer)));
      }
      | Got.not_read n v ↦ record {
        cb = sm.cbuffer;
        ran =
            sm_read-failed sm l fds status r rs log n isset awake v
            ∙ ap (with_status sm.cbuffer) (sym (ap read_status v));
        joined = rw v (sym (append-nil (pending sm.cbuffer)));
      }
    ]
