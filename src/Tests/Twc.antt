-- ===== src/Tests/Twc.antt =====
-- The channel's buffer at concrete inputs.
use pixiecpp.Base.{
  ◌⊎◌, pos, ◌<◌, ◌≡◌, refl, false, none, some, List, [], ◌∷◌, ◌++◌, arith, Bytes, codes, negsuc, ℤ,
}
use pixiecpp.Twc.Cbuffer.{Cbuffer, cb_init, cb_advance_read_ptr, cb_advance_write}
use pixiecpp.Os.{Reply, Call, returned, aborted, ask, sys_read, sys_write, sys_select}
use pixiecpp.Blk.Socket.Read.{world}
use pixiecpp.Twc.Machine.{
  StateMachine, Executed, sm_execute, sm_ok, sm_eof, sm_write, sm_read, sm_request, sm_init,
}
use pixiecpp.Twc.Channel.Relay.{IsWired, Conserves, twc_run-Conserves}
use pixiecpp.Twc.Channel.Asserts.{twc_run-ne_aborted}
use pixiecpp.Os.Exchange.{sent, received, exchanged}
use pixiecpp.Twc.Machine.Step.{wrote, did_read}
use pixiecpp.Twc.Machine.Replies.{AreReady, Took, Got}
use pixiecpp.Twc.Machine.Both.{sm_execute-both}
use pixiecpp.Twc.Channel.{
  Running, TwoWayChannel, twc_init, twc_loop, twc_run, twc_round, execute_both,
}
use pixiecpp.Twc.Cbuffer.End.{WrapsEmpty, Stores, fill-cases}
use pixiecpp.Twc.Cbuffer.Pending.{IsLinear, pending, fill, drain}
use pixiecpp.Twc.Cbuffer.Relay.{Event, filled, drained, run, run_relays}

abbrev fresh : Cbuffer
fresh = record {
  buffer = codes "........";
  buffer_size = 8;
  read_ptr = 0;
  write_ptr = 0;
  was_malloced = false;
}

fresh_lem : cb_init 8 (codes "........") ≡ fresh
unfolding cb_init
fresh_lem = refl

fresh-IsLinear : IsLinear fresh
fresh-IsLinear = record { ordered = omega arith; inside = omega arith; whole = refl }

abbrev traffic : List Event
traffic = filled (codes "abc") ∷ drained 2 ∷ filled (codes "def") ∷ drained 3 ∷ []

run_relays_example :
    (cb' : Cbuffer) × (out : Bytes) × (run fresh traffic ≡ some (cb', out))
    × (out ++ pending cb' ≡ codes "abcdef")
run_relays_example = run_relays fresh traffic fresh-IsLinear (omega arith) (omega arith)

traffic_out :
    run fresh traffic
    ≡ some (record fresh { buffer = codes "abcdef.."; read_ptr = 6; write_ptr = 5 }, codes "abcde")
unfolding run fill drain cb_advance_read_ptr cb_advance_write
traffic_out = refl

-- The last byte of the buffer is not read.
fill-cases_example :
    (8 < 8 × Stores fresh (codes "abcdefg"))
    ⊎ (8 ≡ fresh.buffer_size × WrapsEmpty fresh (codes "abcdefg"))
    ⊎ (7 ≡ fresh.buffer_size × (fill fresh (codes "abcdefg") ≡ none))
fill-cases_example = fill-cases fresh (codes "abcdefg") fresh-IsLinear (omega arith)

abbrev relayed : Running
relayed = record {
  twc = twc_init (pos 5) (pos 6) 8 (codes "........") (codes "........") 0;
  read_fds = [];
  write_fds = [];
  status_a2b = pos 0;
  status_b2a = pos 0;
}

abbrev timeout : Reply
timeout = record { value = pos 0; errno = 0; bytes = []; read_set = []; write_set = [] }

-- Four bytes are pending, in a buffer of eight.
abbrev half_full : Cbuffer
half_full = record fresh { buffer = codes "abcd...."; read_ptr = 4 }

abbrev machine : StateMachine
machine = record { read_fd = pos 5; write_fd = pos 6; read_suspended = false; cbuffer = half_full }

machine-AreReady : AreReady machine (pos 5 ∷ []) (pos 6 ∷ [])
machine-AreReady = record {
  linear = record { ordered = omega arith; inside = omega arith; whole = refl };
  may_read = refl;
  may_write = refl;
  awake = refl;
  some_pending = omega arith;
}

abbrev replied : ℤ → Bytes → Reply
replied v bs = record timeout { value = v; bytes = bs }

sm_execute-both_example :
    (e : Executed) × (sm_execute machine
        (pos 5 ∷ [])
        (pos 6 ∷ [])
        sm_ok
        (world (replied (negsuc 0) [] ∷ replied (pos 2) (codes "ef") ∷ []) [])
      ≡ returned e (world [] (did_read machine (wrote machine []))))
    × (e.status ≡ sm_ok)
    × (pending e.machine.cbuffer ≡ codes "abcdef")
sm_execute-both_example =
    sm_execute-both machine (pos 5 ∷ []) (pos 6 ∷ []) (replied (negsuc 0) [])
      (replied (pos 2) (codes "ef")) [] [] machine-AreReady (Took.not_written 0 refl)
      (Got.stored (omega arith) (omega arith) refl)

-- Three bytes arrive at socket 5, socket 6 takes two of them, and the stream of socket 5 ends.
abbrev selected : List ℤ → List ℤ → Reply
selected readable writable = record timeout {
  value = pos 1;
  read_set = readable;
  write_set = writable;
}

abbrev small_channel : TwoWayChannel
small_channel = twc_init (pos 5) (pos 6) 8 (codes "........") (codes "........") 0

abbrev small_script : List Reply
small_script =
    selected (pos 5 ∷ []) []
    ∷ replied (pos 3) (codes "abc")
    ∷ selected [] (pos 6 ∷ [])
    ∷ replied (pos 2) []
    ∷ selected (pos 5 ∷ []) []
    ∷ replied (pos 0) []
    ∷ []

abbrev small_log : List Call
small_log =
    sys_select (pos 6) (pos 6 ∷ pos 5 ∷ []) []
    ∷ sys_read (pos 5) 8
    ∷ sys_select (pos 6) (pos 6 ∷ pos 5 ∷ pos 5 ∷ []) (pos 6 ∷ [])
    ∷ sys_write (pos 6) (codes "abc")
    ∷ sys_select (pos 6) (pos 6 ∷ pos 5 ∷ []) (pos 6 ∷ pos 6 ∷ [])
    ∷ sys_read (pos 5) 5
    ∷ []

-- The third byte is left in the buffer.
abbrev small_end : TwoWayChannel
small_end = record small_channel {
  sm_a2b = record small_channel.sm_a2b {
    cbuffer = record fresh { buffer = codes "abc....."; read_ptr = 3; write_ptr = 2 };
  };
}

small_run :
    twc_run small_channel (world small_script [])
    ≡ returned (sm_eof, small_end) (world [] small_log)
unfolding twc_run twc_loop twc_round execute_both sm_execute sm_write sm_read sm_request
    cb_advance_write cb_advance_read_ptr ask twc_init sm_init cb_init
small_run = refl

small_channel-IsWired : IsWired small_channel
unfolding twc_init sm_init cb_init
small_channel-IsWired = record {
  differ = refl;
  a2b_reads = refl;
  a2b_writes = refl;
  b2a_reads = refl;
  b2a_writes = refl;
  a2b_linear = record { ordered = omega arith; inside = omega arith; whole = refl };
  b2a_linear = record { ordered = omega arith; inside = omega arith; whole = refl };
}

twc_run-Conserves_example :
    Conserves
      (pos 5)
      (pos 6)
      small_channel.sm_a2b
      (exchanged (world small_script []) (world [] small_log))
      small_end.sm_a2b
    × Conserves
        (pos 6)
        (pos 5)
        small_channel.sm_b2a
        (exchanged (world small_script []) (world [] small_log))
        small_end.sm_b2a
unfolding twc_init sm_init cb_init
twc_run-Conserves_example =
    twc_run-Conserves small_channel (world small_script []) (world [] small_log) sm_eof small_end
      small_channel-IsWired small_run (omega arith) (omega arith) (omega arith)

small_bytes :
    (sent (pos 6) (exchanged (world small_script []) (world [] small_log)) ≡ codes "ab")
    × (received (pos 5) (exchanged (world small_script []) (world [] small_log)) ≡ codes "abc")
small_bytes = (refl, refl)

twc_run-ne_aborted_example :
    ¬ (twc_run small_channel (world small_script []) ≡ aborted (world [] small_log))
unfolding twc_init sm_init cb_init
twc_run-ne_aborted_example =
    twc_run-ne_aborted small_channel (world small_script []) (world [] small_log)
      small_channel-IsWired (omega arith) (omega arith) (omega arith) (omega arith)
