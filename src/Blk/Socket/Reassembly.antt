-- ===== src/Blk/Socket/Reassembly.antt =====
-- BlkSocket::readMessage over a stream that arrives in pieces.
use pixiecpp.Base.{
  ℕ, zero, suc, ◌+◌, ◌<◌, ◌≡◌, refl, ◌∙◌, ap, true, false, List, [], ◌∷◌, ◌++◌, append_assoc,
  append-nil, arith, ℤ, pos, negsuc, Bytes, All, length, replicate, replicate-snoc,
}
use pixiecpp.ErrorCodes.{blk_read_status_ok, blk_read_status_eof}
use pixiecpp.Os.{Reply, Call, returned, threw, sys_read}
use pixiecpp.Blk.Message.{BlkMessage, to_raw_string}
use pixiecpp.Blk.Parser.{BlkParser, new_parser, append}
use pixiecpp.Blk.Parser.Lines.{IsOpen}
use pixiecpp.Blk.Parser.Feeding.{feed}
use pixiecpp.Blk.Parser.Chunks.{append-split, append-split_closed, append-IsOpen, append-empty}
use pixiecpp.Blk.Parser.RoundTrip.{IsWellFormed, append-to_raw_string}
use pixiecpp.Blk.Socket.{buffer_length, again, after_append, read_loop, read_message, result}
use pixiecpp.Blk.Socket.Read.{
  world, reading, after_failure, read_round-bytes, read_round-eof, read_round-failed,
  read_loop-again, read_loop-done, read_loop-threw,
}

-- The reply of a read that stores a piece of the stream.
abbrev pub piece : Bytes → Reply
piece c = record { value = pos (length c); errno = 0; bytes = c; read_set = []; write_set = [] }

abbrev pub pieces : List Bytes → List Reply → List Reply
pieces [] rs = rs
pieces (c ∷ cs) rs = piece c ∷ pieces cs rs

abbrev pub joined : List Bytes → Bytes
joined [] = []
joined (c ∷ cs) = c ++ joined cs

abbrev pub NonEmpty : Bytes → Type 0
NonEmpty c = 0 < length c

abbrev pub reads : ℕ → ℤ → List Call
reads n socket = replicate n (sys_read socket buffer_length)

module _ (socket : ℤ) where
  after_open : (q : BlkParser) → IsOpen q → after_append q ≡ again q
  after_open q o = ground arith

  read_loop-piece :
      (f : ℕ) (p q : BlkParser) (c : Bytes) (rs : List Reply) (log : List Call)
      → IsOpen p
      → NonEmpty c
      → append p c ≡ (negsuc 0, q)
      → read_loop (suc f) socket p (world (piece c ∷ rs) log)
        ≡ read_loop f socket q (reading socket rs log)
  read_loop-piece f p q c rs log o ne e = read_loop-again socket f p q _ _ (
      read_round-bytes socket p (piece c) rs log refl ne
      ∙ ap (λ x. returned x (reading socket rs log))
          (ap (λ r. after_append r.1) e ∙ after_open q (append-IsOpen p c q o e)))

  -- Pieces that leave the parser open only feed it.
  read_loop-pieces :
      (fuel f : ℕ) (p q : BlkParser) (cs : List Bytes) (rs : List Reply) (log : List Call)
      → fuel ≡ length cs + f
      → IsOpen p
      → All NonEmpty cs
      → append p (joined cs) ≡ (negsuc 0, q)
      → read_loop fuel socket p (world (pieces cs rs) log)
        ≡ read_loop f socket q (world rs (log ++ reads (length cs) socket))
  read_loop-pieces fuel f p q [] rs log e o h fed =
      let e' : fuel ≡ f = omega arith in rw (e', append-empty p q fed, append-nil)
  read_loop-pieces zero f p q (c ∷ cs) rs log e o (ne, h) fed = absurd (omega arith)
  read_loop-pieces (suc fuel) f p q (c ∷ cs) rs log e o (ne, h) fed =
      let (first, rest) = append-split p c (joined cs) q fed in
      read_loop-piece fuel p (feed p c) c (pieces cs rs) log o ne first
      ∙ (read_loop-pieces fuel f (feed p c) q cs rs (log ++ (sys_read socket buffer_length ∷ []))
            (omega arith) (append-IsOpen p c (feed p c) o first) h rest
          ∙ ap (λ l. read_loop f socket q (world rs l)) (append_assoc log _ _))

  read_loop-last :
      (f : ℕ) (p q : BlkParser) (c : Bytes) (n : ℕ) (rs : List Reply) (log : List Call)
      → NonEmpty c
      → append p c ≡ (pos n, q)
      → q.message_complete ≡ true
      → read_loop (suc f) socket p (world (piece c ∷ rs) log)
        ≡ returned (result true q blk_read_status_ok) (reading socket rs log)
  read_loop-last f p q c n rs log ne e full = read_loop-done socket f p _ _ _ (
      read_round-bytes socket p (piece c) rs log refl ne
      ∙ ap (λ x. returned x (reading socket rs log)) (ap (λ r. after_append r.1) e ∙ rw full refl))

pub reads-snoc :
    (log : List Call) (n : ℕ) (socket : ℤ)
    → (log ++ reads n socket) ++ (sys_read socket buffer_length ∷ []) ≡ log ++ reads (suc n) socket
reads-snoc log n socket =
    append_assoc log (reads n socket) _
    ∙ ap (λ l. log ++ l) (replicate-snoc n (sys_read socket buffer_length))

pub length-pieces :
    (cs : List Bytes) (rs : List Reply) → length (pieces cs rs) ≡ length cs + length rs
length-pieces [] rs = omega arith
length-pieces (c ∷ cs) rs = omega (arith, length-pieces cs rs)

pub read_message-pieces :
    (junk socket : ℤ) (old m : BlkMessage) (cs : List Bytes) (last extra : Bytes) (rs : List Reply)
    (log : List Call)
    → IsWellFormed m
    → joined cs ++ last ≡ to_raw_string m ++ extra
    → length (joined cs) < length (to_raw_string m)
    → All NonEmpty cs
    → NonEmpty last
    → read_message junk socket old (world (pieces cs (piece last ∷ rs)) log)
      ≡ returned
          (record { got = true; msg = m; status = blk_read_status_ok })
          (world rs (log ++ reads (suc (length cs)) socket))
unfolding read_message
read_message-pieces junk socket old m cs last extra rs log w e lt h ne =
    let parser = new_parser old junk in
    let (count, full, no_error, msg) = append-to_raw_string old junk extra m w in
    let q = (append parser (to_raw_string m ++ extra)).1 in
    let whole : append parser (joined cs ++ last) ≡ (pos (length (to_raw_string m)), q) =
      ap (append parser) e ∙ (λ i. (count i, q)) in
    let (first, rest) = append-split_closed parser (joined cs) last _ q whole lt in
    read_loop-pieces socket _ (suc (suc (length rs))) parser (feed parser (joined cs)) cs
      (piece last ∷ rs) log (omega (arith, length-pieces cs (piece last ∷ rs)))
      (record { no_error = refl; not_complete = refl }) h first
    ∙ (read_loop-last socket (suc (length rs)) (feed parser (joined cs)) q last _ rs _ ne rest full
        ∙ λ i.
            returned (record { got = true; msg = msg i; status = blk_read_status_ok })
              (world rs (reads-snoc log (length cs) socket i)))

-- A read that fails before the message is complete makes BlkSocket::readMessage throw, since
-- `std::string(buffer, -1)` does; the call returns no status.
pub read_message-failed :
    (junk socket : ℤ) (old : BlkMessage) (cs : List Bytes) (q : BlkParser) (r : Reply) (n : ℕ)
    (rs : List Reply) (log : List Call)
    → append (new_parser old junk) (joined cs) ≡ (negsuc 0, q)
    → All NonEmpty cs
    → r.value ≡ negsuc n
    → read_message junk socket old (world (pieces cs (r ∷ rs)) log)
      ≡ threw (after_failure socket rs (log ++ reads (length cs) socket))
unfolding read_message
read_message-failed junk socket old cs q r n rs log fed h v =
    read_loop-pieces socket _ (suc (suc (length rs))) (new_parser old junk) q cs (r ∷ rs) log
      (omega (arith, length-pieces cs (r ∷ rs))) (record { no_error = refl; not_complete = refl }) h
      fed
    ∙ read_loop-threw socket (suc (length rs)) q _ _
        (read_round-failed socket q r rs (log ++ reads (length cs) socket) n v)

-- The end of the stream before the message is complete, also in the middle of it, is reported as
-- BLK_READ_STATUS_EOF; `msg` is what the parser holds.
pub read_message-eof :
    (junk socket : ℤ) (old : BlkMessage) (cs : List Bytes) (q : BlkParser) (r : Reply)
    (rs : List Reply) (log : List Call)
    → append (new_parser old junk) (joined cs) ≡ (negsuc 0, q)
    → All NonEmpty cs
    → r.value ≡ pos 0
    → read_message junk socket old (world (pieces cs (r ∷ rs)) log)
      ≡ returned
          (record { got = false; msg = q.msg; status = blk_read_status_eof })
          (world rs (log ++ reads (suc (length cs)) socket))
unfolding read_message
read_message-eof junk socket old cs q r rs log fed h v =
    read_loop-pieces socket _ (suc (suc (length rs))) (new_parser old junk) q cs (r ∷ rs) log
      (omega (arith, length-pieces cs (r ∷ rs))) (record { no_error = refl; not_complete = refl }) h
      fed
    ∙ (read_loop-done socket (suc (length rs)) q _ _ _
          (read_round-eof socket q r rs (log ++ reads (length cs) socket) v)
        ∙ λ i.
            returned (record { got = false; msg = q.msg; status = blk_read_status_eof })
              (world rs (reads-snoc log (length cs) socket i)))
