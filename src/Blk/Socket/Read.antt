-- ===== src/Blk/Socket/Read.antt =====
-- BlkSocket::readMessage: how it ends, for every script of replies.
use pixiecpp.Base.{
  ℕ, zero, suc, ◌<◌, ◌≡◌, ◌⊎◌, inl, inr, refl, ◌∙◌, ap, true, false, Bool-cases, List, [], ◌∷◌,
  ◌++◌, arith, ℤ, pos, negsuc, ltb, Bytes, length, take-length, take,
}
use pixiecpp.ErrorCodes.{blk_read_status_ok, blk_read_status_eof, blk_read_status_parse_error}
use pixiecpp.Os.{
  Reply, World, Call, report, Outcome, returned, blocked, threw, aborted, exited, sys_read, ask,
}
use pixiecpp.Sockets.Data.{socket_read_data}
use pixiecpp.Blk.Message.{BlkMessage}
use pixiecpp.Blk.Parser.{BlkParser, new_parser, append}
use pixiecpp.Blk.Parser.Keeps.{IsParsed}
use pixiecpp.Blk.Parser.Valid.{IsReady, new_parser-IsReady, append-IsParsed, append-IsReady}
use pixiecpp.Blk.Socket.{
  buffer_length, ReadResult, result, done, again, after_append, read_round, read_loop, read_message,
}

abbrev pub world : List Reply → List Call → World
world rs log = record { script = rs; log = log }

abbrev pub reading : ℤ → List Reply → List Call → World
reading socket rs log = world rs (log ++ (sys_read socket buffer_length ∷ []))

-- A read that stores bytes, one that meets the end of the stream, and one that fails.
pub read_round-bytes :
    (socket : ℤ) (p : BlkParser) (r : Reply) (rs : List Reply) (log : List Call)
    → r.value ≡ pos (length r.bytes)
    → 0 < length r.bytes
    → read_round socket p (world (r ∷ rs) log)
      ≡ returned (after_append (append p r.bytes).1) (reading socket rs log)
unfolding read_round socket_read_data ask
read_round-bytes socket p r rs log v ne =
    rw (v, take-length r.bytes)
      (elim (Bool-cases (ltb 0 (length r.bytes))) [
        | inl more ↦ rw more refl
        | inr none_left ↦ absurd (ground arith)
      ])

pub read_round-some :
    (socket : ℤ) (p : BlkParser) (r : Reply) (rs : List Reply) (log : List Call) (n : ℕ)
    → r.value ≡ pos (suc n)
    → read_round socket p (world (r ∷ rs) log)
      ≡ returned (after_append (append p (take (suc n) r.bytes)).1) (reading socket rs log)
unfolding read_round socket_read_data ask
read_round-some socket p r rs log n v =
    let some_bytes : ltb 0 (suc n) ≡ true = ground arith in rw (v, some_bytes) refl

pub read_round-eof :
    (socket : ℤ) (p : BlkParser) (r : Reply) (rs : List Reply) (log : List Call)
    → r.value ≡ pos 0
    → read_round socket p (world (r ∷ rs) log)
      ≡ returned
          (done (record { got = false; msg = p.msg; status = blk_read_status_eof }))
          (reading socket rs log)
unfolding read_round socket_read_data ask
read_round-eof socket p r rs log v = rw v refl

-- The world in which a read of `socket` has failed.
abbrev pub after_failure : ℤ → List Reply → List Call → World
after_failure socket rs log =
    world rs ((log ++ (sys_read socket buffer_length ∷ [])) ++ (report "read failed" ∷ []))

pub read_round-failed :
    (socket : ℤ) (p : BlkParser) (r : Reply) (rs : List Reply) (log : List Call) (n : ℕ)
    → r.value ≡ negsuc n
    → read_round socket p (world (r ∷ rs) log) ≡ threw (after_failure socket rs log)
unfolding read_round socket_read_data ask
read_round-failed socket p r rs log n v = rw v refl

pub read_round-blocked :
    (socket : ℤ) (p : BlkParser) (log : List Call)
    → read_round socket p (world [] log) ≡ blocked (reading socket [] log)
unfolding read_round socket_read_data ask
read_round-blocked socket p log = refl

-- What read(2) returns: some bytes, the end of the stream, or a failure.
pub data IsRead (r : Reply) : Type 0 where
  stored : (n : ℕ) → r.value ≡ pos (suc n) → IsRead r
  at_eof : r.value ≡ pos 0 → IsRead r
  failed : (n : ℕ) → r.value ≡ negsuc n → IsRead r

by_value : (r : Reply) (v : ℤ) → r.value ≡ v → IsRead r
by_value r (pos zero) e = at_eof e
by_value r (pos (suc n)) e = stored n e
by_value r (negsuc n) e = failed n e

pub is_read : (r : Reply) → IsRead r
is_read r = by_value r r.value refl

-- A message, or none and the reason.
abbrev pub Received : ReadResult → Type 0
Received r = (r.got ≡ true) × (r.status ≡ blk_read_status_ok) × IsParsed r.msg

abbrev pub Refused : ReadResult → Type 0
Refused r =
    (r.got ≡ false) × ((r.status ≡ blk_read_status_eof) ⊎ (r.status ≡ blk_read_status_parse_error))

abbrev pub ReadEnds : Outcome ReadResult → Type 0
ReadEnds (returned r w) = Received r ⊎ Refused r
ReadEnds (blocked w) = w.script ≡ []
ReadEnds (threw w) = Unit {0}
ReadEnds (aborted w) = ⊥
ReadEnds (exited c w) = ⊥

-- The tests after `append`, as a case split.
pub after_append_cases :
    (p : BlkParser) (buf : Bytes)
    → IsReady p
    → let q = (append p buf).1 in
      ((r : ReadResult) × (after_append q ≡ done r) × (Received r ⊎ Refused r))
      ⊎ ((after_append q ≡ again q) × IsReady q)
after_append_cases p buf ready =
    let parsed = append-IsParsed p buf ready in
    let open_still = append-IsReady p buf ready in
    elim (Bool-cases (append p buf).1.message_complete) [
      | inl full ↦ inl (
        result true (append p buf).1 blk_read_status_ok,
        rw full refl,
        inl (refl, refl, (parsed full).1),
      )
      | inr part ↦ elim (Bool-cases (append p buf).1.parse_error) [
        | inl bad ↦ inl (
          result false (append p buf).1 blk_read_status_parse_error,
          rw (part, bad) refl,
          inr (refl, inr refl),
        )
        | inr fine ↦ inr (rw (part, fine) refl, open_still fine part)
      ]
    ]

module _ (socket : ℤ) where
  pub read_loop-again :
      (f : ℕ) (p q : BlkParser) (w w' : World)
      → read_round socket p w ≡ returned (again q) w'
      → read_loop (suc f) socket p w ≡ read_loop f socket q w'
  unfolding read_loop
  read_loop-again f p q w w' e = rw e refl

  pub read_loop-done :
      (f : ℕ) (p : BlkParser) (r : ReadResult) (w w' : World)
      → read_round socket p w ≡ returned (done r) w'
      → read_loop (suc f) socket p w ≡ returned r w'
  unfolding read_loop
  read_loop-done f p r w w' e = rw e refl

  pub read_loop-threw :
      (f : ℕ) (p : BlkParser) (w w' : World)
      → read_round socket p w ≡ threw w'
      → read_loop (suc f) socket p w ≡ threw w'
  unfolding read_loop
  read_loop-threw f p w w' e = rw e refl

  read_loop-blocked :
      (f : ℕ) (p : BlkParser) (w w' : World)
      → read_round socket p w ≡ blocked w'
      → read_loop (suc f) socket p w ≡ blocked w'
  unfolding read_loop
  read_loop-blocked f p w w' e = rw e refl

  -- The loop, with a round to spare for each reply.
  read_loop-ReadEnds :
      (f : ℕ) (p : BlkParser) (rs : List Reply) (log : List Call)
      → length rs < f
      → IsReady p
      → ReadEnds (read_loop f socket p (world rs log))
  read_loop-ReadEnds zero p rs log lt ready = absurd (omega arith)
  read_loop-ReadEnds (suc f) p [] log lt ready =
      rw (read_loop-blocked f p _ _ (read_round-blocked socket p log)) refl
  read_loop-ReadEnds (suc f) p (r ∷ rs) log lt ready = elim (is_read r) [
    | at_eof v ↦
        rw (read_loop-done f p _ _ _ (read_round-eof socket p r rs log v)) (inr (refl, inl refl))
    | failed n v ↦ rw (read_loop-threw f p _ _ (read_round-failed socket p r rs log n v)) tt
    | stored n v ↦
        let round = read_round-some socket p r rs log n v in
        elim (after_append_cases p (take (suc n) r.bytes) ready) [
          | inl (d, e, ends) ↦
              rw (read_loop-done f p d _ _ (round ∙ ap (λ x. returned x (reading socket rs log)) e))
                ends
          | inr (e, ready') ↦
              rw
                (read_loop-again f p _ _ _ (round ∙ ap (λ x. returned x (reading socket rs log)) e))
                (read_loop-ReadEnds f (append p (take (suc n) r.bytes)).1 rs _ (omega arith) ready')
        ]
  ]

-- Whatever the system answers to its reads, BlkSocket::readMessage returns `true`, the status OK and a
-- message that satisfies the parser's guarantees; or it returns `false` and the status EOF or
-- PARSE_ERROR; or it throws; or it is blocked in read(2), all replies used. It never reports
-- BLK_READ_STATUS_IOERROR, and never reaches its `assert(false)`.
pub read_message-ReadEnds :
    (junk socket : ℤ) (msg : BlkMessage) (rs : List Reply) (log : List Call)
    → ReadEnds (read_message junk socket msg (world rs log))
unfolding read_message
read_message-ReadEnds junk socket msg rs log =
    read_loop-ReadEnds socket (suc (length rs)) (new_parser msg junk) rs log (omega arith)
      (new_parser-IsReady msg junk)
