-- ===== src/Blk/Socket/Calls.antt =====
-- BlkSocket: what readMessage and writeMessage write, for every script of replies.
use pixiecpp.Base.{
  ℕ, zero, suc, ◌≡◌, ◌⊎◌, inl, inr, refl, sym, subst, List, [], ◌∷◌, append_assoc, ℤ, Bytes, length,
  take, to_int,
}
use pixiecpp.Os.{pure, Reply, Call, report, sys_read}
use pixiecpp.Os.Calls.{Ends, Only, Only-bind, Only-pure, Only-blocked}
use pixiecpp.Sockets.Data.Writes.{Writes, socket_write_data-Only}
use pixiecpp.Blk.Message.{BlkMessage}
use pixiecpp.Blk.Parser.{BlkParser, new_parser, append}
use pixiecpp.Blk.Parser.Valid.{IsReady, new_parser-IsReady}
use pixiecpp.Blk.Socket.{
  buffer_length, Round, done, again, after_append, read_round, read_loop, read_message,
  write_message,
}
use pixiecpp.Blk.Socket.Read.{
  world, read_round-some, read_round-eof, read_round-failed, read_round-blocked, is_read, stored,
  at_eof, failed, Received, Refused, after_append_cases,
}
use pixiecpp.Blk.Socket.Write.{wire, handed_over}

-- A round ends with a result of readMessage, or leaves the parser ready.
abbrev GoesWell : Round → Type 0
GoesWell (done r) = Received r ⊎ Refused r
GoesWell (again q) = IsReady q

after_append-GoesWell :
    (p : BlkParser) (buf : Bytes) → IsReady p → GoesWell (after_append (append p buf).1)
after_append-GoesWell p buf ready = elim (after_append_cases p buf ready) [
  | inl (d, e, ends) ↦ subst GoesWell (sym e) ends
  | inr (e, ready') ↦ subst GoesWell (sym e) ready'
]

module _ (W : ℤ → Bytes → Type 0) (socket : ℤ) where
  read_round-Ends :
      (p : BlkParser) (rs : List Reply) (log : List Call)
      → IsReady p
      → Ends (Writes W) GoesWell (world rs log) (read_round socket p (world rs log))
  read_round-Ends p [] log ready =
      rw (read_round-blocked socket p log) (sys_read socket buffer_length ∷ [], refl, (tt, tt))
  read_round-Ends p (r ∷ rs) log ready = elim (is_read r) [
    | at_eof v ↦
        rw (read_round-eof socket p r rs log v)
          ((sys_read socket buffer_length ∷ [], refl, (tt, tt)), inr (refl, inl refl))
    | failed n v ↦
        let c = sys_read socket buffer_length in
        rw (read_round-failed socket p r rs log n v) (
          c ∷ report "read failed" ∷ [],
          append_assoc log (c ∷ []) (report "read failed" ∷ []),
          (tt, (tt, tt)),
        )
    | stored n v ↦ rw (read_round-some socket p r rs log n v) (
      (sys_read socket buffer_length ∷ [], refl, (tt, tt)),
      after_append-GoesWell p (take (suc n) r.bytes) ready,
    )
  ]

module _ {W : ℤ → Bytes → Type 0} (socket : ℤ) where
  read_loop-Only :
      (f : ℕ) (p : BlkParser)
      → IsReady p
      → Only (Writes W) (λ r. Received r ⊎ Refused r) (read_loop f socket p)
  unfolding read_loop
  read_loop-Only zero p ready = Only-blocked
  read_loop-Only (suc f) p ready =
      Only-bind (record { from = λ w. read_round-Ends W socket p w.script w.log ready })
        (λ r.
          elim r
            as (λ r.
              GoesWell r
              → Only (Writes W) (λ r. Received r ⊎ Refused r)
                  (elim r [ done d ↦ pure d | again q ↦ read_loop f socket q ])) [
                    | done d ↦ λ ends. Only-pure ends
                    | again q ↦ λ ready'. read_loop-Only f q ready'
                  ])

  -- Whatever the system answers, readMessage writes nothing, and what it returns is a message that
  -- satisfies the parser's guarantees, or none and the reason.
  pub read_message-Only :
      (junk : ℤ) (msg : BlkMessage)
      → Only (Writes W) (λ r. Received r ⊎ Refused r) (read_message junk socket msg)
  unfolding read_message
  read_message-Only junk msg = record {
    from = λ w.
        (read_loop-Only (suc (length w.script)) (new_parser msg junk)
            (new_parser-IsReady msg junk)).from
          w;
  }

  pub write_message-Only :
      (m : BlkMessage) (status : ℤ)
      → W socket (handed_over m)
      → Only (Writes W) (λ r. r.1 ≡ status) (write_message socket m status)
  unfolding write_message
  write_message-Only m status h =
      Only-bind (socket_write_data-Only socket (wire m) (to_int (length (wire m))) h)
        (λ _ _. Only-pure refl)
