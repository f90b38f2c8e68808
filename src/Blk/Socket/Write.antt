-- ===== src/Blk/Socket/Write.antt =====
-- BlkSocket::writeMessage: what its caller learns of the write.
use pixiecpp.Base.{
  ◌∙◌, ap, sym, ◌↔◌, ◌⊎◌, inl, inr, Bool-cases, ==_iff, ltb, ◌&&◌, append-nil, ℕ, ◌<◌, ◌≡◌, refl,
  true, false, List, [], ◌∷◌, ◌++◌, arith, ℤ, pos, negsuc, lt→ltb, ◌==◌, ==_refl, Bytes, length,
  until_nul, take, take-length, to_int, to_size, to_int-small, ◌^◌,
}
use pixiecpp.Os.{Reply, Call, returned, aborted, sys_write, report, ask}
use pixiecpp.Sockets.Data.{socket_write_data}
use pixiecpp.Blk.Message.{BlkMessage, to_raw_string}
use pixiecpp.Blk.Socket.{write_message}
use pixiecpp.Blk.Socket.Read.{world}

lt-ne : (a b : ℕ) → a < b → (a == b) ≡ false
lt-ne a b h = ground arith

-- The bytes that writeMessage counts: the text up to its first zero byte.
abbrev pub wire : BlkMessage → Bytes
wire m = until_nul (to_raw_string m)

abbrev pub written : ℤ → BlkMessage → List Call → List Call
written socket m log = log ++ (sys_write socket (wire m) ∷ [])

-- The bytes that are handed over where the length of the text may not fit an `int`.
abbrev pub handed_over : BlkMessage → Bytes
handed_over m = take (to_size (to_int (length (wire m)))) (wire m)

-- The text is one of at most INT_MAX bytes, and the write takes all of it.
abbrev pub TakesAll : Reply → BlkMessage → Type 0
TakesAll r m = (r.value ≡ pos (length (wire m))) × (length (wire m) < 2 ^ 31)

handed_over-wire : (m : BlkMessage) → length (wire m) < 2 ^ 31 → handed_over m ≡ wire m
handed_over-wire m fits = rw (to_int-small (length (wire m)) fits) (take-length (wire m))

-- A write that takes all the bytes.
pub write_message-sent :
    (socket : ℤ) (m : BlkMessage) (status : ℤ) (r : Reply) (rs : List Reply) (log : List Call)
    → TakesAll r m
    → 0 < length (wire m)
    → write_message socket m status (world (r ∷ rs) log)
      ≡ returned (true, status) (world rs (written socket m log))
unfolding write_message socket_write_data ask
write_message-sent socket m status r rs log (v, fits) some_bytes =
    rw (v, to_int-small (length (wire m)) fits, take-length (wire m))
      (rw (lt→ltb 0 (length (wire m)) some_bytes, ==_refl (length (wire m))) refl)

-- A write whose value is negative, or neither the number of bytes nor less.
write_message-unsent :
    (socket : ℤ) (m : BlkMessage) (status : ℤ) (r : Reply) (n : ℕ) (rs : List Reply)
    (log : List Call)
    → r.value ≡ negsuc n
    → length (wire m) < 2 ^ 31
    → write_message socket m status (world (r ∷ rs) log)
      ≡ returned
          (true, status)
          (world rs (written socket m log ++ (report "write failed r < 0" ∷ [])))
unfolding write_message socket_write_data ask
write_message-unsent socket m status r n rs log v fits =
    rw (v, to_int-small (length (wire m)) fits, take-length (wire m)) refl

write_message-odd :
    (socket : ℤ) (m : BlkMessage) (status : ℤ) (r : Reply) (n : ℕ) (rs : List Reply)
    (log : List Call)
    → r.value ≡ pos n
    → length (wire m) < 2 ^ 31
    → ltb 0 n && n == length (wire m) ≡ false
    → ltb 0 n && ltb n (length (wire m)) ≡ false
    → write_message socket m status (world (r ∷ rs) log)
      ≡ returned
          (true, status)
          (world rs (written socket m log ++ (report "write failed else" ∷ [])))
unfolding write_message socket_write_data ask
write_message-odd socket m status r n rs log v fits a b =
    rw (v, to_int-small (length (wire m)) fits, take-length (wire m)) (rw (a, b) refl)

-- A write that takes some of the bytes but not all.
write_message-partly :
    (socket : ℤ) (m : BlkMessage) (status : ℤ) (r : Reply) (n : ℕ) (rs : List Reply)
    (log : List Call)
    → r.value ≡ pos n
    → length (wire m) < 2 ^ 31
    → 0 < n
    → n < length (wire m)
    → write_message socket m status (world (r ∷ rs) log) ≡ aborted (world rs (written socket m log))
unfolding write_message socket_write_data ask
write_message-partly socket m status r n rs log v fits h lt =
    rw (v, to_int-small (length (wire m)) fits, take-length (wire m))
      (rw (lt→ltb 0 n h, lt→ltb n (length (wire m)) lt, lt-ne n (length (wire m)) lt) refl)

-- What a call of writeMessage ends with: it returns, and prints nothing exactly where all bytes were
-- taken; or it fails an assertion, where some were taken and not all.
abbrev pub Returns : ℤ → BlkMessage → ℤ → Reply → List Reply → List Call → Type 0
Returns socket m status r rs log =
    (lines : List Call) × (write_message socket m status (world (r ∷ rs) log)
      ≡ returned (true, status) (world rs (written socket m log ++ lines)))
    × ((r.value ≡ pos (length (wire m))) ↔ (lines ≡ []))

abbrev pub FailsPartly : ℤ → BlkMessage → ℤ → Reply → List Reply → List Call → Type 0
FailsPartly socket m status r rs log =
    (n : ℕ) × (r.value ≡ pos n)
    × (0 < n)
    × (n < length (wire m))
    × (write_message socket m status (world (r ∷ rs) log)
        ≡ aborted (world rs (written socket m log)))

printed :
    (v : ℤ) (n : ℕ) (c : Call) → ¬ (v ≡ pos n) → (v ≡ pos n) ↔ (◌≡◌ {A = List Call} (c ∷ []) [])
printed v n c h = (λ e. absurd (h e), λ e. absurd (omega (arith, ap length e)))

negsuc-pos : (v : ℤ) (n m : ℕ) → v ≡ negsuc n → ¬ (v ≡ pos m)
negsuc-pos v n m e e' = cc

pos-pos : (v : ℤ) (n m : ℕ) → v ≡ pos n → (n == m) ≡ false → ¬ (v ≡ pos m)
pos-pos v n m e h e' = ground arith

both-positive : (n m : ℕ) → (ltb 0 n && ltb n m) ≡ true → (0 < n) × (n < m)
both-positive n m h = ground arith

other-size : (n m : ℕ) → (n == m) ≡ false → (ltb 0 n && n == m) ≡ false
other-size n m h = ground arith

by_value :
    (socket : ℤ) (m : BlkMessage) (status : ℤ) (r : Reply) (rs : List Reply) (log : List Call)
    (v : ℤ)
    → r.value ≡ v
    → 0 < length (wire m)
    → length (wire m) < 2 ^ 31
    → Returns socket m status r rs log ⊎ FailsPartly socket m status r rs log
by_value socket m status r rs log (negsuc n) e some_bytes fits = inl (
  report "write failed r < 0" ∷ [],
  write_message-unsent socket m status r n rs log e fits,
  printed r.value (length (wire m)) _ (negsuc-pos r.value n (length (wire m)) e),
)
by_value socket m status r rs log (pos n) e some_bytes fits =
    elim (Bool-cases (n == length (wire m))) [
      | inl same ↦
          let all : r.value ≡ pos (length (wire m)) =
            e ∙ ap pos ((==_iff n (length (wire m))).0 same) in
          inl (
            [],
            write_message-sent socket m status r rs log (all, fits) some_bytes
                ∙ ap (λ l. returned (true, status) (world rs l))
                    (sym (append-nil (written socket m log))),
            (λ _. refl, λ _. all),
          )
      | inr other ↦ elim (Bool-cases (ltb 0 n && ltb n (length (wire m)))) [
        | inl partly ↦
            let (some_taken, not_all) = both-positive n (length (wire m)) partly in
            inr (
              n,
              e,
              some_taken,
              not_all,
              write_message-partly socket m status r n rs log e fits some_taken not_all,
            )
        | inr neither ↦ inl (
          report "write failed else" ∷ [],
          write_message-odd socket m status r n rs log e fits (other-size n (length (wire m)) other)
              neither,
          printed r.value (length (wire m)) _ (pos-pos r.value n (length (wire m)) e other),
        )
      ]
    ]

-- For a message whose text has a byte before its first zero byte, and at most INT_MAX, and for any
-- reply to the write: BlkSocket::writeMessage makes one write, of the text up to its first zero byte,
-- and no second one, and either returns `true` with the status that it was given, whether the write
-- succeeded or not, where it prints a line exactly if the write did not take every byte that it was
-- given; or, where the write took some of these bytes and not all, it ends the process by a failed
-- assertion.
pub write_message_lem :
    (socket : ℤ) (m : BlkMessage) (status : ℤ) (r : Reply) (rs : List Reply) (log : List Call)
    → 0 < length (wire m)
    → length (wire m) < 2 ^ 31
    → Returns socket m status r rs log ⊎ FailsPartly socket m status r rs log
write_message_lem socket m status r rs log some_bytes fits =
    by_value socket m status r rs log r.value refl some_bytes fits
