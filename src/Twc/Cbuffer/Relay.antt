-- ===== src/Twc/Cbuffer/Relay.antt =====
-- The buffer of external_src/twc.c as a queue of the bytes between its two pointers.
use pixiecpp.Base.{
  lengths, ℕ, suc, ◌+◌, ◌≤◌, ◌<◌, ◌≡◌, refl, sym, ◌∙◌, ap, Option, none, some, List, [], ◌∷◌, ◌++◌,
  append_assoc, append-nil, arith, Bytes, length, take, drop, take-append-drop,
}
use pixiecpp.Twc.Cbuffer.{Cbuffer}
use pixiecpp.Twc.Cbuffer.Pending.{
  pending, IsLinear, fill, length-pending, drain, fill_lem, drain_lem,
}

-- What sm_execute does to a buffer: it stores bytes, or writes some of the pending ones.
pub data Event : Type 0 where
  filled : Bytes → Event
  drained : ℕ → Event

abbrev pub input : List Event → Bytes
input [] = []
input (filled bs ∷ es) = bs ++ input es
input (drained n ∷ es) = input es

-- The events on a buffer, with the bytes written; `none` is a failed `assert`.
abbrev emit : Bytes → Option (Cbuffer × Bytes) → Option (Cbuffer × Bytes)
emit out none = none
emit out (some (cb, rest)) = some (cb, out ++ rest)

unfoldable pub run : Cbuffer → List Event → Option (Cbuffer × Bytes)
run cb [] = some (cb, [])
run cb (filled bs ∷ es) = elim (fill cb bs) [ none ↦ none | some cb' ↦ run cb' es ]
run cb (drained n ∷ es) = elim (drain cb n) [
  | none ↦ none
  | some cb' ↦ emit (take n (pending cb)) (run cb' es)
]

run-filled :
    (cb cb' : Cbuffer) (bs : Bytes) (es : List Event)
    → fill cb bs ≡ some cb'
    → run cb (filled bs ∷ es) ≡ run cb' es
unfolding run
run-filled cb cb' bs es e = rw (e, run) refl

run-drained :
    (cb cb' : Cbuffer) (n : ℕ) (es : List Event)
    → drain cb n ≡ some cb'
    → run cb (drained n ∷ es) ≡ emit (take n (pending cb)) (run cb' es)
unfolding run
run-drained cb cb' n es e = rw (e, run) refl

-- A write takes at most what is pending.
abbrev pub Allowed : Bytes → List Event → Type 0
Allowed queue [] = Unit {0}
Allowed queue (filled bs ∷ es) = Allowed (queue ++ bs) es
Allowed queue (drained n ∷ es) = (n ≤ length queue) × Allowed (drop n queue) es

regroup :
    (out rest new queue : Bytes) (n : ℕ)
    → out ++ rest ≡ drop n queue ++ new
    → (take n queue ++ out) ++ rest ≡ queue ++ new
regroup out rest new queue n e =
    append_assoc (take n queue) out rest
    ∙ (ap (λ l. take n queue ++ l) e
        ∙ (sym (append_assoc (take n queue) (drop n queue) new)
            ∙ ap (λ l. l ++ new) (take-append-drop n queue)))

-- From a buffer whose pointers have not gone round, for any sequence of reads and of writes that
-- take pending bytes only: as long as fewer than `buffer_size - 1` bytes are read in all, the
-- buffer is a first-in first-out queue: no assertion fails, and the bytes written followed by the
-- pending ones are the bytes that were pending followed by those read.
pub run_relays :
    (cb : Cbuffer) (es : List Event)
    → IsLinear cb
    → Allowed (pending cb) es
    → suc (cb.read_ptr + length (input es)) < cb.buffer_size
    → (cb' : Cbuffer) × (out : Bytes) × (run cb es ≡ some (cb', out))
      × (out ++ pending cb' ≡ pending cb ++ input es)
unfolding run
run_relays cb [] l a h = (cb, [], refl, sym (append-nil (pending cb)))
run_relays cb (filled bs ∷ es) l a h =
    let (cb', e, l', queue, r, size) = fill_lem cb bs l (grind lengths) in
    let (end, out, e', done) = run_relays cb' es l' (rw queue a) (grind lengths) in
    (
      end,
      out,
      run-filled cb cb' bs es e ∙ e',
      done ∙ (rw queue (append_assoc (pending cb) bs (input es))),
    )
run_relays cb (drained n ∷ es) l (fits, a) h =
    let (cb', e, l', queue, r, size) = drain_lem cb n l (omega (arith, length-pending cb l)) in
    let (end, out, e', done) = run_relays cb' es l' (rw queue a) (omega arith) in
    (
      end,
      take n (pending cb) ++ out,
      run-drained cb cb' n es e ∙ ap (emit (take n (pending cb))) e',
      regroup out (pending end) (input es) (pending cb) n (rw queue at done),
    )
