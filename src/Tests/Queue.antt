-- ===== src/Tests/Queue.antt =====
-- The queue of descriptors at concrete inputs.
use mathlib.Core.List.{not-mem-nil}
use pixiecpp.Base.{◌≡◌, refl, [], ◌∷◌, pos}
use pixiecpp.Queue.{new_queue, add, remove}
use pixiecpp.Queue.Threads.{Traced, Step, Reach, start, IsSound, Reach-IsSound, after_remove}

-- Thread 1 waits, item 7 is added, and thread 1 takes it.
abbrev asleep : Traced
asleep = after_remove start (remove 1 start.queue)

abbrev woken : Traced
woken = record asleep { queue = add (pos 7) asleep.queue; added = pos 7 ∷ [] }

abbrev served : Traced
served = after_remove woken (remove 1 (record woken.queue { woken = [] }))

served-Reach : Reach start served
unfolding remove add
served-Reach =
    Reach.next
      (Reach.next (Reach.next Reach.here (Step.enters 1 (λ m. not-mem-nil m))) (Step.adds (pos 7)))
      (Step.resumes 1 [] [] refl)

served_lem : (served.removed ≡ pos 7 ∷ []) × (served.queue ≡ new_queue)
unfolding remove add
served_lem = (refl, refl)

Reach-IsSound_example : IsSound served
Reach-IsSound_example = Reach-IsSound served-Reach
