-- ===== src/Queue/Threads.antt =====
-- The queue under any interleaving of its threads.
use pixiecpp.Base.{
  lengths, ℕ, ◌≡◌, ◌⊎◌, inl, inr, refl, sym, ◌∙◌, ap, Option, none, some, List, [], ◌∷◌, ◌++◌,
  append_assoc, arith, ℤ, length,
}
use mathlib.Core.List.{Mem}
use pixiecpp.Queue.{Queue, new_queue, add, remove}

-- The queue with what was put in and what was handed out, oldest first.
pub record Traced : Type 0 where
  pub queue : Queue
  pub added : List ℤ
  pub removed : List ℤ

abbrev pub hand_out : List ℤ → Option ℤ → List ℤ
hand_out xs none = xs
hand_out xs (some r) = xs ++ (r ∷ [])

abbrev pub after_remove : Traced → Option ℤ × Queue → Traced
after_remove s r = record s { queue = r.1; removed = hand_out s.removed r.0 }

abbrev pub inside : Queue → List ℕ
inside s = s.waiting ++ s.woken

-- A thread adds; a thread that is not in `remove` enters it; a woken thread takes the mutex and
-- tests again; a waiting thread wakes with no broadcast, which POSIX allows.
pub data Step (s : Traced) : Traced → Type 0 where
  adds : (a : ℤ) → Step s (record s { queue = add a s.queue; added = s.added ++ (a ∷ []) })
  enters : (t : ℕ) → ¬ Mem t (inside s.queue) → Step s (after_remove s (remove t s.queue))
  resumes :
      (t : ℕ) (xs ys : List ℕ)
      → s.queue.woken ≡ xs ++ (t ∷ ys)
      → Step s (after_remove s (remove t (record s.queue { woken = xs ++ ys })))
  wakes :
      (t : ℕ) (xs ys : List ℕ)
      → s.queue.waiting ≡ xs ++ (t ∷ ys)
      → Step s (record s {
        queue = record s.queue { waiting = xs ++ ys; woken = s.queue.woken ++ (t ∷ []) };
      })

pub data Reach (s : Traced) : Traced → Type 0 where
  here : Reach s s
  next : {t u : Traced} → Reach s t → Step t u → Reach s u

abbrev pub start : Traced
start = record { queue = new_queue; added = []; removed = [] }

-- Nobody sleeps while there is something to take, and what was handed out followed by what is
-- left is what was put in.
pub record IsSound (s : Traced) : Type 0 where
  pub awake : (s.queue.waiting ≡ []) ⊎ (s.queue.q ≡ [])
  pub in_order : s.removed ++ s.queue.q ≡ s.added

pub add-IsSound :
    (s : Traced) (a : ℤ)
    → IsSound s
    → IsSound (record s { queue = add a s.queue; added = s.added ++ (a ∷ []) })
unfolding add
add-IsSound s a v = grind (lengths, append_assoc s.removed s.queue.q (a ∷ []))

pub after_remove-IsSound :
    (s : Traced) (t : ℕ) (q : Queue) (xs : List ℤ)
    → q.q ≡ xs
    → (q.waiting ≡ []) ⊎ (xs ≡ [])
    → s.removed ++ xs ≡ s.added
    → IsSound (after_remove s (remove t q))
unfolding remove
after_remove-IsSound s t q [] e awake order = ground arith
after_remove-IsSound s t q (r ∷ rest) e awake order =
    ground (arith, append_assoc s.removed (r ∷ []) rest)

pub Step-IsSound : {s u : Traced} → Step s u → IsSound s → IsSound u
Step-IsSound {s} (adds a) v = add-IsSound s a v
Step-IsSound {s} (enters t h) v = after_remove-IsSound s t s.queue s.queue.q refl v.awake v.in_order
Step-IsSound {s} (resumes t xs ys e) v =
    after_remove-IsSound s t _ s.queue.q refl v.awake v.in_order
Step-IsSound {s} (wakes t xs ys e) v = record {
  awake = elim v.awake [
    | inl none_waits ↦ absurd (grind (lengths, ap length (sym e ∙ none_waits)))
    | inr empty ↦ inr empty
  ];
  in_order = v.in_order;
}

-- In every state that the threads can reach from a new queue: no thread is asleep in
-- pthread_cond_wait while an item is in the queue, and the items handed out, in order, followed by
-- those in the queue are the items added, in order.
pub Reach-IsSound : {s : Traced} → Reach start s → IsSound s
Reach-IsSound here = record { awake = inl refl; in_order = refl }
Reach-IsSound (next r st) = Step-IsSound st (Reach-IsSound r)

pub add-q : (a : ℤ) (s : Queue) → (add a s).q ≡ s.q ++ (a ∷ [])
unfolding add
add-q a s = ground arith

-- A thread that finds the queue empty goes to sleep and takes nothing; the item that is added next
-- wakes every thread that sleeps, and the thread that tests the queue next is handed that item.
pub remove-add :
    (t u : ℕ) (a : ℤ) (s : Queue)
    → s.q ≡ []
    → ((remove t s).0 ≡ none)
      × ((add a (remove t s).1).woken ≡ s.woken ++ (s.waiting ++ (t ∷ [])))
      × (remove u (add a (remove t s).1)
          ≡ (some a, record s { waiting = []; woken = s.woken ++ (s.waiting ++ (t ∷ [])) }))
unfolding remove add
remove-add t u a s e = (ground arith, ground arith, ground arith)
