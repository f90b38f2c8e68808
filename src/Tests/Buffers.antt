-- ===== src/Tests/Buffers.antt =====
-- The growing buffer at concrete inputs.
use pixiecpp.Base.{ℕ, zero, suc, ◌≡◌, refl, ap, some, pos, [], ◌∷◌, arith, Bytes, codes}
use pixiecpp.SimpleBuffer.{SimpleBuffer, sb_append}
use pixiecpp.SimpleBuffer.Append.{IsValid, Allocates, Appended, sb_append-Appended}

abbrev pub malloc : ℕ → Bytes
malloc zero = []
malloc (suc n) = 0 ∷ malloc n

pub malloc-Allocates : Allocates malloc
malloc-Allocates zero = refl
malloc-Allocates (suc n) = ap suc (malloc-Allocates n)

-- A block of 5 bytes, of which 4 are used.
abbrev small : SimpleBuffer
small = record { buffer = codes "abcd."; used = pos 4; length = pos 5 }

small-IsValid : IsValid small
small-IsValid = (
  4,
  5,
  record {
    used = refl;
    size = refl;
    small = omega arith;
    room = omega arith;
    within = omega arith;
  },
)

sb_append-Appended_example :
    (sb' : SimpleBuffer) × (sb_append malloc small (codes "efg") ≡ some sb')
    × Appended small (codes "efg") sb'
sb_append-Appended_example =
    sb_append-Appended malloc small (codes "efg") malloc-Allocates small-IsValid (omega arith)
