-- ===== src/Twc/Cbuffer/End.antt =====
-- The buffer of external_src/twc.c where its end is reached.
use pixiecpp.Base.{
  lengths, ◌≤◌, ◌⊎◌, inl, inr, Bool-cases, ltb, ◌==◌, suc, ◌+◌, ◌<◌, ◌≡◌, false, none, some, ◌++◌,
  arith, is_pos, Bytes, length,
}
use pixiecpp.Twc.Cbuffer.{Cbuffer, cb_advance_read_ptr, cb_write_available, store_at}
use pixiecpp.Twc.Cbuffer.Pending.{pending, IsLinear, fill, fill_lem, length-pending}

-- A read that stores all but the last byte of the room.
fill_at_end :
    (cb : Cbuffer) (bs : Bytes)
    → IsLinear cb
    → suc (cb.read_ptr + length bs) ≡ cb.buffer_size
    → (cb' : Cbuffer) × (fill cb bs ≡ some cb')
      × (is_pos (cb_write_available cb') ≡ false)
      × (0 < length (pending cb ++ bs))
unfolding fill cb_advance_read_ptr
fill_at_end cb bs l e = (
  record cb { buffer = store_at cb.read_ptr bs cb.buffer; read_ptr = 0 },
  ground arith,
  ground arith,
  grind (lengths, length-pending cb l, l.inside, l.ordered),
)

-- A read that uses all of the room.
fill_full :
    (cb : Cbuffer) (bs : Bytes)
    → IsLinear cb
    → cb.read_ptr + length bs ≡ cb.buffer_size
    → fill cb bs ≡ none
unfolding fill cb_advance_read_ptr
fill_full cb bs l e = ground arith

-- The read pointer is back at the start, and nothing is seen that could be written.
abbrev pub WrapsEmpty : Cbuffer → Bytes → Type 0
WrapsEmpty cb bs =
    (cb' : Cbuffer) × (fill cb bs ≡ some cb')
    × (is_pos (cb_write_available cb') ≡ false)
    × (0 < length (pending cb ++ bs))

abbrev pub Stores : Cbuffer → Bytes → Type 0
Stores cb bs =
    (cb' : Cbuffer) × (fill cb bs ≡ some cb') × IsLinear cb' × (pending cb' ≡ pending cb ++ bs)

-- A read of sm_execute into a buffer whose pointers have not gone round, of at most as many bytes as
-- cb_read_available offers. Short of the last byte but one, the bytes are added behind those that
-- are pending; with all but the last byte of the room, the read pointer goes back to the start, and
-- cb_write_available then finds nothing to write although bytes are pending; and with all of the room
-- the assertion of cb_advance_read_ptr fails.
pub fill-cases :
    (cb : Cbuffer) (bs : Bytes)
    → IsLinear cb
    → cb.read_ptr + length bs ≤ cb.buffer_size
    → (suc (cb.read_ptr + length bs) < cb.buffer_size × Stores cb bs)
      ⊎ (suc (cb.read_ptr + length bs) ≡ cb.buffer_size × WrapsEmpty cb bs)
      ⊎ (cb.read_ptr + length bs ≡ cb.buffer_size × (fill cb bs ≡ none))
fill-cases cb bs l offered =
    let stored = cb.read_ptr + length bs in
    elim (Bool-cases (ltb (suc stored) cb.buffer_size)) [
      | inl short ↦
          let h : suc stored < cb.buffer_size = ground (arith, short) in
          let (cb', e, l', queue, _, _) = fill_lem cb bs l h in inl (h, (cb', e, l', queue))
      | inr long ↦ elim (Bool-cases (suc stored == cb.buffer_size)) [
        | inl last ↦
            let h : suc stored ≡ cb.buffer_size = ground (arith, last) in
            inr (inl (h, fill_at_end cb bs l h))
        | inr more ↦
            let h : stored ≡ cb.buffer_size = ground (arith, long, more, offered) in
            inr (inr (h, fill_full cb bs l h))
      ]
    ]
