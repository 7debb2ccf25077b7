-- ===== src/Buffer/InPlace.antt =====
-- Calls on a ByteBuffer for which there is room.
use cbor.Base.{
  ℕ, ◌+◌, ◌-◌, ◌≤◌, ◌≡◌, refl, ap, ◌∙◌, List, [], ◌∷◌, ◌++◌, leb-true, arith, Bytes, length,
  length-append, length-drop, All,
}
use cbor.Result.{ok}
use cbor.Buffer.{ByteBuffer, cap, ensure, write, write_byte, set_bytes, append_method, append_item}
use cbor.Buffer.Refinement.{
  Call, writes, writes_byte, ensures, resets, appends, act, acts, step, run, append_item-append,
}

-- What appends to the bytes.
abbrev pub IsAppend : Call → Type 0
IsAppend (writes p) = Unit {0}
IsAppend (writes_byte c) = Unit {0}
IsAppend (ensures n) = ⊥
IsAppend resets = ⊥
IsAppend (appends it) = Unit {0}

module _ (limit : ℕ) (behind : ByteBuffer → Bytes → Bytes) where
  length-acts :
      (calls : List Call) (s : Bytes) → All IsAppend calls → length s ≤ length (acts s calls)
  length-acts [] s h = omega arith
  length-acts (c ∷ calls) s (h, hs) = omega (arith, length-acts calls (act s c) hs, longer c s h)
    where
      longer : (c : Call) (s : Bytes) → IsAppend c → length s ≤ length (act s c)
      longer (writes p) s h = omega (arith, length-append s p)
      longer (writes_byte c) s h = omega (arith, length-append s (c ∷ []))
      longer (ensures n) s h = absurd h
      longer resets s h = absurd h
      longer (appends it) s h = omega (arith, length-append s (append_item [] it))

  set_bytes-kept :
      (bb : ByteBuffer) (p : Bytes)
      → length (bb.content ++ p) ≤ cap bb
      → cap (set_bytes limit behind bb (bb.content ++ p)) ≡ cap bb
  unfolding cap set_bytes
  set_bytes-kept bb p h =
      let l = length-append bb.content p in
      let d = length-drop (length (bb.content ++ p) - length bb.content) bb.spare in
      rw (leb-true (length (bb.content ++ p)) (length bb.content + length bb.spare) h)
        (ground arith)

  ensure-kept :
      (bb : ByteBuffer) (n : ℕ) → length bb.content + n ≤ cap bb → ensure limit behind bb n ≡ ok bb
  unfolding ensure
  ensure-kept bb n h = rw (leb-true (length bb.content + n) (cap bb) h) refl

  write-in_place :
      (bb : ByteBuffer) (p : Bytes)
      → length (bb.content ++ p) ≤ cap bb
      → (bb' : ByteBuffer) × (write limit behind bb p ≡ ok bb')
        × (bb'.content ≡ bb.content ++ p)
        × (cap bb' ≡ cap bb)
  unfolding write
  write-in_place bb p l =
      let e : ensure limit behind bb (length p) ≡ ok bb =
        ensure-kept bb (length p) (omega (arith, length-append bb.content p)) in
      (
        set_bytes limit behind bb (bb.content ++ p),
        rw e refl,
        unfold set_bytes in refl,
        set_bytes-kept bb p l,
      )

  -- An append for which there is room stays in the array.
  step-in_place :
      (bb : ByteBuffer) (c : Call)
      → IsAppend c
      → length (act bb.content c) ≤ cap bb
      → (bb' : ByteBuffer) × (step limit behind bb c ≡ ok bb')
        × (bb'.content ≡ act bb.content c)
        × (cap bb' ≡ cap bb)
  step-in_place bb (writes p) h l = write-in_place bb p l
  step-in_place bb (writes_byte c) h l = unfold write_byte write in write-in_place bb (c ∷ []) l
  step-in_place bb (ensures n) h l = absurd h
  step-in_place bb resets h l = absurd h
  step-in_place bb (appends it) h l =
      let e : append_method limit behind bb it
          ≡ set_bytes limit behind bb (bb.content ++ append_item [] it) =
        unfold append_method in ap (set_bytes limit behind bb) (append_item-append bb.content it) in
      (
        append_method limit behind bb it,
        refl,
        ap (λ (t : ByteBuffer). t.content) e ∙ unfold set_bytes in refl,
        ap cap e ∙ set_bytes-kept bb (append_item [] it) l,
      )

  -- Calls that only append, and append no more than the capacity holds, come back whatever `make`
  -- allocates, append their bytes, and keep the capacity.
  pub run-in_place :
      (calls : List Call) (bb : ByteBuffer)
      → All IsAppend calls
      → length (acts bb.content calls) ≤ cap bb
      → (bb' : ByteBuffer) × (run limit behind bb calls ≡ ok bb')
        × (bb'.content ≡ acts bb.content calls)
        × (cap bb' ≡ cap bb)
  run-in_place [] bb h l = (bb, refl, refl, refl)
  run-in_place (c ∷ calls) bb (h, hs) l =
      let longer = length-acts calls (act bb.content c) hs in
      let (bb1, e, same, kept) = step-in_place bb c h (omega arith) in
      let room : length (acts bb1.content calls) ≤ cap bb1 = rw (same, kept) l in
      let (bb2, e2, same2, kept2) = run-in_place calls bb1 hs room in
      (bb2, rw e e2, same2 ∙ ap (λ t. acts t calls) same, kept2 ∙ kept)
