-- ===== src/Buffer/Stream.antt =====
-- `ByteBuffer.ReadFrom`. What the calls of `r.Read` answer, one after another, is a list: the bytes
-- put into the free part of the buffer, and the error.
use mathlib.Core.Path.{subst}
use cbor.Base.{
  ℕ, ◌+◌, ◌*◌, ◌^◌, ◌≤◌, ◌≡◌, refl, sym, ap, ◌∙◌, List, [], ◌∷◌, ◌++◌, append_assoc, append-nil,
  ltb, if◌then◌else◌, arith, Bytes, length, length-append, drop, Option, none, some, Bool-cases,
  inl, inr, ltb-false,
}
use cbor.Result.{Result, ok, panic, stuck, Error, ◌>>=◌}
use cbor.Buffer.{ByteBuffer, ensure}
use cbor.Buffer.Calls.{ensure-Ensured}

-- nil, io.EOF, or another error.
pub data ReadEnd : Type 0 where
  more eof : ReadEnd
  failed : Error → ReadEnd

abbrev pub chunk : ℕ
chunk = 32 * 1024

abbrev pub Outcome : Type 0
Outcome = Result (ByteBuffer × ℕ × Option Error)

-- What is done with the error.
at_end : ReadEnd → ByteBuffer → ℕ → Outcome → Outcome
at_end more bb total next = next
at_end eof bb total next = ok (bb, total, none)
at_end (failed e) bb total next = ok (bb, total, some e)

-- `bb.b = bb.b[:len(bb.b)+n]` behind a call that put `p` there.
advanced : ByteBuffer → Bytes → Result ByteBuffer
advanced bb p =
    if ltb (length bb.spare) (length p)
    then panic
    else ok (record { content = bb.content ++ p; spare = drop (length p) bb.spare })

abbrev pub joined : List Bytes → Bytes
joined [] = []
joined (p ∷ ps) = p ++ joined ps

-- Calls without an error, and a last one.
abbrev pub answers : List Bytes → Bytes → ReadEnd → List (Bytes × ReadEnd)
answers [] q e = (q, e) ∷ []
answers (p ∷ ps) q e = (p, more) ∷ answers ps q e

-- The error with which ReadFrom comes back: none at the end of the stream.
abbrev pub reported : ReadEnd → Option Error
reported more = none
reported eof = none
reported (failed e) = some e

abbrev pub Ends : ReadEnd → Type 0
Ends more = ⊥
Ends eof = Unit {0}
Ends (failed e) = Unit {0}

module _ (limit : ℕ) (behind : ByteBuffer → Bytes → Bytes) where
  unfoldable pub with_room : ByteBuffer → Result ByteBuffer
  with_room bb = if ltb (length bb.spare) chunk then ensure limit behind bb chunk else ok bb

  unfoldable pub read_from : ByteBuffer → ℕ → List (Bytes × ReadEnd) → Outcome
  unfolding with_room advanced at_end
  read_from bb total [] = stuck
  read_from bb total ((p, e) ∷ calls) = with_room bb >>= λ bb1. advanced bb1 p >>= λ bb2.
      at_end e bb2 (total + length p) (read_from bb2 (total + length p) calls)

  room-made :
      (bb : ByteBuffer)
      → length bb.content + chunk ≤ 2 ^ 62
      → 1024 ≤ limit
      → 2 * (length bb.content + chunk) ≤ limit
      → (bb' : ByteBuffer) × (with_room bb ≡ ok bb')
        × (bb'.content ≡ bb.content)
        × (chunk ≤ length bb'.spare)
  unfolding with_room
  room-made bb m l l2 = elim (Bool-cases (ltb (length bb.spare) chunk)) [
    | inl low ↦
        let (bb1, e, (same, room, above)) = ensure-Ensured limit behind bb chunk m l l2 in
        rw low (bb1, e, same, room)
    | inr enough ↦ rw enough (bb, refl, refl, ground arith)
  ]

  -- The bytes of a call fit the free part that the call is offered, and so do those of the later
  -- calls: `next` is about the buffer behind it.
  abbrev pub Offered : Result ByteBuffer → Bytes → (ByteBuffer → Type 0) → Type 0
  Offered (ok bb1) p next =
      (length p ≤ length bb1.spare)
      × next (record { content = bb1.content ++ p; spare = drop (length p) bb1.spare })
  Offered m p next = Unit {0}

  -- What io.Reader promises of all calls: `Read` brings no more bytes than its argument is long.
  abbrev pub IsReader : ByteBuffer → List Bytes → Bytes → Type 0
  IsReader bb [] q = Offered (with_room bb) q (λ bb'. Unit {0})
  IsReader bb (p ∷ ps) q = Offered (with_room bb) p (λ bb'. IsReader bb' ps q)

  -- There is room for 32 KiB in every call.
  pub room-Offered :
      (bb : ByteBuffer) (p : Bytes) (Later : ByteBuffer → Type 0)
      → length p ≤ chunk
      → length bb.content + chunk ≤ 2 ^ 62
      → 1024 ≤ limit
      → 2 * (length bb.content + chunk) ≤ limit
      → ((bb' : ByteBuffer) → bb'.content ≡ bb.content ++ p → Later bb')
      → Offered (with_room bb) p Later
  room-Offered bb p Later h m l l2 later =
      let (bb1, e, same, room) = room-made bb m l l2 in
      subst (λ r. Offered r p Later) (sym e) (omega arith, later _ (ap (λ t. t ++ p) same))

  -- One round: room is made, and the bytes are taken.
  round :
      (bb : ByteBuffer) (p : Bytes) (next : ByteBuffer → Outcome) (Later : ByteBuffer → Type 0)
      → Offered (with_room bb) p Later
      → length bb.content + chunk ≤ 2 ^ 62
      → 1024 ≤ limit
      → 2 * (length bb.content + chunk) ≤ limit
      → (bb' : ByteBuffer) × ((with_room bb >>= λ bb1. advanced bb1 p >>= λ bb2. next bb2)
          ≡ next bb')
        × (bb'.content ≡ bb.content ++ p)
        × Later bb'
  unfolding advanced
  round bb p next Later h m l l2 =
      let (bb1, e, same, room) = room-made bb m l l2 in
      let (fits, later) : Offered (ok bb1) p Later = subst (λ r. Offered r p Later) e h in
      (
        record { content = bb1.content ++ p; spare = drop (length p) bb1.spare },
        rw (e, ltb-false (length bb1.spare) (length p) fits) refl,
        ap (λ t. t ++ p) same,
        later,
      )

  -- If each call of Read brings no more bytes than the free part of the buffer that it is offered,
  -- as io.Reader promises, and some call ends the stream or fails, then ReadFrom comes back with
  -- the bytes of all calls up to that one appended, counts them, and reports the error but for the
  -- end of the stream. All these bytes with the contents from before and 32 KiB are at most 2^62,
  -- and at most half of what `make` allocates, which is 1024 at least.
  pub read_from-joined :
      (ps : List Bytes) (q : Bytes) (e : ReadEnd) (bb : ByteBuffer) (total : ℕ)
      → Ends e
      → IsReader bb ps q
      → 1024 ≤ limit
      → length (bb.content ++ joined ps ++ q) + chunk ≤ 2 ^ 62
      → 2 * (length (bb.content ++ joined ps ++ q) + chunk) ≤ limit
      → (bb' : ByteBuffer) × (read_from bb total (answers ps q e)
          ≡ ok (bb', total + length (joined ps ++ q), reported e))
        × (bb'.content ≡ bb.content ++ joined ps ++ q)
  unfolding read_from at_end
  read_from-joined [] q e bb total h hs l m l2 =
      let z : length (bb.content ++ [] ++ q) ≡ length bb.content + length q =
        ap (λ t. length (t ++ q)) (append-nil bb.content) ∙ length-append bb.content q in
      let (bb2, f, same, done) =
        round bb q (λ b. at_end e b (total + length q) stuck) (λ b. Unit {0}) hs (omega arith) l
          (omega arith) in
      (bb2, f ∙ last e h bb2, same ∙ ap (λ t. t ++ q) (sym (append-nil bb.content)))
    where
      last :
          (e : ReadEnd)
          → Ends e
          → (b : ByteBuffer)
          → at_end e b (total + length q) stuck ≡ ok (b, total + length q, reported e)
      last more h b = absurd h
      last eof h b = refl
      last (failed z) h b = refl
  read_from-joined (p ∷ ps) q e bb total h hs l m l2 =
      let z : (t : Bytes)
          → t ≡ bb.content ++ p
          → t ++ joined ps ++ q ≡ bb.content ++ joined (p ∷ ps) ++ q =
        λ t u.
          ap (λ x. x ++ joined ps ++ q) u
          ∙ ap (λ x. x ++ q) (append_assoc bb.content p (joined ps)) in
      let size : length (bb.content ++ joined (p ∷ ps) ++ q)
          ≡ length bb.content + length p + length (joined ps) + length q =
        omega (
          arith,
          length-append (bb.content ++ (p ++ joined ps)) q,
          length-append bb.content (p ++ joined ps),
          length-append p (joined ps),
        ) in
      let count : total + length p + length (joined ps ++ q)
          ≡ total + length (joined (p ∷ ps) ++ q) =
        omega (
          arith,
          length-append (joined ps) q,
          length-append (p ++ joined ps) q,
          length-append p (joined ps),
        ) in
      let (bb2, f, same, later) =
        round bb p (λ b. read_from b (total + length p) (answers ps q e)) (λ b. IsReader b ps q) hs
          (omega arith) l (omega arith) in
      let again = ap length (z bb2.content same) in
      let (bb3, g, kept) =
        read_from-joined ps q e bb2 (total + length p) h later l (omega arith) (omega arith) in
      (bb3, f ∙ g ∙ ap (λ n. ok (bb3, n, reported e)) count, kept ∙ z bb2.content same)
