-- ===== src/Deterministic/Lens.antt =====
-- The lengths of the keys, in ascending order.
use cbor.Base.{ℕ, ◌<◌, inl, inr, refl, List, [], ◌∷◌, Bool-cases, ltb, ◌==◌, arith, All}
use cbor.Deterministic.{insert_length, sorted_lens}
use cbor.Deterministic.Buckets.{In, Above, IsAscending}
use cbor.Deterministic.Sorted.{All-imp}

insert_length-Above : (m l : ℕ) (ls : List ℕ) → m < l → Above m ls → Above m (insert_length l ls)
unfolding insert_length
insert_length-Above m l [] h a = (h, tt)
insert_length-Above m l (x ∷ ls) h (b, a) =
    let more = insert_length-Above m l ls h a in
    elim (Bool-cases (ltb l x)) [
      | inl less ↦ rw less (h, (b, a))
      | inr ge ↦ elim (Bool-cases (l == x)) [
        | inl same ↦ rw (ge, same) (b, a)
        | inr above ↦ rw (ge, above) (b, more)
      ]
    ]

pub Above-lower : (m l : ℕ) (ls : List ℕ) → m < l → Above l ls → Above m ls
Above-lower m l [] h a = tt
Above-lower m l (x ∷ ls) h (b, a) = (omega arith, Above-lower m l ls h a)

insert_length-IsAscending :
    (l : ℕ) (ls : List ℕ) → IsAscending ls → IsAscending (insert_length l ls)
unfolding insert_length
insert_length-IsAscending l [] a = (tt, tt)
insert_length-IsAscending l (x ∷ ls) (b, a) =
    let more = insert_length-IsAscending l ls a in
    elim (Bool-cases (ltb l x)) [
      | inl less ↦ let h : l < x = ground arith in rw less ((h, Above-lower l x ls h b), (b, a))
      | inr ge ↦ elim (Bool-cases (l == x)) [
        | inl same ↦ rw (ge, same) (b, a)
        | inr above ↦ rw (ge, above) (insert_length-Above x l ls (ground arith) b, more)
      ]
    ]

insert_length-In : (l : ℕ) (ls : List ℕ) → In l (insert_length l ls)
unfolding insert_length
insert_length-In l [] = inl refl
insert_length-In l (x ∷ ls) =
    let more = insert_length-In l ls in
    elim (Bool-cases (ltb l x)) [
      | inl less ↦ rw less (inl refl)
      | inr ge ↦ elim (Bool-cases (l == x)) [
        | inl same ↦ rw (ge, same) (inl (ground arith))
        | inr above ↦ rw (ge, above) (inr more)
      ]
    ]

insert_length-keeps : (m l : ℕ) (ls : List ℕ) → In m ls → In m (insert_length l ls)
unfolding insert_length
insert_length-keeps m l [] i = absurd i
insert_length-keeps m l (x ∷ ls) (inl e) = elim (Bool-cases (ltb l x)) [
  | inl less ↦ rw less (inr (inl e))
  | inr ge ↦ elim (Bool-cases (l == x)) [
    | inl same ↦ rw (ge, same) (inl e)
    | inr above ↦ rw (ge, above) (inl e)
  ]
]
insert_length-keeps m l (x ∷ ls) (inr i) =
    let more = insert_length-keeps m l ls i in
    elim (Bool-cases (ltb l x)) [
      | inl less ↦ rw less (inr (inr i))
      | inr ge ↦ elim (Bool-cases (l == x)) [
        | inl same ↦ rw (ge, same) (inr i)
        | inr above ↦ rw (ge, above) (inr more)
      ]
    ]

module _ (f : ℕ → ℕ) where
  pub sorted_lens-IsAscending : (is : List ℕ) → IsAscending (sorted_lens f is)
  unfolding sorted_lens
  sorted_lens-IsAscending [] = tt
  sorted_lens-IsAscending (i ∷ is) =
      insert_length-IsAscending (f i) (sorted_lens f is) (sorted_lens-IsAscending is)

  pub sorted_lens-In : (is : List ℕ) → All (λ i. In (f i) (sorted_lens f is)) is
  unfolding sorted_lens
  sorted_lens-In [] = tt
  sorted_lens-In (i ∷ is) = (
    insert_length-In (f i) (sorted_lens f is),
    All-imp (λ j. In (f j) (sorted_lens f is))
        (λ j. In (f j) (insert_length (f i) (sorted_lens f is))) is
        (λ j h. insert_length-keeps (f j) (f i) (sorted_lens f is) h) (sorted_lens-In is),
  )
