-- ===== src/Sequence.antt =====
-- CBOR sequences of runtime/read_bytes.go: items one after another in a buffer.
use cbor.Base.{ℕ, zero, suc, ◌+◌, ◌-◌, List, [], ◌∷◌, ◌++◌, Bytes, length, take}
use cbor.Result.{Result, ok, stuck, ◌>>=◌}
use cbor.Skip.{skip}
pub mod Split

-- `p[:len(p)-len(r)]`: the bytes that were read where `r` is left of `p`.
unfoldable pub segment : Bytes → Bytes → Bytes
segment p r = take (length p - length r) p

-- `ForEachSequenceBytes`; the callback acts on a state. A round takes a byte at least, so the
-- length of the buffer is fuel enough.
module _ {ℓ} {S : Type ℓ} (on_item : S → Bytes → Result S) where
  sequence_loop : ℕ → S → Bytes → Result S
  sequence_loop k s [] = ok s
  sequence_loop zero s (x ∷ t) = stuck
  sequence_loop (suc k) s (x ∷ t) =
      skip (x ∷ t) >>= λ r. on_item s (segment (x ∷ t) r) >>= λ s'. sequence_loop k s' r

  unfoldable pub for_each_sequence : S → Bytes → Result S
  unfolding sequence_loop
  for_each_sequence s b = sequence_loop (length b) s b

-- `func(it []byte) error { out = append(out, it); return nil }`
collect_item : List Bytes → Bytes → Result (List Bytes)
collect_item out it = ok (out ++ it ∷ [])

unfoldable pub split_sequence : Bytes → Result (List Bytes)
unfolding collect_item
split_sequence b = for_each_sequence collect_item [] b

unfoldable pub append_sequence : Bytes → List Bytes → Bytes
append_sequence b [] = b
append_sequence b (it ∷ items) = append_sequence (b ++ it) items

-- `for i := 0; i < n; i++`, from `i` on with `k` rounds left.
append_rounds : (ℕ → Result Bytes) → ℕ → ℕ → Bytes → Result Bytes
append_rounds fn i zero b = ok b
append_rounds fn i (suc k) b = fn i >>= λ it. append_rounds fn (i + 1) k (b ++ it)

unfoldable pub append_sequence_func : Bytes → ℕ → (ℕ → Result Bytes) → Result Bytes
unfolding append_rounds
append_sequence_func b n fn = append_rounds fn 0 n b
