-- ===== src/Sequence/Split.antt =====
-- Splitting and joining sequences.
use cbor.Base.{
  ℕ, zero, suc, ◌+◌, ◌-◌, ◌≤◌, ◌≡◌, refl, sym, ap, ◌∙◌, List, [], ◌∷◌, ◌++◌, append_assoc,
  append-nil, Bytes, length, length-append, take-append, All, arith,
}
use mathlib.Core.Path.{subst}
use cbor.Result.{Result, ok, >>=-eq-ok, Returns, Returns-bind}
use cbor.Loops.Rounds.{Items, Items-run, Items-shorter}
use cbor.Skip.{skip, recursion_limit}
use cbor.Skip.Total.{skip_level-Items}
use cbor.Sequence.{
  segment, sequence_loop, for_each_sequence, collect_item, split_sequence, append_sequence,
  append_rounds,
}

pub skip-Items : Items skip
unfolding skip
skip-Items = skip_level-Items (suc recursion_limit)

-- What is left of `p ++ r` after `p`.
pub segment-append : (p r : Bytes) → segment (p ++ r) r ≡ p
unfolding segment
segment-append p r = take-append (length (p ++ r) - length r) p r (omega (arith, length-append p r))

-- Exactly one item.
abbrev pub IsItem : Bytes → Type 0
IsItem it = skip it ≡ ok []

-- The items laid out one after another.
abbrev pub concat : List Bytes → Bytes
concat [] = []
concat (it ∷ items) = it ++ concat items

pub append_sequence-concat :
    (items : List Bytes) (b : Bytes) → append_sequence b items ≡ b ++ concat items
unfolding append_sequence
append_sequence-concat [] b = sym (append-nil b)
append_sequence-concat (it ∷ items) b =
    append_sequence-concat items (b ++ it) ∙ append_assoc b it (concat items)

-- An item in front of anything.
IsItem-cons :
    (it : Bytes)
    → IsItem it
    → (x : ℕ) × (p : Bytes) × (it ≡ x ∷ p) × ((more : Bytes) → skip (x ∷ (p ++ more)) ≡ ok more)
IsItem-cons it h =
    let (x, p, s, m) = Items-run skip-Items it [] h in (x, p, s ∙ ap (λ l. x ∷ l) (append-nil p), m)

-- One round over an item that starts with `x`.
sequence_loop-item :
    (k : ℕ) (out : List Bytes) (x : ℕ) (p more : Bytes)
    → skip (x ∷ (p ++ more)) ≡ ok more
    → sequence_loop collect_item (suc k) out (x ∷ (p ++ more))
      ≡ sequence_loop collect_item k (out ++ (x ∷ p) ∷ []) more
unfolding sequence_loop collect_item
sequence_loop-item k out x p more e =
    rw e (ap (λ l. sequence_loop collect_item k (out ++ l ∷ []) more) (segment-append (x ∷ p) more))

split_loop :
    (items : List Bytes) (k : ℕ) (out : List Bytes)
    → All IsItem items
    → length (concat items) ≤ k
    → sequence_loop collect_item k out (concat items) ≡ ok (out ++ items)
split_loop [] k out h l = unfold sequence_loop in rw (append-nil out)
split_loop (it ∷ items) zero out (hi, hs) l =
    let (x, p, s, m) = IsItem-cons it hi in
    absurd (omega (arith, ap length s, length-append it (concat items)))
split_loop (it ∷ items) (suc k) out (hi, hs) l =
    let (x, p, s, m) = IsItem-cons it hi in
    let shorter : length (concat items) ≤ k =
      omega (arith, ap length s, length-append it (concat items)) in
    ap (λ b. sequence_loop collect_item (suc k) out (b ++ concat items)) s
    ∙ sequence_loop-item k out x p (concat items) (m (concat items))
    ∙ split_loop items k (out ++ (x ∷ p) ∷ []) hs shorter
    ∙ ap ok (append_assoc out ((x ∷ p) ∷ []) items)
    ∙ ap (λ b. ok (out ++ b ∷ items)) (sym s)

-- SplitSequenceBytes gives back the pieces that AppendSequence joined, if each of them is one that
-- Skip reads to its end.
pub split_sequence-append_sequence :
    (items : List Bytes) → All IsItem items → split_sequence (append_sequence [] items) ≡ ok items
unfolding split_sequence for_each_sequence
split_sequence-append_sequence items h =
    ap (λ b. sequence_loop collect_item (length b) [] b) (append_sequence-concat items [])
    ∙ split_loop items (length (concat items)) [] h (omega arith)

-- What a run of the loop collects.
split_loop_inv :
    (k : ℕ) (out : List Bytes) (b : Bytes) (res : List Bytes)
    → sequence_loop collect_item k out b ≡ ok res
    → (items : List Bytes) × (res ≡ out ++ items) × (concat items ≡ b) × All IsItem items
unfolding sequence_loop collect_item
split_loop_inv k out [] res e = ([], cc (append-nil out), refl, tt)
split_loop_inv zero out (x ∷ t) res e = absurd (cc)
split_loop_inv (suc k) out (x ∷ t) res e =
    let (r, es, el) = >>=-eq-ok (skip (x ∷ t)) _ e in
    let (y, p, s, m) = Items-run skip-Items (x ∷ t) r es in
    let seg : segment (x ∷ t) r ≡ y ∷ p = ap (λ b. segment b r) s ∙ segment-append (y ∷ p) r in
    let (items, s₁, s₂, hs) = split_loop_inv k (out ++ segment (x ∷ t) r ∷ []) r res el in
    (
      (y ∷ p) ∷ items,
      s₁ ∙ append_assoc out (segment (x ∷ t) r ∷ []) items ∙ ap (λ b. out ++ b ∷ items) seg,
      ap (λ b. (y ∷ p) ++ b) s₂ ∙ sym s,
      (ap (λ b. skip (y ∷ b)) (sym (append-nil p)) ∙ m [], hs),
    )

-- The pieces that SplitSequenceBytes returns are ones that Skip reads to their end, and joined by
-- AppendSequence they are the input.
pub append_sequence-split_sequence :
    (b : Bytes) (items : List Bytes)
    → split_sequence b ≡ ok items
    → (append_sequence [] items ≡ b) × All IsItem items
unfolding split_sequence for_each_sequence
append_sequence-split_sequence b items e =
    let (items', s, c, h) = split_loop_inv (length b) [] b items e in
    let same : items ≡ items' = s in
    (append_sequence-concat items [] ∙ ap concat same ∙ c, subst (λ l. All IsItem l) (sym same) h)

-- The loop over a sequence comes back, whatever the buffer holds, if the callback does.
sequence_loop-Returns {ℓ} :
    {S : Type ℓ} (f : S → Bytes → Result S)
    → ((s : S) (it : Bytes) → Returns (f s it))
    → (k : ℕ) (s : S) (b : Bytes) → length b ≤ k
    → Returns (sequence_loop f k s b)
unfolding sequence_loop
sequence_loop-Returns f hf k s [] l = tt
sequence_loop-Returns f hf zero s (x ∷ t) l = absurd (omega arith)
sequence_loop-Returns f hf (suc k) s (x ∷ t) l =
    Returns-bind (skip (x ∷ t)) _ (skip-Items.drops.returns (x ∷ t)) λ r e.
      Returns-bind (f s (segment (x ∷ t) r)) _ (hf s (segment (x ∷ t) r)) λ s' e'.
        sequence_loop-Returns f hf k s' r (omega (arith, Items-shorter skip-Items (x ∷ t) r e))

-- ForEachSequenceBytes comes back with a result or an error on every input, if its callback does on
-- every item.
pub for_each_sequence-Returns {ℓ} :
    {S : Type ℓ} (f : S → Bytes → Result S)
    → ((s : S) (it : Bytes) → Returns (f s it))
    → (s : S) (b : Bytes) → Returns (for_each_sequence f s b)
unfolding for_each_sequence
for_each_sequence-Returns f hf s b = sequence_loop-Returns f hf (length b) s b (omega arith)

abbrev items_from : (ℕ → Bytes) → ℕ → ℕ → List Bytes
items_from item i zero = []
items_from item i (suc k) = item i ∷ items_from item (i + 1) k

-- `AppendSequenceFunc` appends what `fn` makes of 0, …, n - 1, if every call of it succeeds.
append_rounds-concat :
    (fn : ℕ → Result Bytes) (item : ℕ → Bytes) (i k : ℕ) (b : Bytes)
    → ((j : ℕ) → fn j ≡ ok (item j))
    → append_rounds fn i k b ≡ ok (append_sequence b (items_from item i k))
unfolding append_rounds append_sequence
append_rounds-concat fn item i zero b h = refl
append_rounds-concat fn item i (suc k) b h =
    rw (h i) (append_rounds-concat fn item (i + 1) k (b ++ item i) h)
