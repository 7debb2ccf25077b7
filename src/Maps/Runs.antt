-- ===== src/Maps/Runs.antt =====
-- `ReadMapNoDupBytes` accepts a map exactly when the keys that `ReadOrderedMapBytes` finds in it
-- are distinct.
use cbor.Base.{
  ℕ, zero, suc, ◌≡◌, ap, ◌∙◌, ◌↔◌, inl, inr, List, [], ◌∷◌, ◌++◌, append-nil, Bool, Bytes, ◌==◌,
  ◌!=◌, if◌then◌else◌, Bool-cases, length,
}
use cbor.Result.{Error, bad_prefix, Result, ok, err, panic, stuck, ◌>>=◌, >>=-eq-ok}
use cbor.Wire.{make_byte, get_major_type, get_add_info}
use cbor.Headers.{read_map_header}
use cbor.Loops.{times_with, until_break_with}
use cbor.Maps.{
  RawPair, read_entries, no_dup_entry, read_map_no_dup, ordered_entry, read_ordered_map,
}
use cbor.Maps.Distinct.{Fresh, Distinct, Fresh-iff}
use cbor.Maps.Rounds.{NoDupLoop, OrderedLoop, Seen, Found, Seen-stop, Seen-next, Found-next}
use mathlib.Core.Path.{subst}

-- Both loops of the source.
times-Seen : (n : ℕ) → Seen (times_with no_dup_entry n) (times_with ordered_entry n)
unfolding times_with
times-Seen zero = record {
  run = λ seen p s' r pairs e. Seen-stop seen p r pairs (times_with ordered_entry zero) (cc);
}
times-Seen (suc n) = record { run = Seen-next _ _ (times-Seen n) }

times-Found : (n : ℕ) → Found (times_with no_dup_entry n) (times_with ordered_entry n)
unfolding times_with
times-Found zero = record {
  run = λ seen p pairs res r e. ([], cc (append-nil pairs), λ _. (seen, cc));
}
times-Found (suc n) = record { run = Found-next _ _ (times-Found n) }

until_break-Seen :
    (k : ℕ) → Seen (until_break_with no_dup_entry k) (until_break_with ordered_entry k)
unfolding until_break_with
until_break-Seen zero = record { run = λ seen p s' r pairs e. absurd (cc) }
until_break-Seen (suc k) = record {
  run = λ seen. elim [
    | [] ↦ λ s' r pairs e. absurd (cc)
    | x ∷ t ↦ λ s' r pairs e. elim (Bool-cases (x == make_byte 7 31)) [
      | inl b ↦
          let e' : ◌≡◌ {A = Result (List Bytes × Bytes)} (ok (seen, t)) (ok (s', r)) = rw b at e in
          ([], tt, rw b (cc (append-nil pairs)))
      | inr b ↦ rw b (Seen-next _ _ (until_break-Seen k) seen (x ∷ t) s' r pairs (rw b at e))
    ]
  ];
}

until_break-Found :
    (k : ℕ) → Found (until_break_with no_dup_entry k) (until_break_with ordered_entry k)
unfolding until_break_with
until_break-Found zero = record { run = λ seen p pairs res r e. absurd (cc) }
until_break-Found (suc k) = record {
  run = λ seen. elim [
    | [] ↦ λ pairs res r e. absurd (cc)
    | x ∷ t ↦ λ pairs res r e. elim (Bool-cases (x == make_byte 7 31)) [
      | inl b ↦
          let e' : ◌≡◌ {A = Result (List RawPair × Bytes)} (ok (pairs, t)) (ok (res, r)) =
            rw b at e in
          ([], cc (append-nil pairs), λ _. (seen, rw b (cc)))
      | inr b ↦ rw b (Found-next _ _ (until_break-Found k) seen (x ∷ t) pairs res r (rw b at e))
    ]
  ];
}

-- The switch in front of the loops.
module _ {f f' : NoDupLoop} {g g' : OrderedLoop} (c : Bool) where
  Seen-if :
      Seen f g
      → Seen f' g'
      → Seen (λ s t. if c then f s t else f' s t) (λ s t. if c then g s t else g' s t)
  Seen-if h h' = record {
    run = λ seen p s' r pairs e. elim (Bool-cases c) [
      | inl b ↦ rw b (h.run seen p s' r pairs (rw b at e))
      | inr b ↦ rw b (h'.run seen p s' r pairs (rw b at e))
    ];
  }

  Found-if :
      Found f g
      → Found f' g'
      → Found (λ s t. if c then f s t else f' s t) (λ s t. if c then g s t else g' s t)
  Found-if h h' = record {
    run = λ seen p pairs res r e. elim (Bool-cases c) [
      | inl b ↦ rw b (h.run seen p pairs res r (rw b at e))
      | inr b ↦ rw b (h'.run seen p pairs res r (rw b at e))
    ];
  }

Seen-err : (z : Error) → Seen (λ s t. err z) (λ s t. err z)
Seen-err z = record { run = λ seen p s' r pairs e. absurd (cc) }

Found-err : (z : Error) → Found (λ s t. err z) (λ s t. err z)
Found-err z = record { run = λ seen p pairs res r e. absurd (cc) }

module _ (m : Bytes → Result (ℕ × Bytes)) (f : ℕ → NoDupLoop) (g : ℕ → OrderedLoop) where
  Seen-after :
      ((n : ℕ) → Seen (f n) (g n))
      → Seen (λ s t. m t >>= λ (n, o). f n s o) (λ s t. m t >>= λ (n, o). g n s o)
  Seen-after h = record { run = λ seen p s' r pairs e. go seen s' r pairs (m p) e }
    where
      go :
          (seen s' : List Bytes) (r : Bytes) (pairs : List RawPair) (x : Result (ℕ × Bytes))
          → (x >>= λ (n, o). f n seen o) ≡ ok (s', r)
          → (new : List RawPair) × Fresh seen new
            × ((x >>= λ (n, o). g n pairs o) ≡ ok (pairs ++ new, r))
      go seen s' r pairs (ok (n, o)) e = (h n).run seen o s' r pairs e
      go seen s' r pairs (err z) e = absurd (cc)
      go seen s' r pairs panic e = absurd (cc)
      go seen s' r pairs stuck e = absurd (cc)

  Found-after :
      ((n : ℕ) → Found (f n) (g n))
      → Found (λ s t. m t >>= λ (n, o). f n s o) (λ s t. m t >>= λ (n, o). g n s o)
  Found-after h = record { run = λ seen p pairs res r e. go seen pairs res r (m p) e }
    where
      go :
          (seen : List Bytes) (pairs res : List RawPair) (r : Bytes) (x : Result (ℕ × Bytes))
          → (x >>= λ (n, o). g n pairs o) ≡ ok (res, r)
          → (new : List RawPair) × (res ≡ pairs ++ new)
            × (Fresh seen new → (s' : List Bytes) × ((x >>= λ (n, o). f n seen o) ≡ ok (s', r)))
      go seen pairs res r (ok (n, o)) e = (h n).run seen o pairs res r e
      go seen pairs res r (err z) e = absurd (cc)
      go seen pairs res r panic e = absurd (cc)
      go seen pairs res r stuck e = absurd (cc)

entries-Seen :
    (lead : ℕ)
    → Seen (λ s t. read_entries no_dup_entry s lead t) (λ s t. read_entries ordered_entry s lead t)
unfolding read_entries
entries-Seen lead =
    Seen-if (get_major_type lead != 5) (Seen-err (bad_prefix 5 (get_major_type lead))) (
      Seen-if (get_add_info lead == 31)
        (record { run = λ seen t. (until_break-Seen (suc (length t))).run seen t })
        (Seen-after (λ t. read_map_header (lead ∷ t)) (times_with no_dup_entry)
          (times_with ordered_entry) times-Seen))

entries-Found :
    (lead : ℕ)
    → Found (λ s t. read_entries no_dup_entry s lead t) (λ s t. read_entries ordered_entry s lead t)
unfolding read_entries
entries-Found lead =
    Found-if (get_major_type lead != 5) (Found-err (bad_prefix 5 (get_major_type lead))) (
      Found-if (get_add_info lead == 31)
        (record { run = λ seen t. (until_break-Found (suc (length t))).run seen t })
        (Found-after (λ t. read_map_header (lead ∷ t)) (times_with no_dup_entry)
          (times_with ordered_entry) times-Found))

-- ReadMapNoDupBytes accepts a map, leaving `r`, exactly when ReadOrderedMapBytes reads pairs from
-- it, leaving `r`, whose raw keys are distinct.
pub read_map_no_dup_iff :
    (b r : Bytes)
    → (read_map_no_dup b ≡ ok r)
      ↔ ((pairs : List RawPair) × (read_ordered_map b ≡ ok (pairs, r)) × Distinct pairs)
unfolding read_map_no_dup read_ordered_map
read_map_no_dup_iff [] r = (λ e. absurd (cc), λ (pairs, e, d). absurd (cc))
read_map_no_dup_iff (lead ∷ t) r = (
  λ e. accepted (>>=-eq-ok (read_entries no_dup_entry [] lead t) _ e),
  λ (pairs, e, d). found pairs d ((entries-Found lead).run [] t [] pairs r e),
)
  where
    accepted :
        (a : List Bytes × Bytes) × (read_entries no_dup_entry [] lead t ≡ ok a)
          × (◌≡◌ {A = Result Bytes} (ok (a.1)) (ok r))
        → (pairs : List RawPair) × (read_entries ordered_entry [] lead t ≡ ok (pairs, r))
          × Distinct pairs
    accepted ((s, o), e₁, e₂) =
        let (pairs, fr, e) = (entries-Seen lead).run [] t s o [] e₁ in
        (pairs, e ∙ ap (λ l. ok (pairs, l)) (cc), (Fresh-iff pairs).0 fr)

    found :
        (pairs : List RawPair)
        → Distinct pairs
        → (new : List RawPair) × (pairs ≡ new)
          × (Fresh [] new → (s : List Bytes) × (read_entries no_dup_entry [] lead t ≡ ok (s, r)))
        → (read_entries no_dup_entry [] lead t >>= λ (_, o). ok o) ≡ ok r
    found pairs d (new, same, again) =
        let (s, e) = again ((Fresh-iff new).1 (subst Distinct same d)) in rw e
