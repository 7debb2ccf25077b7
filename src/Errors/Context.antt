-- ===== src/Errors/Context.antt =====
-- The text of a context: `addCtx` of runtime/errors.go, and the test that there is one.
use Prim.Native.String.{String, [], ◌∷◌, ◌++◌}
use Prim.Native.String.append
use text.Mathlib.TextLemmas.{append_assoc}
use cbor.Base.{Bool, true, false, ◌≡◌, refl, sym, ap, ◌∙◌, if◌then◌else◌}

unfoldable pub is_empty : String → Bool
is_empty [] = true
is_empty (c ∷ s) = false

unfoldable pub add_ctx : String → String → String
unfolding is_empty
add_ctx ctx add = if is_empty ctx then add else (add ++ "/") ++ ctx

is_empty-append : (s t : String) → is_empty s ≡ false → is_empty (s ++ t) ≡ false
unfolding is_empty
is_empty-append [] t h = absurd (cc)
is_empty-append (c ∷ s) t h = λ i. is_empty (append.cons c s t i)

-- A text with a separator in it.
pub is_empty-join : (s t : String) → is_empty ((s ++ "/") ++ t) ≡ false
unfolding is_empty
is_empty-join s t = is_empty-append (s ++ "/") t (separated s)
  where
    separated : (s : String) → is_empty (s ++ "/") ≡ false
    separated [] = refl
    separated (c ∷ s) = is_empty-append (c ∷ s) "/" refl

-- Contexts that are added one after another.
pub add_ctx-add_ctx :
    (ctx add more : String)
    → is_empty add ≡ false
    → add_ctx (add_ctx ctx add) more ≡ add_ctx ctx ((more ++ "/") ++ add)
unfolding add_ctx
add_ctx-add_ctx [] add more h = rw h refl
add_ctx-add_ctx (c ∷ s) add more h = rw (is_empty-join add (c ∷ s)) (
    sym (append_assoc (more ++ "/") (add ++ "/") (c ∷ s))
    ∙ ap (λ l. l ++ (c ∷ s)) (sym (append_assoc (more ++ "/") add "/")))
