-- ===== src/Path/Lexical.antt =====
-- Which paths the lexical normalisation accepts, and what it returns for them.
use crust_core.Prelude.{ℕ, zero, suc, ◌≡◌, ◌↔◌, ◌⊎◌, inl, inr, List, [], ◌∷◌, ◌++◌, length, arith}
use crust_core.Prelude.Text.{Text}
use crust_core.Path.{Component, PathError, normalize}

-- The depth below the root never falls under zero, and no component is absolute.
abbrev pub StaysInside : ℕ → List Component → Type 0
StaysInside d [] = Unit
StaysInside d (Component.prefix ∷ cs) = ⊥
StaysInside d (Component.root_dir ∷ cs) = ⊥
StaysInside d (Component.cur_dir ∷ cs) = StaysInside d cs
StaysInside zero (Component.parent_dir ∷ cs) = ⊥
StaysInside (suc d) (Component.parent_dir ∷ cs) = StaysInside d cs
StaysInside d (Component.normal c ∷ cs) = StaysInside (suc d) cs

abbrev pub IsAccepted : List Text ⊎ PathError → Type 0
IsAccepted (inl out) = Unit
IsAccepted (inr e) = ⊥

normalize-StaysInside :
    (cs : List Component) (out : List Text)
    → IsAccepted (normalize cs out) ↔ StaysInside (length out) cs
unfolding normalize
normalize-StaysInside [] out = (λ h. tt, λ h. tt)
normalize-StaysInside (Component.prefix ∷ cs) out = (λ h. h, λ h. h)
normalize-StaysInside (Component.root_dir ∷ cs) out = (λ h. h, λ h. h)
normalize-StaysInside (Component.cur_dir ∷ cs) out = normalize-StaysInside cs out
normalize-StaysInside (Component.parent_dir ∷ cs) [] = (λ h. h, λ h. h)
normalize-StaysInside (Component.parent_dir ∷ cs) (x ∷ out) = normalize-StaysInside cs out
normalize-StaysInside (Component.normal c ∷ cs) out = normalize-StaysInside cs (c ∷ out)

-- What a kernel without symbolic links does with the components from a directory: `..` at the top
-- stays there.
unfoldable pub resolve : List Component → List Text → List Text
resolve [] dir = dir
resolve (Component.prefix ∷ cs) dir = resolve cs []
resolve (Component.root_dir ∷ cs) dir = resolve cs []
resolve (Component.cur_dir ∷ cs) dir = resolve cs dir
resolve (Component.parent_dir ∷ cs) [] = resolve cs []
resolve (Component.parent_dir ∷ cs) (x ∷ dir) = resolve cs dir
resolve (Component.normal c ∷ cs) dir = resolve cs (c ∷ dir)

-- If the normalisation of components, begun with some names, accepts them and returns a path, then
-- the components, resolved below any root from those names, lead to that path below that root.
pub resolve-normalize :
    (cs : List Component) (names out root : List Text)
    → normalize cs names ≡ inl out
    → resolve cs (names ++ root) ≡ out ++ root
unfolding normalize resolve
resolve-normalize [] names out root e = ground arith
resolve-normalize (Component.prefix ∷ cs) names out root e = ground arith
resolve-normalize (Component.root_dir ∷ cs) names out root e = ground arith
resolve-normalize (Component.cur_dir ∷ cs) names out root e = resolve-normalize cs names out root e
resolve-normalize (Component.parent_dir ∷ cs) [] out root e = ground arith
resolve-normalize (Component.parent_dir ∷ cs) (x ∷ names) out root e =
    resolve-normalize cs names out root e
resolve-normalize (Component.normal c ∷ cs) names out root e =
    resolve-normalize cs (c ∷ names) out root e

-- The normalisation of components, begun with no names, accepts them exactly when none is
-- absolute and no `..` leads above the start.
pub normalize_iff : (cs : List Component) → IsAccepted (normalize cs []) ↔ StaysInside 0 cs
normalize_iff cs = normalize-StaysInside cs []
