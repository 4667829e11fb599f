-- ===== src/Path/Confined.antt =====
-- What a confined path guarantees about the file system that it was resolved in.
use Prim.Native.String.{String}
use mathlib.Core.Sum.{inl-injective}
use crust_core.Prelude.{
  ◌≡◌, ◌≢◌, refl, sym, subst, ap, ◌∙◌, ◌⊎◌, inl, inr, Bool-cases, Bool, true, false, List, [], ◌∷◌,
  ◌++◌, arith,
}
use crust_core.Prelude.Text.{Text, text_eq_sound}
use crust_core.Path.{
  PathError, IoError, not_found, other, FileSystem, has_nul, normalize, is_link_leaf, same_names,
  is_under, deepest_or, under_or, normalize_relative, deepest_existing_canonical, assert_under_root,
  read_from, read_relative, confine_read, write_from, write_relative, confine_write,
}

same_names-≡ : (p q : List Text) → same_names p q ≡ true → p ≡ q
unfolding same_names
same_names-≡ [] [] e = refl
same_names-≡ [] (b ∷ q) e = ground arith
same_names-≡ (a ∷ p) [] e = ground arith
same_names-≡ (a ∷ p) (b ∷ q) e = grind (arith, text_eq_sound a b, same_names-≡ p q)

-- `p` is `root` or lies below it.
abbrev pub IsBelow : List Text → List Text → Type 0
IsBelow root p = (names : List Text) × (p ≡ names ++ root)

is_under-IsBelow : (root p : List Text) → is_under root p ≡ true → IsBelow root p
unfolding is_under
is_under-IsBelow root [] e = ([], sym (same_names-≡ root [] e))
is_under-IsBelow root (a ∷ p) e = elim (Bool-cases (same_names root (a ∷ p))) [
  | inl s ↦ ([], sym (same_names-≡ root (a ∷ p) s))
  | inr s ↦ let r = is_under-IsBelow root p (rw s at e) in (a ∷ r.0, ap (λ x. a ∷ x) r.1)
]

module _ (fs : FileSystem) where
  -- The nearest ancestor of the path that exists has this canonical path.
  pub data Reaches : List Text → List Text → Type 0 where
    here : {p c : List Text} → fs.canonicalize p ≡ inl c → Reaches p c
    up :
        {a : Text} {p c : List Text} (why : String)
        → fs.canonicalize (a ∷ p) ≡ inr (not_found why)
        → Reaches p c
        → Reaches (a ∷ p) c

  deepest_or-Reaches :
      (p c : List Text) (x : List Text ⊎ IoError) (rest : List Text ⊎ PathError)
      → fs.canonicalize p ≡ x
      → ((why : String) → fs.canonicalize p ≡ inr (not_found why) → rest ≡ inl c → Reaches p c)
      → deepest_or x rest ≡ inl c
      → Reaches p c
  deepest_or-Reaches p c (inl d) rest q climb e = here (grind arith)
  deepest_or-Reaches p c (inr (not_found why)) rest q climb e = climb why q e
  deepest_or-Reaches p c (inr (other why)) rest q climb e = ground arith

  deepest-Reaches : (p c : List Text) → deepest_existing_canonical fs p ≡ inl c → Reaches p c
  unfolding deepest_existing_canonical
  deepest-Reaches [] c e =
      deepest_or-Reaches [] c (fs.canonicalize []) (inr (PathError.io "no existing ancestor")) refl
        (λ why q h. ground arith) e
  deepest-Reaches (a ∷ p) c e =
      deepest_or-Reaches (a ∷ p) c (fs.canonicalize (a ∷ p)) (deepest_existing_canonical fs p) refl
        (λ why q h. up why q (deepest-Reaches p c h)) e

  -- The nearest existing ancestor of the path lies, with every link resolved, below the root.
  pub record IsInside (root p : List Text) : Type 0 where
    pub canon : List Text
    pub reached : Reaches p canon
    pub below : IsBelow root canon

  under_or-IsInside :
      (root p relative out : List Text) (x : List Text ⊎ PathError)
      → deepest_existing_canonical fs p ≡ x
      → under_or root x relative ≡ inl out
      → IsInside root p × (relative ≡ out)
  under_or-IsInside root p relative out (inl c) d e = elim (Bool-cases (is_under root c)) [
    | inl u ↦ (
      record { canon = c; reached = deepest-Reaches p c d; below = is_under-IsBelow root c u },
      inl-injective _ _ (rw u at e),
    )
    | inr u ↦ ground arith
  ]
  under_or-IsInside root p relative out (inr x) d e = ground arith

  assert-IsInside :
      (root p relative out : List Text)
      → assert_under_root fs root p relative ≡ inl out
      → IsInside root p × (relative ≡ out)
  unfolding assert_under_root
  assert-IsInside root p relative out e =
      under_or-IsInside root p relative out (deepest_existing_canonical fs p) refl e

  -- What a read is granted on: the string has no NUL and normalises to the path, and the path's
  -- nearest existing ancestor below the canonical root lies inside it.
  pub record IsReadable (root : List Text) (rel : Text) (relative : List Text) : Type 0 where
    pub no_nul : has_nul rel ≡ false
    pub normal : normalize (fs.components rel) [] ≡ inl relative
    pub base : List Text
    pub opened : fs.canonicalize root ≡ inl base
    pub inside : IsInside base (relative ++ base)

  normalize_relative-normal :
      (rel : Text) (relative : List Text)
      → normalize_relative fs rel ≡ inl relative
      → (has_nul rel ≡ false) × (normalize (fs.components rel) [] ≡ inl relative)
  unfolding normalize_relative
  normalize_relative-normal rel relative e = elim (Bool-cases (has_nul rel)) [
    | inl u ↦ ground arith
    | inr u ↦ (u, rw u at e)
  ]

  read_from-IsReadable :
      (root : List Text) (rel : Text) (relative out : List Text) (x : List Text ⊎ IoError)
      → fs.canonicalize root ≡ x
      → normalize_relative fs rel ≡ inl relative
      → read_from fs x relative ≡ inl out
      → IsReadable root rel out
  unfolding read_from
  read_from-IsReadable root rel relative out (inl base) q n e =
      let r = assert-IsInside base (relative ++ base) relative out e in
      let s = normalize_relative-normal rel out (n ∙ ap inl r.1) in
      record {
        no_nul = s.0;
        normal = s.1;
        base = base;
        opened = q;
        inside = subst (λ z. IsInside base (z ++ base)) r.1 r.0;
      }
  read_from-IsReadable root rel relative out (inr w) q n e = ground arith

  read_relative-IsReadable :
      (root : List Text) (rel : Text) (out : List Text) (x : List Text ⊎ PathError)
      → normalize_relative fs rel ≡ x
      → read_relative fs root x ≡ inl out
      → IsReadable root rel out
  unfolding read_relative
  read_relative-IsReadable root rel out (inl relative) n e =
      read_from-IsReadable root rel relative out (fs.canonicalize root) refl n e
  read_relative-IsReadable root rel out (inr w) n e = ground arith

  -- A path that is confined for reading comes from a string without NUL, of which it is the lexical
  -- normal form, and the nearest ancestor of the target that exists lies, with every symbolic link
  -- resolved, at the canonical root or below it.
  pub confine_read-IsReadable :
      (root : List Text) (rel : Text) (out : List Text)
      → confine_read fs root rel ≡ inl out
      → IsReadable root rel out
  unfolding confine_read
  confine_read-IsReadable root rel out e =
      read_relative-IsReadable root rel out (normalize_relative fs rel) refl e

  not_link : (m : Bool ⊎ IoError) → is_link_leaf m ≡ false → m ≢ inl true
  not_link (inl true) e = ground arith
  not_link (inl false) e = λ q. ground arith
  not_link (inr w) e = λ q. ground arith

  -- The same for a write, of a path that is not the root, with its parent in place of the target,
  -- and metadata of the target that does not say symbolic link, if it can be had at all.
  pub record IsWritable (root : List Text) (rel : Text) (relative : List Text) : Type 0 where
    pub no_nul : has_nul rel ≡ false
    pub normal : normalize (fs.components rel) [] ≡ inl relative
    pub base : List Text
    pub opened : fs.canonicalize root ≡ inl base
    pub name : Text
    pub parent : List Text
    pub named : relative ≡ name ∷ parent
    pub no_link : fs.symlink_metadata (relative ++ base) ≢ inl true
    pub inside : IsInside base (parent ++ base)

  write_from-IsWritable :
      (root : List Text) (rel a : Text) (parent out : List Text) (x : List Text ⊎ IoError)
      → fs.canonicalize root ≡ x
      → normalize_relative fs rel ≡ inl (a ∷ parent)
      → write_from fs x a parent ≡ inl out
      → IsWritable root rel out
  unfolding write_from
  write_from-IsWritable root rel a parent out (inl base) q n e =
      elim (Bool-cases (is_link_leaf (fs.symlink_metadata (a ∷ parent ++ base)))) [
        | inl l ↦ ground arith
        | inr l ↦
            let r = assert-IsInside base (parent ++ base) (a ∷ parent) out (rw l at e) in
            let s = normalize_relative-normal rel out (n ∙ ap inl r.1) in
            record {
              no_nul = s.0;
              normal = s.1;
              base = base;
              opened = q;
              name = a;
              parent = parent;
              named = sym r.1;
              no_link = subst (λ z. fs.symlink_metadata (z ++ base) ≢ inl true) r.1 (not_link _ l);
              inside = r.0;
            }
      ]
  write_from-IsWritable root rel a parent out (inr w) q n e = ground arith

  write_relative-IsWritable :
      (root : List Text) (rel : Text) (out : List Text) (x : List Text ⊎ PathError)
      → normalize_relative fs rel ≡ x
      → write_relative fs root x ≡ inl out
      → IsWritable root rel out
  unfolding write_relative
  write_relative-IsWritable root rel out (inl []) n e = ground arith
  write_relative-IsWritable root rel out (inl (a ∷ parent)) n e =
      write_from-IsWritable root rel a parent out (fs.canonicalize root) refl n e
  write_relative-IsWritable root rel out (inr w) n e = ground arith

  -- A path that is confined for writing comes from a string without NUL, of which it is the lexical
  -- normal form; it is not empty; the metadata of the target does not say symbolic link, where the
  -- query for it succeeds (a query that fails is passed over); and the nearest ancestor of the
  -- target's parent that exists lies, with every link resolved, at the canonical root or below it.
  pub confine_write-IsWritable :
      (root : List Text) (rel : Text) (out : List Text)
      → confine_write fs root rel ≡ inl out
      → IsWritable root rel out
  unfolding confine_write
  confine_write-IsWritable root rel out e =
      write_relative-IsWritable root rel out (normalize_relative fs rel) refl e
