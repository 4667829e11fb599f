-- ===== src/Path/Tests.antt =====
-- Paths of the source's tests, and the theorems on paths at concrete inputs.
use crust_core.Prelude.{◌≡◌, ◌↔◌, refl, inl, inr, true, false, List, [], ◌∷◌, ◌++◌}
use crust_core.Prelude.Text.{text_eq}
use crust_core.Path.{
  Component, other, symlink_escape, FileSystem, has_nul, normalize, same_names, is_under,
  normalize_relative, deepest_existing_canonical, assert_under_root, read_from, read_relative,
  confine_read, write_from, write_relative, confine_write,
}
use crust_core.Path.Lexical.{IsAccepted, StaysInside, resolve, resolve-normalize, normalize_iff}
use crust_core.Path.Confined.{
  IsReadable, confine_read-IsReadable, IsWritable, confine_write-IsWritable,
}

-- A test that unfolds this opens the resolver.
open_path : Unit {0}
unfolding text_eq has_nul normalize same_names is_under normalize_relative
    deepest_existing_canonical assert_under_root read_from read_relative confine_read write_from
    write_relative confine_write
open_path = tt

-- `a/../b`
abbrev detour : List Component
detour = Component.normal (97 ∷ []) ∷ Component.parent_dir ∷ Component.normal (98 ∷ []) ∷ []

detour_normal : normalize detour [] ≡ inl ((98 ∷ []) ∷ [])
unfolding normalize
detour_normal = refl

normalize_iff_example : IsAccepted (normalize detour []) ↔ StaysInside 0 detour
normalize_iff_example = normalize_iff detour

resolve-normalize_example : resolve detour ([] ++ (119 ∷ []) ∷ []) ≡ (98 ∷ []) ∷ (119 ∷ []) ∷ []
resolve-normalize_example =
    resolve-normalize detour [] ((98 ∷ []) ∷ []) ((119 ∷ []) ∷ []) detour_normal

-- A file system where every path exists and is canonical, and each string is the detour.
abbrev flat : FileSystem
flat = record {
  components = λ s. detour;
  canonicalize = λ p. inl p;
  symlink_metadata = λ p. inl false;
}

-- The same, where no metadata can be had, and where every target is a symbolic link.
abbrev blind : FileSystem
blind = record flat { symlink_metadata = λ p. inr (other "denied") }

abbrev linked : FileSystem
linked = record flat { symlink_metadata = λ p. inl true }

writes_blind : confine_write blind ((119 ∷ []) ∷ []) [] ≡ inl ((98 ∷ []) ∷ [])
unfolding open_path
writes_blind = refl

refuses_link : confine_write linked ((119 ∷ []) ∷ []) [] ≡ inr symlink_escape
unfolding open_path
refuses_link = refl

reads : confine_read flat ((119 ∷ []) ∷ []) [] ≡ inl ((98 ∷ []) ∷ [])
unfolding open_path
reads = refl

writes : confine_write flat ((119 ∷ []) ∷ []) [] ≡ inl ((98 ∷ []) ∷ [])
unfolding open_path
writes = refl

confine_read-IsReadable_example : IsReadable flat ((119 ∷ []) ∷ []) [] ((98 ∷ []) ∷ [])
confine_read-IsReadable_example =
    confine_read-IsReadable flat ((119 ∷ []) ∷ []) [] ((98 ∷ []) ∷ []) reads

confine_write-IsWritable_example : IsWritable flat ((119 ∷ []) ∷ []) [] ((98 ∷ []) ∷ [])
confine_write-IsWritable_example =
    confine_write-IsWritable flat ((119 ∷ []) ∷ []) [] ((98 ∷ []) ∷ []) writes
