-- ===== src/Path.antt =====
-- Confined paths (crates/crustcore-path/src/lib.rs). The splitting of a string into components and
-- the file system are the standard library's, and parameters. An absolute path is the list of its
-- names, the last one first; the empty list is the root directory.
pub mod Lexical
pub mod Confined
mod Tests
use Prim.Native.String.{String}
use crust_core.Prelude.{
  ℕ, ◌==◌, ◌||◌, ◌&&◌, if◌then◌else◌, Bool, true, false, ◌⊎◌, inl, inr, List, [], ◌∷◌, ◌++◌, length,
}
use crust_core.Prelude.Text.{Text, text_eq}

-- `std::path::Component`
pub data Component : Type 0 where
  prefix root_dir cur_dir parent_dir : Component
  normal : Text → Component

pub data PathError : Type 0 where
  null_byte absolute_not_allowed escape symlink_escape : PathError
  io : String → PathError

-- `rel.as_bytes().contains(&0)`
unfoldable pub has_nul : Text → Bool
has_nul [] = false
has_nul (b ∷ s) = b == 0 || has_nul s

-- The loop of `normalize_relative`. The vector `out` is held with its end first.
unfoldable pub normalize : List Component → List Text → List Text ⊎ PathError
normalize [] out = inl out
normalize (Component.prefix ∷ cs) out = inr absolute_not_allowed
normalize (Component.root_dir ∷ cs) out = inr absolute_not_allowed
normalize (Component.cur_dir ∷ cs) out = normalize cs out
normalize (Component.parent_dir ∷ cs) [] = inr escape
normalize (Component.parent_dir ∷ cs) (x ∷ out) = normalize cs out
normalize (Component.normal c ∷ cs) out = normalize cs (c ∷ out)

-- `io::Error`, by the kinds that the source tells apart, with its text
pub data IoError : Type 0 where
  not_found : String → IoError
  other : String → IoError

-- What the resolver asks the standard library: `Path::components`, `Path::canonicalize`, and
-- `symlink_metadata`, of whose metadata only `file_type().is_symlink()` is held.
pub record FileSystem : Type 0 where
  pub components : Text → List Component
  pub canonicalize : List Text → List Text ⊎ IoError
  pub symlink_metadata : List Text → Bool ⊎ IoError

-- `Path::starts_with`, on names that are held with the last one first
unfoldable pub same_names : List Text → List Text → Bool
same_names [] [] = true
same_names (a ∷ p) (b ∷ q) = text_eq a b && same_names p q
same_names _ _ = false

unfoldable pub is_under : List Text → List Text → Bool
is_under root [] = same_names root []
is_under root (a ∷ p) = same_names root (a ∷ p) || is_under root p

abbrev pub io_error : IoError → PathError
io_error (not_found why) = io why
io_error (other why) = io why

-- The no-follow test of `confine_write`: metadata that cannot be had is passed over.
abbrev pub is_link_leaf : Bool ⊎ IoError → Bool
is_link_leaf (inl is_symlink) = is_symlink
is_link_leaf (inr e) = false

-- The arms of `deepest_existing_canonical`.
abbrev pub deepest_or : List Text ⊎ IoError → List Text ⊎ PathError → List Text ⊎ PathError
deepest_or (inl canon) up = inl canon
deepest_or (inr (not_found why)) up = up
deepest_or (inr (other why)) up = inr (io why)

-- The test of `assert_under_root`.
abbrev pub under_or : List Text → List Text ⊎ PathError → List Text → List Text ⊎ PathError
under_or root (inl canon) relative =
    if is_under root canon then inl relative else inr symlink_escape
under_or root (inr e) relative = inr e

module _ (fs : FileSystem) where
  -- `normalize_relative`
  unfoldable pub normalize_relative : Text → List Text ⊎ PathError
  normalize_relative rel = if has_nul rel then inr null_byte else normalize (fs.components rel) []

  -- `deepest_existing_canonical`
  unfoldable pub deepest_existing_canonical : List Text → List Text ⊎ PathError
  deepest_existing_canonical [] = deepest_or (fs.canonicalize []) (inr (io "no existing ancestor"))
  deepest_existing_canonical (a ∷ parent) =
      deepest_or (fs.canonicalize (a ∷ parent)) (deepest_existing_canonical parent)

  -- `assert_under_root`, with what the caller returns when it holds
  unfoldable pub assert_under_root : List Text → List Text → List Text → List Text ⊎ PathError
  assert_under_root root target relative =
      under_or root (deepest_existing_canonical target) relative

  unfoldable pub read_from : List Text ⊎ IoError → List Text → List Text ⊎ PathError
  read_from (inl root) relative = assert_under_root root (relative ++ root) relative
  read_from (inr e) relative = inr (io_error e)

  unfoldable pub read_relative : List Text → List Text ⊎ PathError → List Text ⊎ PathError
  read_relative root (inl relative) = read_from (fs.canonicalize root) relative
  read_relative root (inr e) = inr e

  -- `WorktreeRoot::confine_read`: the relative path of the confined path
  unfoldable pub confine_read : List Text → Text → List Text ⊎ PathError
  confine_read root rel = read_relative root (normalize_relative rel)

  -- `target` and its parent, for a relative path that is not empty
  unfoldable pub write_from : List Text ⊎ IoError → Text → List Text → List Text ⊎ PathError
  write_from (inl root) a parent =
      if is_link_leaf (fs.symlink_metadata (a ∷ parent ++ root))
      then inr symlink_escape
      else assert_under_root root (parent ++ root) (a ∷ parent)
  write_from (inr e) a parent = inr (io_error e)

  unfoldable pub write_relative : List Text → List Text ⊎ PathError → List Text ⊎ PathError
  write_relative root (inl []) = inr escape
  write_relative root (inl (a ∷ parent)) = write_from (fs.canonicalize root) a parent
  write_relative root (inr e) = inr e

  -- `WorktreeRoot::confine_write`
  unfoldable pub confine_write : List Text → Text → List Text ⊎ PathError
  confine_write root rel = write_relative root (normalize_relative rel)
