-- ===== src/FilePath.antt =====
-- std::filesystem::path as the search uses it, over the bytes of the native POSIX format: file
-- names, parents, `operator/` and equality, with the results of the C++ standard.
mod Tests
pub mod Names
use cuda_autocompat.Base.{
  ℕ, zero, suc, ◌-◌, ◌≡◌, Bool, true, false, not, ◌&&◌, ◌||◌, [], ◌∷◌, ◌++◌, if◌then◌else◌, ◌==◌,
  length, take, Bytes, codes, c_head, bytes_eq,
}

abbrev pub FilePath : Type 0
FilePath = Bytes

abbrev pub separator : ℕ
separator = b'/'

abbrev pub is_empty : FilePath → Bool
is_empty [] = true
is_empty (c ∷ p) = false

abbrev pub has_separator : FilePath → Bool
has_separator [] = false
has_separator (c ∷ p) = c == separator || has_separator p

-- `path::filename`: what stands behind the last separator.
unfoldable pub filename : FilePath → FilePath
filename [] = []
filename (c ∷ p) =
    let rest = filename p in if has_separator p then rest else if c == separator then p else c ∷ p

-- The path without the separators at its end.
unfoldable pub strip_separators : FilePath → FilePath
strip_separators [] = []
strip_separators (c ∷ p) =
    let rest = strip_separators p in if c == separator && is_empty rest then [] else c ∷ rest

-- A path of separators is its own parent. The parent of a path in the root directory is the root.
unfoldable pub parent_path : FilePath → FilePath
unfolding filename strip_separators
parent_path p =
    let dir = take (length p - length (filename p)) p in
    let parent = strip_separators dir in
    if is_empty (strip_separators p)
    then p
    else if is_empty parent && not (is_empty dir)
    then separator ∷ []
    else parent

-- `operator/`: an absolute path on the right replaces the left one.
infixl 66 ◌/path◌
unfoldable pub ◌/path◌ : FilePath → FilePath → FilePath
unfolding filename
p /path q =
    if c_head q == separator
    then q
    else if is_empty (filename p)
    then p ++ q
    else p ++ separator ∷ q

-- Equality of paths, by their components: a run of separators counts as one.
unfoldable pub collapse : FilePath → Bytes
collapse [] = []
collapse (c ∷ p) =
    let rest = collapse p in if c == separator && c_head p == separator then rest else c ∷ rest

unfoldable pub path_eq : FilePath → FilePath → Bool
unfolding collapse bytes_eq
path_eq p q = bytes_eq (collapse p) (collapse q)
