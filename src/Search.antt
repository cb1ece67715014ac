-- ===== src/Search.antt =====
-- search/search.h and the first half of search/search.cxx: the version of a driver library and
-- `update_libcuda`, which keeps the best one. The file system and the dynamic loader are a record.
-- The sets and the map of `SearchState` are lists. The messages are in the modules of Messages.
pub mod Rating
mod Tests
pub mod Caches
pub mod Best
pub mod Scan
pub mod Runs
pub mod Candidates
pub mod Usable
pub mod Libraries
pub mod Main
pub mod First
pub mod Companions
pub mod Tried
pub mod Result
pub mod Maximum
pub mod Toolkit
pub mod Report
pub mod Total
pub mod Newest
pub mod Subset
pub mod Order
use cuda_autocompat.Base.{
  ℕ, zero, suc, ◌≡◌, Bool, true, false, not, ◌&&◌, ◌||◌, Option, none, some, List, [], ◌∷◌,
  if◌then◌else◌, ◌==◌, Bytes, codes,
}
use cuda_autocompat.Base.Int.{ℤ, pos, negsuc, ltb_ℤ}
use cuda_autocompat.FilePath.{FilePath, parent_path, ◌/path◌, path_eq}

-- A C++ call that returns, or throws what nobody catches.
pub data Throws {ℓ} (A : Type ℓ) : Type ℓ where
  returned : A → Throws A
  thrown : Throws A

infixl 5 ◌>>=◌
abbrev pub ◌>>=◌ {ℓ κ} : {A : Type ℓ} {B : Type κ} → Throws A → (A → Throws B) → Throws B
returned a >>= f = f a
thrown >>= f = thrown

pub data FileKind : Type 0 where
  regular : FileKind
  directory : FileKind
  other : FileKind

-- `struct stat`
pub record Stat : Type 0 where
  pub st_ino : ℕ
  pub kind : FileKind

-- `stat` succeeds, finds nothing (ENOENT, ENOTDIR), or fails otherwise.
pub data StatResult : Type 0 where
  stat_ok : Stat → StatResult
  not_found : StatResult
  stat_error : StatResult

-- An open library: its symbols, and `cuDriverGetVersion` from the old value of its argument to the
-- return code and the new value.
pub record Library : Type 0 where
  pub exports : Bytes → Bool
  pub cu_driver_get_version : ℤ → ℤ × ℤ

-- What the search asks the system. `weakly_canonical` may throw.
pub record System : Type 0 where
  pub stat : FilePath → StatResult
  pub dlopen : FilePath → Option Library
  pub weakly_canonical : FilePath → Throws FilePath
  pub cuda_home : Option FilePath

pub record SearchResult : Type 0 where
  pub version : ℤ
  pub driver_dir : FilePath

pub record SearchState : Type 0 where
  pub found : Option SearchResult
  pub dir_path_cache : List FilePath
  pub dir_inode_cache : List ℕ
  pub ver_cache : List (ℕ × ℤ)

abbrev pub init : SearchState
init = record { found = none; dir_path_cache = []; dir_inode_cache = []; ver_cache = [] }

abbrev pub contains_path : FilePath → List FilePath → Bool
contains_path p [] = false
contains_path p (q ∷ qs) = path_eq q p || contains_path p qs

abbrev pub contains_inode : ℕ → List ℕ → Bool
contains_inode i [] = false
contains_inode i (j ∷ js) = j == i || contains_inode i js

abbrev pub lookup_version : ℕ → List (ℕ × ℤ) → Option ℤ
lookup_version i [] = none
lookup_version i ((j, v) ∷ m) = if j == i then some v else lookup_version i m

abbrev pub is_dir : FileKind → Bool
is_dir directory = true
is_dir _ = false

abbrev pub is_regular : FileKind → Bool
is_regular regular = true
is_regular _ = false

-- The cases -1 to -4 of the switch.
abbrev pub is_skipped : ℤ → Bool
is_skipped (pos n) = false
is_skipped (negsuc zero) = true
is_skipped (negsuc (suc zero)) = true
is_skipped (negsuc (suc (suc zero))) = true
is_skipped (negsuc (suc (suc (suc zero)))) = true
is_skipped (negsuc (suc (suc (suc (suc n))))) = false

-- The end of `update_libcuda`: a first find, a newer one, or one that is not newer.
abbrev pub offer : ℤ → FilePath → SearchState → ℤ × SearchState
offer ver dir s =
    let updated = record s { found = some (record { version = ver; driver_dir = dir }) } in
    elim s.found [
      | none ↦ (pos 0, updated)
      | some best ↦ if ltb_ℤ best.version ver then (pos 0, updated) else (pos 1, s)
    ]

module _ (sys : System) where
  -- What is read from an open library, and what is left in its entry of `ver_cache`, which is -1
  -- before.
  unfoldable pub load_version : FilePath → ℤ × ℤ
  load_version path = elim (sys.dlopen path) [
    | none ↦ (negsuc 0, negsuc 0)
    | some libcuda ↦
        let ver = (libcuda.cu_driver_get_version (negsuc 0)).1 in
        if libcuda.exports (codes "cuda_autocompat_version")
        then (negsuc 1, negsuc 0)
        else if not (libcuda.exports (codes "cuGetErrorName"))
        then (negsuc 0, negsuc 0)
        else if not (libcuda.exports (codes "cuGetErrorString"))
        then (negsuc 0, negsuc 0)
        else if not (libcuda.exports (codes "cuDriverGetVersion"))
        then (negsuc 0, negsuc 0)
        else (ver, ver)
  ]

  unfoldable pub cached_version : FilePath → ℕ → List (ℕ × ℤ) → ℤ × List (ℕ × ℤ)
  cached_version path ino cache = elim (lookup_version ino cache) [
    | some ver ↦ (ver, cache)
    | none ↦ let loaded = load_version path in (loaded.0, (ino, loaded.1) ∷ cache)
  ]

  -- The version and the new `ver_cache`: -1 to -4 on errors.
  unfoldable pub get_libcuda_api_ver : FilePath → List (ℕ × ℤ) → ℤ × List (ℕ × ℤ)
  unfolding cached_version
  get_libcuda_api_ver path cache = elim (sys.stat path) [
    | not_found ↦ (negsuc 2, cache)
    | stat_error ↦ (negsuc 2, cache)
    | stat_ok st ↦ if is_dir st.kind then (negsuc 3, cache) else cached_version path st.st_ino cache
  ]

  -- `std::filesystem::status` throws on errors other than a missing file.
  unfoldable pub check_file_exists : FilePath → Throws Bool
  check_file_exists path = elim (sys.stat path) [
    | not_found ↦ returned false
    | stat_error ↦ thrown
    | stat_ok st ↦ returned (is_regular st.kind)
  ]

  -- The three libraries that the driver's directory must have too.
  unfoldable pub check_companions : FilePath → Throws Bool
  unfolding check_file_exists
  check_companions dir = do
    nvvm ← check_file_exists (dir /path codes "libnvidia-nvvm.so.4")
    if not nvvm then returned false else do
      ptx ← check_file_exists (dir /path codes "libnvidia-ptxjitcompiler.so.1")
      if not ptx then returned false else check_file_exists (dir /path codes "libcudadebugger.so.1")

  unfoldable pub with_version : FilePath → SearchState → ℤ → Throws (ℤ × SearchState)
  with_version dir s ver = if is_skipped ver then returned (negsuc 0, s) else do
    complete ← check_companions dir
    returned (if complete then offer ver dir s else (negsuc 0, s))

  unfoldable pub with_directory :
      FilePath → FilePath → SearchState → Stat → Throws (ℤ × SearchState)
  with_directory path dir s st =
      let (ver, cache) = get_libcuda_api_ver path s.ver_cache in
      if not (is_dir st.kind)
      then returned (negsuc 0, s)
      else if contains_inode st.st_ino s.dir_inode_cache
      then returned (negsuc 0, s)
      else with_version dir
          (record s { dir_inode_cache = st.st_ino ∷ s.dir_inode_cache; ver_cache = cache }) ver

  -- The result is 0 if `found` was set, 1 if the library is not newer, and -1 if it is skipped.
  unfoldable pub update_libcuda : FilePath → SearchState → Throws (ℤ × SearchState)
  unfolding with_version with_directory
  update_libcuda path s =
      let dir = parent_path path in
      let s' = record s { dir_path_cache = dir ∷ s.dir_path_cache } in
      if contains_path dir s.dir_path_cache then returned (negsuc 0, s) else elim (sys.stat dir) [
        | not_found ↦ returned (negsuc 0, s')
        | stat_error ↦ returned (negsuc 0, s')
        | stat_ok st ↦ with_directory path dir s' st
      ]
