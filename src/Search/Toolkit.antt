-- ===== src/Search/Toolkit.antt =====
-- `check_path_ends_with` and the toolkits of search/search.cxx.
mod Tests
use cuda_autocompat.FilePath.Names.{
  last_is_separator, named, filename-append, is_empty-filename, parent_path-append, path_eq_refl,
  is_empty-append, last_is_separator-append, path-named,
}
use cuda_autocompat.Base.{ℕ, suc, ◌≡◌, ◌≢◌, refl, ap, ◌∙◌, false, some, [], ◌∷◌, ◌++◌, arith, codes}
use cuda_autocompat.FilePath.{
  FilePath, separator, is_empty, has_separator, filename, strip_separators, parent_path, ◌/path◌,
}
use cuda_autocompat.Search.{returned, System}
use cuda_autocompat.Search.Scan.{
  get_toolkit_from_libcudart, answer, out_of_fuel, check_path_ends_with, toolkit_subdir,
  toolkit_fuel,
}

-- One round of the loop, on equal names.
check_path_ends_with-named :
    (fuel : ℕ) (p q n : FilePath)
    → is_empty p ≡ false
    → last_is_separator p ≡ false
    → has_separator n ≡ false
    → is_empty q ≡ false
    → last_is_separator q ≡ false
    → check_path_ends_with (suc fuel) (named p n) (named q n) ≡ check_path_ends_with fuel p q
unfolding check_path_ends_with
check_path_ends_with-named fuel p q n a b c d e =
    rw
      (
        is_empty-append p n,
        is_empty-append q n,
        filename-append p n c,
        filename-append q n c,
        path_eq_refl n,
        parent_path-append p n a b c,
        parent_path-append q n d e c,
      )
      refl

abbrev targets : FilePath
targets = codes "targets"

abbrev x86_64_linux : FilePath
x86_64_linux = codes "x86_64-linux"

toolkit_subdir-append :
    (root : FilePath)
    → root ++ separator ∷ toolkit_subdir
      ≡ named (named (named root targets) x86_64_linux) (codes "lib")
toolkit_subdir-append [] = refl
toolkit_subdir-append (c ∷ root) = ap (λ t. c ∷ t) (toolkit_subdir-append root)

parent_path-targets : parent_path targets ≡ []
unfolding parent_path filename strip_separators
parent_path-targets = refl

filename-targets : filename targets ≡ targets
unfolding filename
filename-targets = refl

-- The last round of the three, and the test that ends the loop.
check_path_ends_with-targets :
    (root : FilePath)
    → is_empty root ≡ false
    → last_is_separator root ≡ false
    → check_path_ends_with 2 (named root targets) targets ≡ answer (some root)
unfolding check_path_ends_with
check_path_ends_with-targets root a b =
    rw
      (
        is_empty-append root targets,
        filename-append root targets refl,
        filename-targets,
        path_eq_refl targets,
        parent_path-append root targets a b refl,
        parent_path-targets,
      )
      refl

-- The loop finds the root of a toolkit, behind a root that is neither empty nor ends in a
-- separator, and the fuel is enough.
check_path_ends_with-toolkit_subdir :
    (root : FilePath)
    → is_empty root ≡ false
    → last_is_separator root ≡ false
    → check_path_ends_with toolkit_fuel (root /path toolkit_subdir) toolkit_subdir
      ≡ answer (some root)
unfolding ◌/path◌
check_path_ends_with-toolkit_subdir root a b =
    rw (is_empty-filename root a b, toolkit_subdir-append root)
      (check_path_ends_with-named 3 (named (named root targets) x86_64_linux)
          (named targets x86_64_linux) (codes "lib")
          (is_empty-append (named root targets) x86_64_linux)
          (last_is_separator-append (named root targets) x86_64_linux refl refl) refl refl refl
        ∙ (check_path_ends_with-named 2 (named root targets) targets x86_64_linux
              (is_empty-append root targets) (last_is_separator-append root targets refl refl) refl
              refl refl
            ∙ check_path_ends_with-targets root a b))

-- A round that can go on goes on.
check_path_ends_with-round :
    (fuel : ℕ) (full suffix : FilePath)
    → check_path_ends_with fuel (parent_path full) (parent_path suffix) ≢ out_of_fuel
    → check_path_ends_with (suc fuel) full suffix ≢ out_of_fuel
unfolding check_path_ends_with
check_path_ends_with-round fuel full suffix h = ground arith

check_path_ends_with-last : (full : FilePath) → check_path_ends_with 1 full [] ≢ out_of_fuel
unfolding check_path_ends_with
check_path_ends_with-last full = ground arith

parent_paths-toolkit_subdir : parent_path (parent_path (parent_path toolkit_subdir)) ≡ []
unfolding parent_path filename strip_separators
parent_paths-toolkit_subdir = refl

-- `check_path_ends_with` ends for every path on the suffix of a toolkit: its fuel is enough.
check_path_ends_with-toolkit_fuel :
    (full : FilePath) → check_path_ends_with toolkit_fuel full toolkit_subdir ≢ out_of_fuel
check_path_ends_with-toolkit_fuel full = check_path_ends_with-round 3 full toolkit_subdir (
    check_path_ends_with-round 2 (parent_path full) (parent_path toolkit_subdir) (
      check_path_ends_with-round 1 (parent_path (parent_path full))
        (parent_path (parent_path toolkit_subdir))
        (rw parent_paths-toolkit_subdir
          (check_path_ends_with-last (parent_path (parent_path (parent_path full)))))))

-- The library directory of a toolkit.
path-toolkit_subdir :
    (root : FilePath)
    → is_empty root ≡ false
    → last_is_separator root ≡ false
    → root /path toolkit_subdir ≡ named (named (named root targets) x86_64_linux) (codes "lib")
unfolding ◌/path◌
path-toolkit_subdir root a b = rw (is_empty-filename root a b) (toolkit_subdir-append root)

parent_path-library :
    (root fname : FilePath)
    → is_empty root ≡ false
    → last_is_separator root ≡ false
    → has_separator fname ≡ false
    → parent_path (root /path toolkit_subdir /path fname) ≡ root /path toolkit_subdir
parent_path-library root fname a b c =
    let dir = named (named root targets) x86_64_linux in
    let full = is_empty-append dir (codes "lib") in
    let ends = last_is_separator-append dir (codes "lib") refl refl in
    rw (path-toolkit_subdir root a b) (
      ap parent_path (path-named (named dir (codes "lib")) fname full ends c)
      ∙ parent_path-append (named dir (codes "lib")) fname full ends c)

-- A library whose real path is a name in the library directory of a toolkit leads to that toolkit,
-- whatever links lead there, if the toolkit's own path is not empty and does not end in a
-- separator.
pub get_toolkit_from_libcudart-toolkit_subdir :
    (sys : System) (lib_path root fname : FilePath)
    → is_empty root ≡ false
    → last_is_separator root ≡ false
    → has_separator fname ≡ false
    → sys.weakly_canonical lib_path ≡ returned (root /path toolkit_subdir /path fname)
    → get_toolkit_from_libcudart sys lib_path ≡ returned (some root)
unfolding get_toolkit_from_libcudart
get_toolkit_from_libcudart-toolkit_subdir sys lib_path root fname a b c h =
    rw (h, parent_path-library root fname a b c, check_path_ends_with-toolkit_subdir root a b) refl
