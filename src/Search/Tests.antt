-- ===== src/Search/Tests.antt =====
-- The search on small systems.
use cuda_autocompat.Base.{
  ℕ, ◌≡◌, ◌≢◌, refl, subst, sym, ◌⊎◌, none, some, List, [], ◌∷◌, if◌then◌else◌, ◌||◌, arith,
  bytes_eq, codes, inl, inr,
}
use cuda_autocompat.Base.Int.{ℤ, pos}
use cuda_autocompat.FilePath.{
  FilePath, filename, strip_separators, parent_path, ◌/path◌, collapse, path_eq,
}
use cuda_autocompat.Search.{
  returned, Stat, FileKind, regular, directory, StatResult, stat_ok, not_found, Library, System,
  SearchState, init, load_version, get_libcuda_api_ver, check_file_exists, check_companions,
  update_libcuda,
}
use cuda_autocompat.Search.Rating.{rating, best_from, first_rated, choose}
use cuda_autocompat.Search.Caches.{Agree, Inv}
use cuda_autocompat.Search.Scan.{
  search_libraries_libcuda, search_libraries_libcudart, search_cuda_home, search_dir_libcudart,
  search_paths_libcudart, search_paths_libcuda,
}
use cuda_autocompat.Search.Runs.{Consistent, init-Inv}
use cuda_autocompat.Search.Candidates.{
  candidates_libcuda, candidates_cuda_home, candidates_libcudart, candidates_libraries,
}
use cuda_autocompat.Search.Best.{update_libcuda-choose}
use cuda_autocompat.Search.Newest.{IsNewest, NoneRated, main-IsNewest}
use cuda_autocompat.Search.Subset.{IsSubset}
use cuda_autocompat.Search.Order.{main-IsSubset}
use cuda_autocompat.Search.Main.{exit_success, exit_failure, search_all, main}
use cuda_autocompat.Search.Tried.{all_candidates, later_candidates}
use cuda_autocompat.Search.Result.{exit_of, or_else, main-HasCompanions, main-first_rated}
use cuda_autocompat.Search.Companions.{HasKind, HasCompanions}
use cuda_autocompat.Search.Libraries.{drivers}

abbrev entry : FilePath → ℕ → FileKind → FilePath → StatResult → StatResult
entry path ino kind p other =
    if bytes_eq p path then stat_ok (record { st_ino = ino; kind = kind }) else other

-- `/a` and `/b` hold a driver each.
abbrev stat : FilePath → StatResult
stat p = entry (codes "/a") 1 directory p (
    entry (codes "/b") 2 directory p (
      entry (codes "/a/libcuda.so.1") 11 regular p (
        entry (codes "/a/libnvidia-nvvm.so.4") 12 regular p (
          entry (codes "/a/libnvidia-ptxjitcompiler.so.1") 13 regular p (
            entry (codes "/a/libcudadebugger.so.1") 14 regular p (
              entry (codes "/b/libcuda.so.1") 21 regular p (
                entry (codes "/b/libnvidia-nvvm.so.4") 22 regular p (
                  entry (codes "/b/libnvidia-ptxjitcompiler.so.1") 23 regular p
                    (entry (codes "/b/libcudadebugger.so.1") 24 regular p not_found)))))))))

abbrev driver : ℕ → Library
driver ver = record {
  exports = λ name.
      bytes_eq name (codes "cuGetErrorName")
      || (bytes_eq name (codes "cuGetErrorString") || bytes_eq name (codes "cuDriverGetVersion"));
  cu_driver_get_version = λ old. (pos 0, pos ver);
}

abbrev two_drivers : System
two_drivers = record {
  stat = stat;
  dlopen = λ p.
      if bytes_eq p (codes "/a/libcuda.so.1")
      then some (driver 4)
      else if bytes_eq p (codes "/b/libcuda.so.1")
      then some (driver 8)
      else none;
  weakly_canonical = λ p. returned p;
  cuda_home = none;
}

abbrev both : List FilePath
both = codes "/a" ∷ codes "/b" ∷ []

-- The newer driver wins, though the other one is found first.
main-two_drivers :
    main two_drivers (some (both, [])) ≡ returned (record { status = 0; output = codes "/b" })
unfolding main search_all search_libraries_libcuda search_libraries_libcudart search_cuda_home
    search_paths_libcudart search_dir_libcudart search_paths_libcuda check_file_exists
    check_companions update_libcuda get_libcuda_api_ver load_version bytes_eq ◌/path◌ filename
    parent_path strip_separators path_eq collapse
main-two_drivers = refl

main-HasCompanions_example :
    HasKind two_drivers directory (codes "/b") × HasCompanions two_drivers (codes "/b")
main-HasCompanions_example =
    main-HasCompanions two_drivers both [] (record { status = 0; output = codes "/b" })
      main-two_drivers refl

abbrev b_libcuda : FilePath
b_libcuda = codes "/b/libcuda.so.1"

abbrev a_libcuda : FilePath
a_libcuda = codes "/a/libcuda.so.1"

-- The inode that a known file leads to.
inode_of : (a st : Stat) (i : ℕ) → stat_ok a ≡ stat_ok st → st.st_ino ≡ i → a.st_ino ≡ i
inode_of a st i e h = ground arith

different : (i a b : ℕ) → a ≡ i → b ≡ i → a ≢ b → ⊥
different i a b h k n = ground arith

two_drivers-Agree : Agree two_drivers b_libcuda a_libcuda
unfolding bytes_eq parent_path filename strip_separators path_eq collapse
two_drivers-Agree = record {
  same_path = λ h. absurd (ground arith);
  same_directory = λ i h k. absurd (
      different i 2 1 (inode_of (record { st_ino = 2; kind = directory }) h.0 i h.1 h.2)
        (inode_of (record { st_ino = 1; kind = directory }) k.0 i k.1 k.2) (ground arith));
  same_library = λ i h k. absurd (
      different i 21 11 (inode_of (record { st_ino = 21; kind = regular }) h.0 i h.1 h.2)
        (inode_of (record { st_ino = 11; kind = regular }) k.0 i k.1 k.2) (ground arith));
}

all_candidates-two_drivers : all_candidates two_drivers both [] ≡ a_libcuda ∷ b_libcuda ∷ []
unfolding candidates_libcuda candidates_cuda_home candidates_libcudart candidates_libraries
    check_file_exists bytes_eq ◌/path◌ filename
all_candidates-two_drivers = refl

both-Consistent : Consistent two_drivers [] (all_candidates two_drivers both [])
both-Consistent =
    subst (λ ps. Consistent two_drivers [] ps) (sym all_candidates-two_drivers)
      (tt, ((two_drivers-Agree, tt), tt))

abbrev both_libraries : List FilePath
both_libraries = a_libcuda ∷ b_libcuda ∷ []

-- Of two drivers on the command line the first one wins, though the other one is newer.
main-both_libraries :
    main two_drivers (some ([], both_libraries))
    ≡ returned (record { status = 0; output = codes "/a" })
unfolding main search_all search_libraries_libcuda search_libraries_libcudart search_cuda_home
    search_paths_libcudart search_dir_libcudart search_paths_libcuda check_file_exists
    check_companions update_libcuda get_libcuda_api_ver load_version bytes_eq ◌/path◌ filename
    parent_path strip_separators path_eq collapse
main-both_libraries = refl

all_candidates-both_libraries :
    all_candidates two_drivers [] both_libraries ≡ a_libcuda ∷ b_libcuda ∷ []
unfolding candidates_libcuda candidates_cuda_home candidates_libcudart candidates_libraries
    check_file_exists bytes_eq ◌/path◌ filename path_eq collapse
all_candidates-both_libraries = refl

both_libraries-Consistent : Consistent two_drivers [] (all_candidates two_drivers [] both_libraries)
both_libraries-Consistent =
    subst (λ ps. Consistent two_drivers [] ps) (sym all_candidates-both_libraries)
      (tt, ((two_drivers-Agree, tt), tt))

main-first_rated_example :
    record { status = 0; output = codes "/a" }
    ≡ exit_of (
        or_else
          (first_rated two_drivers (drivers both_libraries))
          (best_from two_drivers none (later_candidates two_drivers [] both_libraries)))
main-first_rated_example =
    main-first_rated two_drivers [] both_libraries (record { status = 0; output = codes "/a" })
      both_libraries-Consistent main-both_libraries

main-IsNewest_example :
    ((exit_success ≡ exit_success)
      × ((ver : ℤ) × IsNewest two_drivers (all_candidates two_drivers both []) ver (codes "/b")))
    ⊎ ((exit_success ≡ exit_failure) × NoneRated two_drivers (all_candidates two_drivers both []))
main-IsNewest_example =
    main-IsNewest two_drivers both [] (record { status = 0; output = codes "/b" }) refl
      both-Consistent main-two_drivers

-- The same directories the other way round.
abbrev reversed : List FilePath
reversed = codes "/b" ∷ codes "/a" ∷ []

two_drivers-Agree_reversed : Agree two_drivers a_libcuda b_libcuda
unfolding bytes_eq parent_path filename strip_separators path_eq collapse
two_drivers-Agree_reversed = record {
  same_path = λ h. absurd (ground arith);
  same_directory = λ i h k. absurd (
      different i 1 2 (inode_of (record { st_ino = 1; kind = directory }) h.0 i h.1 h.2)
        (inode_of (record { st_ino = 2; kind = directory }) k.0 i k.1 k.2) (ground arith));
  same_library = λ i h k. absurd (
      different i 11 21 (inode_of (record { st_ino = 11; kind = regular }) h.0 i h.1 h.2)
        (inode_of (record { st_ino = 21; kind = regular }) k.0 i k.1 k.2) (ground arith));
}

all_candidates-reversed : all_candidates two_drivers reversed [] ≡ b_libcuda ∷ a_libcuda ∷ []
unfolding candidates_libcuda candidates_cuda_home candidates_libcudart candidates_libraries
    check_file_exists bytes_eq ◌/path◌ filename
all_candidates-reversed = refl

reversed-Consistent : Consistent two_drivers [] (all_candidates two_drivers reversed [])
reversed-Consistent =
    subst (λ ps. Consistent two_drivers [] ps) (sym all_candidates-reversed)
      (tt, ((two_drivers-Agree_reversed, tt), tt))

main-reversed :
    main two_drivers (some (reversed, [])) ≡ returned (record { status = 0; output = codes "/b" })
unfolding main search_all search_libraries_libcuda search_libraries_libcudart search_cuda_home
    search_paths_libcudart search_dir_libcudart search_paths_libcuda check_file_exists
    check_companions update_libcuda get_libcuda_api_ver load_version bytes_eq ◌/path◌ filename
    parent_path strip_separators path_eq collapse
main-reversed = refl

swapped : (a b : FilePath) → IsSubset (a ∷ b ∷ []) (b ∷ a ∷ [])
swapped a b q (inl e) = inr (inl e)
swapped a b q (inr (inl e)) = inl e
swapped a b q (inr (inr e)) = absurd e

main-IsSubset_example :
    ((exit_success ≡ exit_success)
      × (exit_success ≡ exit_success)
      × ((ver : ℤ) × IsNewest two_drivers (all_candidates two_drivers both []) ver (codes "/b")
          × IsNewest two_drivers (all_candidates two_drivers both []) ver (codes "/b")))
    ⊎ ((exit_success ≡ exit_failure) × (exit_success ≡ exit_failure))
main-IsSubset_example =
    main-IsSubset two_drivers both reversed [] (record { status = 0; output = codes "/b" })
      (record { status = 0; output = codes "/b" }) refl (swapped (codes "/a") (codes "/b"))
      (swapped (codes "/b") (codes "/a")) both-Consistent reversed-Consistent main-two_drivers
      main-reversed

-- The first call on a new state.
abbrev first_state : SearchState
first_state = record {
  found = some (record { version = pos 4; driver_dir = codes "/a" });
  dir_path_cache = codes "/a" ∷ [];
  dir_inode_cache = 1 ∷ [];
  ver_cache = (11, pos 4) ∷ [];
}

first_call : update_libcuda two_drivers a_libcuda init ≡ returned (pos 0, first_state)
unfolding check_file_exists check_companions update_libcuda get_libcuda_api_ver load_version
    bytes_eq ◌/path◌ filename parent_path strip_separators path_eq collapse
first_call = refl

update_libcuda-choose_example :
    (first_state.found ≡ choose none (rating two_drivers a_libcuda) (parent_path a_libcuda))
    × Inv two_drivers (a_libcuda ∷ []) first_state
update_libcuda-choose_example =
    update_libcuda-choose two_drivers [] init a_libcuda (pos 0) first_state (init-Inv two_drivers)
      tt first_call
