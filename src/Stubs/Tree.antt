-- ===== src/Stubs/Tree.antt =====
-- The tests of tests/CMakeLists.txt, on the tree of stub libraries that
-- tests/stubs/AutoCompatStubUtils.cmake builds: the search on whole lists of directories.
use cuda_autocompat.Base.{
  ℕ, ◌+◌, ◌≡◌, refl, Option, none, some, List, [], ◌∷◌, ◌++◌, if◌then◌else◌, ◌==◌, Bytes, bytes_eq,
  codes,
}
use cuda_autocompat.Base.Int.{pos}
use cuda_autocompat.FilePath.{
  FilePath, filename, strip_separators, parent_path, ◌/path◌, collapse, path_eq,
}
use cuda_autocompat.Search.{
  Throws, returned, Stat, FileKind, regular, directory, StatResult, stat_ok, not_found, Library,
  System, load_version, get_libcuda_api_ver, check_file_exists, check_companions, update_libcuda,
}
use cuda_autocompat.Search.Scan.{
  check_path_ends_with, get_toolkit_from_libcudart, search_libraries_libcuda,
  search_libraries_libcudart, search_cuda_home, search_dir_libcudart, search_paths_libcudart,
  search_paths_libcuda,
}
use cuda_autocompat.Search.Main.{Exit, search_all, main}
use cuda_autocompat.DlLibrary.Versions.{library}
use cuda_autocompat.Stubs.{cu_driver_get_version}
use cuda_autocompat.Stubs.Driver.{
  StubDriver, full, noimpl, autocompat, symbols, functions, look_up_symbol,
}

abbrev Files : Type 0
Files = List (Bytes × Stat)

abbrev file : Bytes → ℕ → FileKind → Bytes × Stat
file path ino kind = (path, record { st_ino = ino; kind = kind })

-- A directory with a driver and its companions, whose inodes begin with these.
abbrev driver_files : Bytes → ℕ → ℕ → Files
driver_files dir ino file_ino =
    file dir ino directory
    ∷ file (dir ++ codes "/libcuda.so.1") file_ino regular
    ∷ file (dir ++ codes "/libnvidia-nvvm.so.4") (file_ino + 1) regular
    ∷ file (dir ++ codes "/libnvidia-ptxjitcompiler.so.1") (file_ino + 2) regular
    ∷ file (dir ++ codes "/libcudadebugger.so.1") (file_ino + 3) regular
    ∷ []

-- A link to a directory leads to the same inodes, and links to files lead to those of the files.
abbrev tree : Files
tree =
    driver_files (codes "/driver_123/lib") 10 11
    ++ (driver_files (codes "/driver_234/lib") 20 21
        ++ (driver_files (codes "/driver_234/lib_symlink") 20 21
            ++ (driver_files (codes "/driver_234/lib_symlinks") 30 21
                ++ (driver_files (codes "/driver_noerror/lib") 50 51
                    ++ (file (codes "/driver_autocompat/lib") 60 directory
                        ∷ file (codes "/driver_autocompat/lib/libcuda.so.1") 61 regular
                        ∷ file (codes "/toolkit_345/lib64/libcudart.so.12") 71 regular
                        ∷ file (codes "/toolkit_456/lib64/libcudart.so.12") 72 regular
                        ∷ driver_files (codes "/toolkit_345/compat") 80 81)))))

abbrev stat_in : Files → FilePath → StatResult
stat_in [] p = not_found
stat_in ((path, st) ∷ files) p =
    let rest = stat_in files p in if bytes_eq path p then stat_ok st else rest

abbrev stub : StubDriver → ℕ → Library
stub kind version = library (functions (pos version)).get_version (look_up_symbol (symbols kind))

-- The library with an inode.
abbrev library_at : StatResult → Option Library
library_at (stat_ok st) =
    if st.st_ino == 11
    then some (stub full 1023)
    else if st.st_ino == 21
    then some (stub full 2034)
    else if st.st_ino == 51
    then some (stub noimpl 0)
    else if st.st_ino == 61
    then some (stub autocompat 0)
    else if st.st_ino == 81
    then some (stub full 3045)
    else none
library_at _ = none

abbrev real_path : FilePath → FilePath
real_path p =
    if bytes_eq p (codes "/toolkit_345/lib64/libcudart.so.12")
    then codes "/toolkit_345/targets/x86_64-linux/lib/libcudart.so.3.4.5"
    else if bytes_eq p (codes "/toolkit_456/lib64/libcudart.so.12")
    then codes "/toolkit_456/targets/x86_64-linux/lib/libcudart.so.4.5.6"
    else p

abbrev pub system : Option FilePath → System
system cuda_home = record {
  stat = stat_in tree;
  dlopen = λ p. library_at (stat_in tree p);
  weakly_canonical = λ p. returned (real_path p);
  cuda_home = cuda_home;
}

abbrev pub d123 : FilePath
d123 = codes "/driver_123/lib"

abbrev pub d234 : FilePath
d234 = codes "/driver_234/lib"

abbrev found : FilePath → Throws Exit
found dir = returned (record { status = 0; output = dir })

abbrev compat : FilePath
compat = codes "/toolkit_345/compat"

abbrev failed : Throws Exit
failed = returned (record { status = 1; output = [] })

-- `main` on CUDA_HOME, search paths and libraries.
run : Option FilePath → List FilePath → List FilePath → Throws Exit
unfolding main search_all search_libraries_libcuda search_libraries_libcudart search_cuda_home
    search_paths_libcudart search_dir_libcudart search_paths_libcuda get_toolkit_from_libcudart
    check_path_ends_with check_file_exists check_companions update_libcuda get_libcuda_api_ver
    load_version bytes_eq ◌/path◌ filename parent_path strip_separators path_eq collapse
    cu_driver_get_version
run cuda_home paths libs = main (system cuda_home) (some (paths, libs))

single_driver_1 : run none (d123 ∷ []) [] ≡ found d123
unfolding run
single_driver_1 = refl

single_driver_2 : run none (d234 ∷ []) [] ≡ found d234
unfolding run
single_driver_2 = refl

single_driver_noerror : run none (codes "/driver_noerror/lib" ∷ []) [] ≡ failed
unfolding run
single_driver_noerror = refl

single_driver_autocompat : run none (codes "/driver_autocompat/lib" ∷ []) [] ≡ failed
unfolding run
single_driver_autocompat = refl

single_toolkit : run none (codes "/toolkit_345/lib64" ∷ []) [] ≡ found compat
unfolding run
single_toolkit = refl

single_toolkit_nocompat : run none (codes "/toolkit_456/lib64" ∷ []) [] ≡ failed
unfolding run
single_toolkit_nocompat = refl

multipath : run none (d123 ∷ d234 ∷ []) [] ≡ found d234
unfolding run
multipath = refl

multipath_reversed : run none (d234 ∷ d123 ∷ []) [] ≡ found d234
unfolding run
multipath_reversed = refl

cuda_home : run (some (codes "/toolkit_345")) (d123 ∷ []) [] ≡ found compat
unfolding run
cuda_home = refl

driver_symlink_dir : run none (d234 ∷ codes "/driver_234/lib_symlink" ∷ []) [] ≡ found d234
unfolding run
driver_symlink_dir = refl

driver_symlink_file : run none (d234 ∷ codes "/driver_234/lib_symlinks" ∷ []) [] ≡ found d234
unfolding run
driver_symlink_file = refl

repeat_path : run none (d123 ∷ d234 ∷ d123 ∷ []) [] ≡ found d234
unfolding run
repeat_path = refl

loaded_driver :
    run none
      (d234 ∷ d123 ∷ [])
      (codes "/other_foo/lib/libfoo.so.1" ∷ codes "/driver_123/lib/libcuda.so.1" ∷ [])
    ≡ found d123
unfolding run
loaded_driver = refl

loaded_autocompat :
    run none
      (d234 ∷ d123 ∷ [])
      (codes "/driver_autocompat/lib/libcuda.so.1" ∷ codes "/driver_123/lib/libcuda.so.1" ∷ [])
    ≡ found d123
unfolding run
loaded_autocompat = refl

loaded_toolkit :
    run none (d234 ∷ d123 ∷ []) (codes "/toolkit_345/lib64/libcudart.so.12" ∷ []) ≡ found compat
unfolding run
loaded_toolkit = refl
