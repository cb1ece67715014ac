-- ===== src/Search/Companions.antt =====
-- What a directory of a driver must have, without the code of search/search.cxx.
use cuda_autocompat.Base.{◌≡◌, refl, Bool, true, false, not, if◌then◌else◌, arith, codes}
use cuda_autocompat.FilePath.{FilePath, ◌/path◌}
use cuda_autocompat.Search.{
  Throws, returned, thrown, ◌>>=◌, is_dir, is_regular, other, System, FileKind, regular, directory,
  Stat, StatResult, stat_ok, not_found, stat_error, check_file_exists, check_companions,
}
use cuda_autocompat.Search.Usable.{is_directory}

is_dir-directory : (kind : FileKind) → is_dir kind ≡ true → kind ≡ directory
is_dir-directory regular h = absurd (ground arith)
is_dir-directory directory h = refl
is_dir-directory other h = absurd (ground arith)

is_regular-regular : (kind : FileKind) → is_regular kind ≡ true → kind ≡ regular
is_regular-regular regular h = refl
is_regular-regular directory h = absurd (ground arith)
is_regular-regular other h = absurd (ground arith)

-- Three tests, one after the other.
all_three :
    (a b c : Throws Bool)
    → (do x ← a; if not x then returned false else do y ← b; if not y then returned false else c)
      ≡ returned true
    → (a ≡ returned true) × (b ≡ returned true) × (c ≡ returned true)
all_three a b c h = ground arith

module _ (sys : System) where
  -- There is a file of this kind.
  abbrev pub HasKind : FileKind → FilePath → Type 0
  HasKind kind path = (st : Stat) × (sys.stat path ≡ stat_ok st) × (st.kind ≡ kind)

  -- The three libraries that a driver needs are regular files in its directory.
  pub record HasCompanions (dir : FilePath) : Type 0 where
    pub nvvm : HasKind regular (dir /path codes "libnvidia-nvvm.so.4")
    pub ptxjitcompiler : HasKind regular (dir /path codes "libnvidia-ptxjitcompiler.so.1")
    pub debugger : HasKind regular (dir /path codes "libcudadebugger.so.1")

  pub is_directory-HasKind :
      (path : FilePath) → is_directory (sys.stat path) ≡ true → HasKind directory path
  is_directory-HasKind path h = go (sys.stat path) refl h
    where
      go : (r : StatResult) → sys.stat path ≡ r → is_directory r ≡ true → HasKind directory path
      go (stat_ok st) e h = (st, e, is_dir-directory st.kind h)
      go not_found e h = absurd (ground arith)
      go stat_error e h = absurd (ground arith)

  check_file_exists-HasKind :
      (path : FilePath) → check_file_exists sys path ≡ returned true → HasKind regular path
  unfolding check_file_exists
  check_file_exists-HasKind path h = go (sys.stat path) refl h
    where
      go :
          (r : StatResult)
          → sys.stat path ≡ r
          → elim r [
            | not_found ↦ returned false
            | stat_error ↦ thrown
            | stat_ok st ↦ returned (is_regular st.kind)
          ]
            ≡ returned true
          → HasKind regular path
      go (stat_ok st) e h = (st, e, is_regular-regular st.kind (ground arith))
      go not_found e h = absurd (ground arith)
      go stat_error e h = absurd (ground arith)

  pub check_companions-HasCompanions :
      (dir : FilePath) → check_companions sys dir ≡ returned true → HasCompanions dir
  unfolding check_companions
  check_companions-HasCompanions dir h =
      let (nvvm, ptx, debugger) =
        all_three (check_file_exists sys (dir /path codes "libnvidia-nvvm.so.4"))
          (check_file_exists sys (dir /path codes "libnvidia-ptxjitcompiler.so.1"))
          (check_file_exists sys (dir /path codes "libcudadebugger.so.1")) h in
      record {
        nvvm = check_file_exists-HasKind (dir /path codes "libnvidia-nvvm.so.4") nvvm;
        ptxjitcompiler =
            check_file_exists-HasKind (dir /path codes "libnvidia-ptxjitcompiler.so.1") ptx;
        debugger = check_file_exists-HasKind (dir /path codes "libcudadebugger.so.1") debugger;
      }
