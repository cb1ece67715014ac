-- ===== src/Messages/Update.antt =====
-- `update_libcuda` of search/search.cxx with its messages.
use cuda_autocompat.Base.{
  zero, suc, not, Option, none, some, ◌∷◌, ◌++◌, if◌then◌else◌, Bytes, codes,
}
use cuda_autocompat.Base.Int.{ℤ, pos, negsuc, ltb_ℤ}
use cuda_autocompat.FilePath.{FilePath, parent_path, ◌/path◌}
use cuda_autocompat.Search.{
  System, Stat, stat_ok, not_found, stat_error, SearchState, is_dir, contains_path, contains_inode,
  check_file_exists,
}
use cuda_autocompat.Messages.{Logged, pure, lift, ◌>>=◌, ◌>>◌, info, debug, trace, Texts}
use cuda_autocompat.Messages.Decimal.{format_nat, format_int}
use cuda_autocompat.Messages.Load.{get_libcuda_api_ver_logged}

-- The end of most paths through the function.
abbrev pub skip : Bytes → SearchState → Logged (ℤ × SearchState)
skip reason s = do info (codes "libcuda: Skipping (" ++ (reason ++ codes ")")); pure (negsuc 0, s)

-- The cases of the switch.
abbrev pub skip_reason : ℤ → Option Bytes
skip_reason (pos n) = none
skip_reason (negsuc zero) = some (codes "library error")
skip_reason (negsuc (suc zero)) = some (codes "autocompat detected")
skip_reason (negsuc (suc (suc zero))) = some (codes "stat error")
skip_reason (negsuc (suc (suc (suc zero)))) = some (codes "directory")
skip_reason (negsuc (suc (suc (suc (suc n))))) = none

abbrev pub set_found : Bytes → ℤ → FilePath → SearchState → Logged (ℤ × SearchState)
set_found reason ver dir s = do
  info (codes "libcuda: Updating (" ++ (reason ++ codes ")"))
  pure (pos 0, record s { found = some (record { version = ver; driver_dir = dir }) })

abbrev pub offer_logged : ℤ → FilePath → SearchState → Logged (ℤ × SearchState)
offer_logged ver dir s = do
  info (codes "libcuda: cuDriverGetVersion = " ++ format_int ver)
  elim s.found [
    | none ↦ set_found (codes "first found") ver dir s
    | some best ↦
        if ltb_ℤ best.version ver
        then set_found (format_int ver ++ (codes " > " ++ format_int best.version)) ver dir s
        else do
          info (
              codes "libcuda: Skipping ("
              ++ ((format_int ver ++ (codes " <= " ++ format_int best.version)) ++ codes ")"))
          pure (pos 1, s)
  ]

module _ (sys : System) (texts : Texts) where
  -- A test for a file that the driver's directory must have too, and what comes after it. The name
  -- in the message is the third argument.
  abbrev pub require :
      FilePath → Bytes → Bytes → SearchState → Logged (ℤ × SearchState) → Logged (ℤ × SearchState)
  require dir file name s next = do
    there ← lift (check_file_exists sys (dir /path file))
    if not there then skip (name ++ codes " not found") s else next

  -- The switch, the three files, and the end.
  abbrev pub with_version_logged : FilePath → SearchState → ℤ → Logged (ℤ × SearchState)
  with_version_logged dir s ver = elim (skip_reason ver) [
    | some reason ↦ skip reason s
    | none ↦ require dir (codes "libnvidia-nvvm.so.4") (codes "libnvidia-nvvm.so.4") s (
        require dir (codes "libnvidia-ptxjitcompiler.so.1") (codes "libnvidia-nvvm.so.4") s (
          require dir (codes "libcudadebugger.so.1") (codes "libcudadebugger.so.1") s
            (offer_logged ver dir s)))
  ]

  abbrev pub with_directory_logged :
      FilePath → FilePath → SearchState → Stat → Logged (ℤ × SearchState)
  with_directory_logged path dir s st =
      if not (is_dir st.kind)
      then skip (codes "directory error") s
      else if contains_inode st.st_ino s.dir_inode_cache
      then debug (codes "cached (inode = " ++ (format_nat st.st_ino ++ codes ")"))
        >> skip (codes "directory inode already checked") s
      else do
        (ver, cache) ← get_libcuda_api_ver_logged sys texts path s.ver_cache
        with_version_logged dir
            (record s { dir_inode_cache = st.st_ino ∷ s.dir_inode_cache; ver_cache = cache }) ver

  abbrev pub stat_failed : FilePath → SearchState → Logged (ℤ × SearchState)
  stat_failed dir s = do trace (texts.strerror dir); skip (codes "directory stat error") s

  abbrev pub look_at_directory : FilePath → FilePath → SearchState → Logged (ℤ × SearchState)
  look_at_directory path dir s = do
    trace (codes "stat(" ++ (dir ++ codes ")"))
    elim (sys.stat dir) [
      | not_found ↦ stat_failed dir s
      | stat_error ↦ stat_failed dir s
      | stat_ok st ↦ with_directory_logged path dir s st
    ]

  unfoldable pub update_libcuda_logged : FilePath → SearchState → Logged (ℤ × SearchState)
  update_libcuda_logged path s = do
    info (codes "libcuda: " ++ path)
    let dir = parent_path path
    if contains_path dir s.dir_path_cache
        then skip (codes "directory already checked") s
        else look_at_directory path dir (record s { dir_path_cache = dir ∷ s.dir_path_cache })
