-- ===== src/Messages/Args.antt =====
-- search/parse_args.cxx with its messages: the paths that are added, and the default search path.
use cuda_autocompat.Base.{
  ℕ, zero, suc, Bool, true, false, not, none, some, List, [], ◌∷◌, ◌++◌, if◌then◌else◌, ◌==◌,
  length, take, Bytes, codes,
}
use cuda_autocompat.FilePath.{FilePath}
use cuda_autocompat.Search.{System, contains_path}
use cuda_autocompat.Search.Scan.{Loop, answer, out_of_fuel}
use cuda_autocompat.ParseArgs.{Paths, status_exists, status_is, seen_path, find_colon, loop_paths}
use cuda_autocompat.ParseArgs.DefaultPath.{SelfLinker}
use cuda_autocompat.Messages.{Logged, pure, lift, ◌>>=◌, ◌>>◌, verbose, debug, trace}

-- What `dlerror` says after the three calls of `get_default_search_path`, and `argv[optind - 1]` when
-- getopt_long finds an error in a command line.
pub record ArgTexts : Type 0 where
  pub dlopen_error : Bytes
  pub serinfo_size_error : ℕ → Bytes
  pub serinfo_error : ℕ → ℕ → Bytes
  pub last_word : List Bytes → Bytes

abbrev pub skip_path : FilePath → Bytes → Paths → Logged Paths
skip_path src_path reason ps = do
  debug (codes "skip " ++ (src_path ++ (codes " (" ++ (reason ++ codes ")"))))
  pure ps

module _ (sys : System) where
  -- The tests for a path that is not in the cache.
  abbrev pub add_new_logged : FilePath → Bool → Paths → Logged Paths
  add_new_logged src_path dir_mode ps = do
    there ← lift (status_exists (sys.stat src_path))
    if not there then skip_path src_path (codes "does not exist") (seen_path src_path ps) else do
      fits ← lift (status_is dir_mode (sys.stat src_path))
      if fits
          then verbose src_path
            >> pure (record { out = ps.out ++ src_path ∷ []; cache = src_path ∷ ps.cache })
          else skip_path src_path
              (if dir_mode then codes "not a directory" else codes "not a regular file")
              (seen_path src_path ps)

  abbrev pub add_unless_seen_logged : FilePath → Bool → Paths → Logged Paths
  add_unless_seen_logged src_path dir_mode ps =
      if contains_path src_path ps.cache
      then skip_path src_path (codes "already processed") ps
      else add_new_logged src_path dir_mode ps

  unfoldable pub add_path_logged : Bytes → Bool → Paths → Logged Paths
  add_path_logged [] dir_mode ps =
      if not dir_mode
      then debug (codes "skip empty") >> pure ps
      else add_unless_seen_logged (codes ".") dir_mode ps
  add_path_logged (c ∷ src) dir_mode ps = add_unless_seen_logged (c ∷ src) dir_mode ps

  unfoldable pub parse_fields_logged : ℕ → Bytes → Bool → Paths → Logged (Loop Paths)
  parse_fields_logged zero src dir_mode ps = pure out_of_fuel
  parse_fields_logged (suc fuel) src dir_mode ps = elim (find_colon src) [
    | none ↦ do ps' ← add_path_logged src dir_mode ps; pure (answer ps')
    | some (field, rest) ↦ do
      ps' ← add_path_logged field dir_mode ps
      parse_fields_logged fuel rest dir_mode ps'
  ]

  unfoldable pub parse_paths_logged : Bytes → Bool → Paths → Logged Paths
  parse_paths_logged [] dir_mode ps = pure ps
  parse_paths_logged (c ∷ src) dir_mode ps = do
    r ← parse_fields_logged (suc (length (c ∷ src))) (c ∷ src) dir_mode ps
    pure (loop_paths sys ps r)

  unfoldable pub add_directories_logged : List Bytes → Paths → Logged Paths
  add_directories_logged [] ps = pure ps
  add_directories_logged (d ∷ ds) ps = do
    ps' ← add_path_logged d true ps
    add_directories_logged ds ps'

  -- A call of the dynamic linker that fails.
  abbrev pub linker_failed : Bytes → Paths → Logged (Bool × Paths)
  linker_failed error ps = do trace error; pure (false, ps)

  unfoldable pub get_default_search_path_logged :
      SelfLinker → ArgTexts → Paths → Logged (Bool × Paths)
  get_default_search_path_logged linker texts ps = elim linker.dlopen_self [
    | none ↦ linker_failed texts.dlopen_error ps
    | some handle ↦ elim (linker.serinfo_size handle) [
      | none ↦ linker_failed (texts.serinfo_size_error handle) ps
      | some dls_cnt ↦
          if dls_cnt == 0 then pure (false, ps) else elim (linker.serinfo handle dls_cnt) [
            | none ↦ linker_failed (texts.serinfo_error handle dls_cnt) ps
            | some names ↦ do ps' ← add_directories_logged (take dls_cnt names) ps; pure (true, ps')
          ]
    ]
  ]
