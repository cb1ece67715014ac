-- ===== src/Messages/Refine/Args.antt =====
-- The functions of search/parse_args.cxx that add paths, with and without their messages.
use cuda_autocompat.Base.{
  ℕ, zero, suc, ◌≡◌, refl, subst, Bool, true, false, not, none, some, List, [], ◌∷◌, ◌++◌,
  if◌then◌else◌, ◌==◌, length, Bytes, codes, take, arith,
}
use cuda_autocompat.FilePath.{FilePath}
use cuda_autocompat.Search.{returned, ◌>>=◌ as bind, System, contains_path}
use cuda_autocompat.ParseArgs.{
  Paths, status_exists, status_is, seen_path, find_colon, add_new, add_unless_seen, add_path,
  parse_fields, parse_paths, add_directories,
}
use cuda_autocompat.ParseArgs.DefaultPath.{SelfLinker, query_linker, get_default_search_path}
use cuda_autocompat.Logging.{level_verbose}
use cuda_autocompat.Messages.Args.{
  ArgTexts, skip_path, add_new_logged, add_unless_seen_logged, add_path_logged, parse_fields_logged,
  parse_paths_logged, add_directories_logged, linker_failed, get_default_search_path_logged,
}
use cuda_autocompat.Messages.Refine.{
  Refines, IsVerbose, pure-Refines, lift-Refines, bind-Refines, say-Refines, if-Refines,
  option-Refines, if_returned,
}

skip_path-Refines :
    (src_path : FilePath) (reason : Bytes) (ps : Paths)
    → Refines IsVerbose (skip_path src_path reason ps) (returned ps)
skip_path-Refines src_path reason ps = say-Refines refl (pure-Refines ps)

module _ (sys : System) where
  add_new_logged-Refines :
      (src_path : FilePath) (dir_mode : Bool) (ps : Paths)
      → Refines IsVerbose
          (add_new_logged sys src_path dir_mode ps)
          (add_new sys src_path dir_mode ps)
  unfolding add_new
  add_new_logged-Refines src_path dir_mode ps =
      let added : Paths = record { out = ps.out ++ src_path ∷ []; cache = src_path ∷ ps.cache } in
      let seen : Paths = seen_path src_path ps in
      let reason = if dir_mode then codes "not a directory" else codes "not a regular file" in
      bind-Refines (lift-Refines (status_exists (sys.stat src_path))) (λ there.
        if-Refines (not there) (skip_path-Refines src_path (codes "does not exist") seen) (
          bind-Refines (lift-Refines (status_is dir_mode (sys.stat src_path))) (λ fits.
            subst (Refines IsVerbose _) (if_returned fits added seen) (
              if-Refines fits
                (say-Refines {level = level_verbose} {text = src_path} refl (pure-Refines added))
                (skip_path-Refines src_path reason seen)))))

  add_unless_seen_logged-Refines :
      (src_path : FilePath) (dir_mode : Bool) (ps : Paths)
      → Refines IsVerbose
          (add_unless_seen_logged sys src_path dir_mode ps)
          (add_unless_seen sys src_path dir_mode ps)
  unfolding add_unless_seen
  add_unless_seen_logged-Refines src_path dir_mode ps =
      if-Refines (contains_path src_path ps.cache)
        (skip_path-Refines src_path (codes "already processed") ps)
        (add_new_logged-Refines src_path dir_mode ps)

  add_path_logged-Refines :
      (src : Bytes) (dir_mode : Bool) (ps : Paths)
      → Refines IsVerbose (add_path_logged sys src dir_mode ps) (add_path sys src dir_mode ps)
  unfolding add_path_logged add_path
  add_path_logged-Refines [] dir_mode ps =
      if-Refines (not dir_mode) (say-Refines refl (pure-Refines ps))
        (add_unless_seen_logged-Refines (codes ".") dir_mode ps)
  add_path_logged-Refines (c ∷ src) dir_mode ps =
      add_unless_seen_logged-Refines (c ∷ src) dir_mode ps

  parse_fields_logged-Refines :
      (fuel : ℕ) (src : Bytes) (dir_mode : Bool) (ps : Paths)
      → Refines IsVerbose
          (parse_fields_logged sys fuel src dir_mode ps)
          (parse_fields sys fuel src dir_mode ps)
  unfolding parse_fields_logged parse_fields
  parse_fields_logged-Refines zero src dir_mode ps = pure-Refines _
  parse_fields_logged-Refines (suc fuel) src dir_mode ps =
      option-Refines (find_colon src)
        (bind-Refines (add_path_logged-Refines src dir_mode ps) (λ ps'. pure-Refines _))
        (λ found e.
          bind-Refines (add_path_logged-Refines found.0 dir_mode ps)
            (λ ps'. parse_fields_logged-Refines fuel found.1 dir_mode ps'))

  pub parse_paths_logged-Refines :
      (src : Bytes) (dir_mode : Bool) (ps : Paths)
      → Refines IsVerbose (parse_paths_logged sys src dir_mode ps) (parse_paths sys src dir_mode ps)
  unfolding parse_paths_logged parse_paths
  parse_paths_logged-Refines [] dir_mode ps = pure-Refines ps
  parse_paths_logged-Refines (c ∷ src) dir_mode ps =
      bind-Refines (parse_fields_logged-Refines (suc (length (c ∷ src))) (c ∷ src) dir_mode ps)
        (λ r. pure-Refines _)

  add_directories_logged-Refines :
      (ds : List Bytes) (ps : Paths)
      → Refines IsVerbose (add_directories_logged sys ds ps) (add_directories sys ds ps)
  unfolding add_directories_logged add_directories
  add_directories_logged-Refines [] ps = pure-Refines ps
  add_directories_logged-Refines (d ∷ ds) ps =
      bind-Refines (add_path_logged-Refines d true ps)
        (λ ps'. add_directories_logged-Refines ds ps')

  linker_failed-Refines :
      (error : Bytes) (ps : Paths)
      → Refines IsVerbose (linker_failed sys error ps) (returned (false, ps))
  linker_failed-Refines error ps = say-Refines refl (pure-Refines _)

  -- The calls of the dynamic linker, with the directories added where they are known.
  default_by_cases :
      (linker : SelfLinker) (ps : Paths)
      → (elim linker.dlopen_self [
        | none ↦ returned (false, ps)
        | some handle ↦ elim (linker.serinfo_size handle) [
          | none ↦ returned (false, ps)
          | some dls_cnt ↦
              if dls_cnt == 0 then returned (false, ps) else elim (linker.serinfo handle dls_cnt) [
                | none ↦ returned (false, ps)
                | some names ↦
                    bind (add_directories sys (take dls_cnt names) ps) (λ ps'. returned (true, ps'))
              ]
        ]
      ])
        ≡ get_default_search_path sys linker ps
  unfolding get_default_search_path query_linker
  default_by_cases linker ps = ground arith

  pub get_default_search_path_logged-Refines :
      (linker : SelfLinker) (texts : ArgTexts) (ps : Paths)
      → Refines IsVerbose
          (get_default_search_path_logged sys linker texts ps)
          (get_default_search_path sys linker ps)
  unfolding get_default_search_path_logged
  get_default_search_path_logged-Refines linker texts ps =
      subst (Refines IsVerbose _) (default_by_cases linker ps) (
        option-Refines linker.dlopen_self (linker_failed-Refines texts.dlopen_error ps) (λ handle e.
          option-Refines (linker.serinfo_size handle)
            (linker_failed-Refines (texts.serinfo_size_error handle) ps)
            (λ cnt f. if-Refines (cnt == 0) (pure-Refines _) (
              option-Refines (linker.serinfo handle cnt)
                (linker_failed-Refines (texts.serinfo_error handle cnt) ps)
                (λ names g.
                  bind-Refines (add_directories_logged-Refines _ ps) (λ ps'. pure-Refines _))))))
