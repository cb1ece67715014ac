-- ===== src/Messages/Refine/Update.antt =====
-- `update_libcuda` of search/search.cxx with and without its messages.
use cuda_autocompat.Base.{
  ℕ, zero, suc, ◌≡◌, refl, subst, Bool, false, not, List, ◌∷◌, if◌then◌else◌, Bytes, codes, arith,
}
use cuda_autocompat.Base.Int.{ℤ, pos, negsuc, ltb_ℤ}
use cuda_autocompat.FilePath.{FilePath, parent_path, ◌/path◌}
use cuda_autocompat.Search.{
  Throws, returned, ◌>>=◌ as bind, System, Stat, stat_ok, not_found, stat_error, SearchState,
  is_dir, contains_path, contains_inode, check_file_exists, check_companions, offer, with_version,
  with_directory, update_libcuda,
}
use cuda_autocompat.Messages.Refine.{
  Refines, IsVerbose, pure-Refines, lift-Refines, bind-Refines, say-Refines, if-Refines,
  option-Refines, stat-Refines, if_returned, option_returned,
}
use cuda_autocompat.Messages.Refine.Load.{get_libcuda_api_ver_logged-Refines}
use cuda_autocompat.Messages.{Logged, Texts}
use cuda_autocompat.Messages.Update.{
  skip, offer_logged, require, with_version_logged, with_directory_logged, stat_failed,
  look_at_directory, update_libcuda_logged,
}

-- The end of the three tests, of a reference without messages.
companions_by_cases :
    {A : Type 0} (nvvm ptx debugger : Throws Bool) (failed done : A)
    → bind nvvm (λ x.
      if not x
      then returned failed
      else bind ptx (λ y.
        if not y
        then returned failed
        else bind debugger (λ z. if not z then returned failed else returned done)))
      ≡ bind
          (bind nvvm (λ x.
            if not x
            then returned false
            else bind ptx (λ y. if not y then returned false else debugger)))
          (λ complete. returned (if complete then done else failed))
companions_by_cases nvvm ptx debugger failed done = ground arith

module _ (sys : System) (texts : Texts) where
  skip-Refines :
      (reason : Bytes) (s : SearchState)
      → Refines IsVerbose (skip reason s) (returned (negsuc 0, s))
  skip-Refines reason s = say-Refines refl (pure-Refines _)

  offer_logged-Refines :
      (ver : ℤ) (dir : FilePath) (s : SearchState)
      → Refines IsVerbose (offer_logged ver dir s) (returned (offer ver dir s))
  offer_logged-Refines ver dir s = subst (Refines IsVerbose _) (option_returned s.found _ _) (
      say-Refines refl (
        option-Refines s.found (say-Refines refl (pure-Refines _)) (λ best e.
          subst (Refines IsVerbose _) (if_returned (ltb_ℤ best.version ver) _ _) (
            if-Refines (ltb_ℤ best.version ver) (say-Refines refl (pure-Refines _))
              (say-Refines refl (pure-Refines _))))))

  require-Refines :
      (dir : FilePath) (file name : Bytes) (s : SearchState) {next : Logged (ℤ × SearchState)}
      {t : Throws (ℤ × SearchState)}
      → Refines IsVerbose next t
      → Refines IsVerbose (require sys texts dir file name s next) (
          bind
            (check_file_exists sys (dir /path file))
            (λ there. if not there then returned (negsuc 0, s) else t))
  require-Refines dir file name s h =
      bind-Refines (lift-Refines _) (λ there. if-Refines (not there) (skip-Refines _ s) h)

  files_there-Refines :
      (dir : FilePath) (s : SearchState) (ver : ℤ)
      → Refines IsVerbose
          (require sys texts dir (codes "libnvidia-nvvm.so.4") (codes "libnvidia-nvvm.so.4") s (
            require sys texts dir
              (codes "libnvidia-ptxjitcompiler.so.1")
              (codes "libnvidia-nvvm.so.4")
              s
              (require sys texts dir
                (codes "libcudadebugger.so.1")
                (codes "libcudadebugger.so.1")
                s
                (offer_logged ver dir s))))
          (bind
            (check_companions sys dir)
            (λ complete. returned (if complete then offer ver dir s else (negsuc 0, s))))
  unfolding check_companions
  files_there-Refines dir s ver =
      let nvvm = codes "libnvidia-nvvm.so.4" in
      let ptx = codes "libnvidia-ptxjitcompiler.so.1" in
      let debugger = codes "libcudadebugger.so.1" in
      subst (Refines IsVerbose _)
        (companions_by_cases (check_file_exists sys (dir /path nvvm))
          (check_file_exists sys (dir /path ptx)) (check_file_exists sys (dir /path debugger))
          (negsuc 0, s) (offer ver dir s))
        (require-Refines dir nvvm nvvm s (
          require-Refines dir ptx nvvm s
            (require-Refines dir debugger debugger s (offer_logged-Refines ver dir s))))

  with_version_logged-Refines :
      (dir : FilePath) (s : SearchState) (ver : ℤ)
      → Refines IsVerbose (with_version_logged sys texts dir s ver) (with_version sys dir s ver)
  unfolding with_version
  with_version_logged-Refines dir s (pos n) = files_there-Refines dir s (pos n)
  with_version_logged-Refines dir s (negsuc zero) = skip-Refines (codes "library error") s
  with_version_logged-Refines dir s (negsuc (suc zero)) =
      skip-Refines (codes "autocompat detected") s
  with_version_logged-Refines dir s (negsuc (suc (suc zero))) = skip-Refines (codes "stat error") s
  with_version_logged-Refines dir s (negsuc (suc (suc (suc zero)))) =
      skip-Refines (codes "directory") s
  with_version_logged-Refines dir s (negsuc (suc (suc (suc (suc n))))) =
      files_there-Refines dir s (negsuc (suc (suc (suc (suc n)))))

  with_directory_logged-Refines :
      (path dir : FilePath) (s : SearchState) (st : Stat)
      → Refines IsVerbose
          (with_directory_logged sys texts path dir s st)
          (with_directory sys path dir s st)
  unfolding with_directory
  with_directory_logged-Refines path dir s st =
      let checked : ℤ × List (ℕ × ℤ) → SearchState = λ found. record s {
        dir_inode_cache = st.st_ino ∷ s.dir_inode_cache;
        ver_cache = found.1;
      } in
      if-Refines (not (is_dir st.kind)) (skip-Refines (codes "directory error") s) (
        if-Refines (contains_inode st.st_ino s.dir_inode_cache)
          (say-Refines refl (skip-Refines (codes "directory inode already checked") s))
          (bind-Refines (get_libcuda_api_ver_logged-Refines sys texts path s.ver_cache)
            (λ found. with_version_logged-Refines dir (checked found) found.0)))

  stat_failed-Refines :
      (dir : FilePath) (s : SearchState)
      → Refines IsVerbose (stat_failed sys texts dir s) (returned (negsuc 0, s))
  stat_failed-Refines dir s = say-Refines refl (skip-Refines (codes "directory stat error") s)

  look_at_directory-Refines :
      (path dir : FilePath) (s : SearchState)
      → Refines IsVerbose (look_at_directory sys texts path dir s) (elim (sys.stat dir) [
        | not_found ↦ returned (negsuc 0, s)
        | stat_error ↦ returned (negsuc 0, s)
        | stat_ok st ↦ with_directory sys path dir s st
      ])
  look_at_directory-Refines path dir s = say-Refines refl (
      stat-Refines (sys.stat dir) (stat_failed-Refines dir s) (stat_failed-Refines dir s)
        (with_directory_logged-Refines path dir s))

  pub update_libcuda_logged-Refines :
      (path : FilePath) (s : SearchState)
      → Refines IsVerbose (update_libcuda_logged sys texts path s) (update_libcuda sys path s)
  unfolding update_libcuda update_libcuda_logged
  update_libcuda_logged-Refines path s = say-Refines refl (
      if-Refines (contains_path (parent_path path) s.dir_path_cache)
        (skip-Refines (codes "directory already checked") s)
        (look_at_directory-Refines path (parent_path path) _))
