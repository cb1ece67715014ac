-- ===== src/Messages/Refine/Load.antt =====
-- `get_libcuda_api_ver` of search/search.cxx with and without its messages.
use cuda_autocompat.Base.{
  ℕ, ◌≡◌, refl, subst, Bool, not, some, List, if◌then◌else◌, Bytes, codes, arith, Option-cases, inl,
  inr,
}
use cuda_autocompat.Base.Int.{ℤ, negsuc, is_zero}
use cuda_autocompat.FilePath.{FilePath}
use cuda_autocompat.Search.{
  Throws, returned, System, Library, is_dir, lookup_version, load_version, cached_version,
  get_libcuda_api_ver,
}
use cuda_autocompat.Messages.Refine.{
  Refines, IsVerbose, pure-Refines, bind-Refines, say-Refines, if-Refines, option-Refines,
  stat-Refines, if_same, if_returned, stat_returned, option_returned,
}
use cuda_autocompat.Messages.{Logged, pure, Texts}
use cuda_autocompat.Messages.Load.{
  dlsym_logged, close_logged, log_error_code, call_version_logged, read_version_logged,
  load_version_logged, get_libcuda_api_ver_logged,
}

-- The four tests of the model without messages.
symbols_by_cases :
    {A : Type 0} (c n t v : Bool) (present failed called : A)
    → (if c
        then returned present
        else (if n
            then (if t then (if v then returned called else returned failed) else returned failed)
            else returned failed))
      ≡ returned (
          if c
          then present
          else if not n
          then failed
          else if not t
          then failed
          else if not v
          then failed
          else called)
symbols_by_cases c n t v present failed called = ground arith

module _ (sys : System) (texts : Texts) where
  close_logged-Refines :
      (path : FilePath) (r : ℤ × ℤ) → Refines IsVerbose (close_logged sys texts path r) (returned r)
  close_logged-Refines path r = record { erased = ground arith; messages = ground arith }

  dlsym_logged-Refines :
      (path : FilePath) (libcuda : Library) (name : Bytes) {missing found : Logged (ℤ × ℤ)}
      {t u : Throws (ℤ × ℤ)}
      → Refines IsVerbose missing t
      → Refines IsVerbose found u
      → Refines IsVerbose
          (dlsym_logged sys texts path libcuda name missing found)
          (if libcuda.exports name then u else t)
  dlsym_logged-Refines path libcuda name h k =
      say-Refines refl (if-Refines (libcuda.exports name) k (say-Refines refl h))

  log_error_code-Refines :
      (path : FilePath) (ret : ℤ)
      → Refines IsVerbose (log_error_code sys texts path ret) (returned tt)
  log_error_code-Refines path ret = record { erased = ground arith; messages = ground arith }

  call_version_logged-Refines :
      (path : FilePath) (libcuda : Library)
      → let ver = (libcuda.cu_driver_get_version (negsuc 0)).1 in
        Refines IsVerbose (call_version_logged sys texts path libcuda) (returned (ver, ver))
  call_version_logged-Refines path libcuda =
      let ret = (libcuda.cu_driver_get_version (negsuc 0)).0 in
      let logged : Refines IsVerbose
          (if is_zero ret then pure tt else log_error_code sys texts path ret) (returned tt) =
        subst (Refines IsVerbose _) (if_same (is_zero ret) (returned tt))
          (if-Refines (is_zero ret) (pure-Refines tt) (log_error_code-Refines path ret)) in
      bind-Refines logged (λ u. close_logged-Refines path _)

  read_version_logged-Refines :
      (path : FilePath) (libcuda : Library)
      → sys.dlopen path ≡ some libcuda
      → Refines IsVerbose
          (read_version_logged sys texts path libcuda)
          (returned (load_version sys path))
  unfolding load_version
  read_version_logged-Refines path libcuda e =
      let exports = libcuda.exports in
      let failed = close_logged-Refines path (negsuc 0, negsuc 0) in
      let ver = (libcuda.cu_driver_get_version (negsuc 0)).1 in
      rw (load_version, e)
        (subst (Refines IsVerbose (read_version_logged sys texts path libcuda))
          (symbols_by_cases (exports (codes "cuda_autocompat_version"))
            (exports (codes "cuGetErrorName")) (exports (codes "cuGetErrorString"))
            (exports (codes "cuDriverGetVersion")) (negsuc 1, negsuc 0) (negsuc 0, negsuc 0)
            (ver, ver))
          (dlsym_logged-Refines path libcuda _
            (dlsym_logged-Refines path libcuda _ failed (
              dlsym_logged-Refines path libcuda _ failed (
                dlsym_logged-Refines path libcuda _ failed
                  (call_version_logged-Refines path libcuda))))
            (close_logged-Refines path (negsuc 1, negsuc 0))))

  load_version_logged-Refines :
      (path : FilePath)
      → Refines IsVerbose (load_version_logged sys texts path) (returned (load_version sys path))
  unfolding load_version_logged load_version
  load_version_logged-Refines path = elim (Option-cases (sys.dlopen path)) [
    | inl e ↦
        rw (e, load_version)
          (say-Refines refl (say-Refines refl (pure-Refines (negsuc 0, negsuc 0))))
    | inr (libcuda, e) ↦ rw e (say-Refines refl (read_version_logged-Refines path libcuda e))
  ]

  pub get_libcuda_api_ver_logged-Refines :
      (path : FilePath) (cache : List (ℕ × ℤ))
      → Refines IsVerbose
          (get_libcuda_api_ver_logged sys texts path cache)
          (returned (get_libcuda_api_ver sys path cache))
  unfolding get_libcuda_api_ver_logged get_libcuda_api_ver cached_version
  get_libcuda_api_ver_logged-Refines path cache =
      subst (Refines IsVerbose _) (stat_returned (sys.stat path) _ _ _) (
        say-Refines refl (
          stat-Refines (sys.stat path) (say-Refines refl (pure-Refines _))
            (say-Refines refl (pure-Refines _))
            (λ st. subst (Refines IsVerbose _) (if_returned (is_dir st.kind) _ _) (
              if-Refines (is_dir st.kind) (pure-Refines _) (
                subst (Refines IsVerbose _) (option_returned (lookup_version st.st_ino cache) _ _) (
                  option-Refines (lookup_version st.st_ino cache)
                    (bind-Refines (load_version_logged-Refines path) (λ loaded. pure-Refines _))
                    (λ ver e. say-Refines refl (pure-Refines _))))))))
