-- ===== src/Examples/Status.antt =====
-- The exit status of the programs of examples/.
use cuda_autocompat.Base.{
  ℕ, ◌≡◌, refl, Bool, true, false, none, some, List, [], ◌∷◌, if◌then◌else◌, Bytes, codes, arith,
}
use cuda_autocompat.DlLibrary.{Linker, DlLibrary, lazy_local, get_path}
use cuda_autocompat.DlLibrary.Symbols.{
  IsHeld, IsFresh, IsOver, with_library, get_function_symbol_lem, with_library_lem,
  close_library-IsHeld, close_library-IsFresh,
}
use cuda_autocompat.Search.Main.{exit_success, exit_failure}
use cuda_autocompat.Examples.{
  Line, Run, DriverFunctions, RuntimeFunctions, log, dl_error, look_up, log_path, call_driver,
  call_runtime, cuda_cu_init, cudart_cuda_set_device,
}

-- What cuda_cuInit.cxx looks up.
abbrev pub driver_functions : List Bytes
driver_functions =
    codes "cuGetErrorName"
    ∷ codes "cuGetErrorString"
    ∷ codes "cuDriverGetVersion"
    ∷ codes "cuInit"
    ∷ []

-- What cudart_cudaSetDevice.cxx looks up.
abbrev pub runtime_functions : List Bytes
runtime_functions =
    codes "cudaGetErrorName"
    ∷ codes "cudaGetErrorString"
    ∷ codes "cudaDriverGetVersion"
    ∷ codes "cudaRuntimeGetVersion"
    ∷ codes "cudaSetDevice"
    ∷ []

module _ (linker : Linker) where
  unfoldable pub exports_from : ℕ → List Bytes → Bool
  exports_from h [] = true
  exports_from h (name ∷ names) = elim (linker.dlsym h name) [
    | none ↦ false
    | some f ↦ exports_from h names
  ]

  -- The library opens and has all of these symbols.
  abbrev pub exports : Bytes → List Bytes → Bool
  exports path names = elim (linker.dlopen path lazy_local) [
    | none ↦ false
    | some h ↦ exports_from h names
  ]

  record Exits (found : Bool) (r : Run) : Type 0 where
    exit_status : r.status ≡ (if found then exit_success else exit_failure)
    over : IsOver r.library

  -- The functions that are still to be looked up, and what comes after.
  abbrev Continues : ℕ → List Bytes → (DlLibrary → Run) → Type 0
  Continues h names k = (s : DlLibrary) → IsHeld h s → Exits (exports_from h names) (k s)

  Exits-log : (found : Bool) (l : Line) (r : Run) → Exits found r → Exits found (log l r)
  unfolding log
  Exits-log found l r e = record { exit_status = e.exit_status; over = e.over }

  Exits-dl_error : (h : ℕ) (s : DlLibrary) → IsHeld h s → Exits false (dl_error linker s)
  unfolding dl_error log
  Exits-dl_error h s held = record {
    exit_status = refl;
    over = close_library-IsHeld linker h s held;
  }

  Exits-dl_error_fresh : (s : DlLibrary) → IsFresh s → Exits false (dl_error linker s)
  unfolding dl_error log
  Exits-dl_error_fresh s fresh = record {
    exit_status = refl;
    over = close_library-IsFresh linker s fresh;
  }

  Continues-look_up :
      (h : ℕ) (name : Bytes) (names : List Bytes) (found : ℕ → DlLibrary → Run)
      → ((f : ℕ) → Continues h names (found f))
      → Continues h (name ∷ names) (look_up linker name found)
  unfolding look_up exports_from
  Continues-look_up h name names found k s held = Exits-log (exports_from h (name ∷ names)) _ _ (
      get_function_symbol_lem linker (Exits (exports_from h (name ∷ names))) h name
        (dl_error linker) found s held
        (λ s' held' e. rw (exports_from, e) (Exits-dl_error h s' held'))
        λ f s' held' e. rw (exports_from, e) (k f s' held'))

  Continues-log_path :
      (h : ℕ) (names : List Bytes) (k : DlLibrary → Run)
      → Continues h names k
      → Continues h names (log_path linker k)
  unfolding get_path log_path
  Continues-log_path h names k next s held =
      Exits-log (exports_from h names) _ (k (get_path linker s).1)
        (next (get_path linker s).1 (ground arith))

  Exits-with_library :
      (path : Bytes) (names : List Bytes) (k : DlLibrary → Run)
      → ((h : ℕ) → Continues h names k)
      → Exits (exports path names) (with_library linker path (dl_error linker) k)
  Exits-with_library path names k next =
      with_library_lem linker (Exits (exports path names)) path (dl_error linker) k
        (λ s fresh e. rw (exports, e) (Exits-dl_error_fresh s fresh))
        λ h s held e. rw (exports, e) (next h s held)

  Continues-call_driver :
      (api : DriverFunctions) (h f g v i : ℕ) → Continues h [] (call_driver linker api f g v i)
  unfolding call_driver exports_from log
  Continues-call_driver api h f g v i s held = record {
    exit_status = ground arith;
    over = ground (arith, close_library-IsHeld linker h s held);
  }

  Continues-call_runtime :
      (api : RuntimeFunctions) (h f g v w d : ℕ)
      → Continues h [] (call_runtime linker api f g v w d)
  unfolding call_runtime exports_from log
  Continues-call_runtime api h f g v w d s held = record {
    exit_status = ground arith;
    over = ground (arith, close_library-IsHeld linker h s held);
  }

  Exits-cuda_cu_init :
      (api : DriverFunctions)
      → Exits (exports (codes "libcuda.so.1") driver_functions) (cuda_cu_init linker api)
  unfolding cuda_cu_init
  Exits-cuda_cu_init api = Exits-log _ _ _ (
      Exits-with_library (codes "libcuda.so.1") driver_functions _ λ h. Continues-log_path h _ _ (
        Continues-look_up h _ _ _ λ f. Continues-look_up h _ _ _ λ g.
          Continues-look_up h _ _ _
            λ v. Continues-look_up h _ _ _ λ i. Continues-call_driver api h f g v i))

  Exits-cudart_cuda_set_device :
      (api : RuntimeFunctions)
      → Exits
          (exports (codes "libcudart.so.12") runtime_functions)
          (cudart_cuda_set_device linker api)
  unfolding cudart_cuda_set_device
  Exits-cudart_cuda_set_device api = Exits-log _ _ _ (
      Exits-with_library (codes "libcudart.so.12") runtime_functions _ λ h.
        Continues-log_path h _ _ (
          Continues-look_up h _ _ _ λ f. Continues-look_up h _ _ _ λ g.
            Continues-look_up h _ _ _ λ v.
              Continues-look_up h _ _ _
                λ w. Continues-look_up h _ _ _ λ d. Continues-call_runtime api h f g v w d))

  -- Both programs exit with success exactly if their library opens and has all the functions that
  -- they look up, whatever these return. In every case they have closed the library if it was open.
  pub cuda_cu_init-cudart_cuda_set_device :
      (driver : DriverFunctions) (runtime : RuntimeFunctions)
      → ((cuda_cu_init linker driver).status ≡ (
          if exports (codes "libcuda.so.1") driver_functions then exit_success else exit_failure))
        × ((cudart_cuda_set_device linker runtime).status ≡ (
            if exports (codes "libcudart.so.12") runtime_functions
            then exit_success
            else exit_failure))
        × IsOver (cuda_cu_init linker driver).library
        × IsOver (cudart_cuda_set_device linker runtime).library
  cuda_cu_init-cudart_cuda_set_device driver runtime =
      let first = Exits-cuda_cu_init driver in
      let second = Exits-cudart_cuda_set_device runtime in
      (first.exit_status, second.exit_status, first.over, second.over)
