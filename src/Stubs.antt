-- ===== src/Stubs.antt =====
-- tests/stubs: the driver library (cuda_error.c, cuda_init.c, cuda_version.c) and the runtime library
-- (cudart_driver.c, cudart_error.c, cudart_version.c) that the tests of the search build. The
-- versions that the build defines, the loader and the driver's function are parameters. A pointer
-- to a variable is `none` for NULL, or its value.
pub mod Runtime
pub mod Tree
pub mod Driver
mod Tests
use cuda_autocompat.Base.{
  ℕ, Bool, true, false, Option, none, some, List, [], ◌∷◌, ◌++◌, if◌then◌else◌, ◌==◌, Bytes, codes,
}
use cuda_autocompat.Base.Int.{ℤ, pos, negsuc}
use cuda_autocompat.DlLibrary.{Linker}

-- `case n:`
abbrev is_case : ℕ → ℤ → Bool
is_case n (pos m) = m == n
is_case n (negsuc m) = false

-- The codes that the functions return, by the values that CUresult and cudaError_t share.
abbrev pub success : ℤ
success = pos 0

abbrev invalid_value : ℤ
invalid_value = pos 1

-- The codes that only the runtime returns.
abbrev pub initialization_error : ℤ
initialization_error = pos 3

abbrev system_driver_mismatch : ℤ
system_driver_mismatch = pos 803

-- get_error_impl of cuda_error.c, for three messages: the result and `*pStr`.
abbrev get_error_impl :
    Bytes → Bytes → Bytes → ℤ → Option (Option Bytes) → ℤ × Option (Option Bytes)
get_error_impl on_success on_invalid on_unknown error none = (invalid_value, none)
get_error_impl on_success on_invalid on_unknown error (some str) =
    if is_case 0 error
    then (success, some (some on_success))
    else if is_case 1 error
    then (success, some (some on_invalid))
    else if is_case 999 error
    then (success, some (some on_unknown))
    else (invalid_value, some none)

unfoldable pub cu_get_error_name : ℤ → Option (Option Bytes) → ℤ × Option (Option Bytes)
cu_get_error_name =
    get_error_impl (codes "CUDA_SUCCESS") (codes "CUDA_ERROR_INVALID_VALUE")
      (codes "CUDA_ERROR_UNKNOWN")

unfoldable pub cu_get_error_string : ℤ → Option (Option Bytes) → ℤ × Option (Option Bytes)
cu_get_error_string =
    get_error_impl (codes "no error") (codes "invalid argument") (codes "unknown error")

unfoldable pub cu_init : ℕ → ℤ
cu_init flags = success

-- The first argument is DRIVER_VERSION.
unfoldable pub cu_driver_get_version : ℤ → Option ℤ → ℤ × Option ℤ
cu_driver_get_version driver_version none = (invalid_value, none)
cu_driver_get_version driver_version (some ver) = (success, some driver_version)

-- The first argument is RUNTIME_VERSION.
unfoldable pub cuda_runtime_get_version : ℤ → Option ℤ → ℤ × Option ℤ
cuda_runtime_get_version runtime_version none = (invalid_value, none)
cuda_runtime_get_version runtime_version (some ver) = (success, some runtime_version)

-- get_error_impl of cudart_error.c, for five messages.
abbrev runtime_error_impl : Bytes → Bytes → Bytes → Bytes → Bytes → ℤ → Bytes
runtime_error_impl on_success on_insufficient on_invalid on_mismatch on_unknown error =
    if is_case 0 error
    then on_success
    else if is_case 35 error
    then on_insufficient
    else if is_case 1 error
    then on_invalid
    else if is_case 803 error
    then on_mismatch
    else if is_case 999 error
    then on_unknown
    else codes "unrecognized error code"

unfoldable pub cuda_get_error_name : ℤ → Bytes
cuda_get_error_name =
    runtime_error_impl (codes "cudaSuccess") (codes "cudaErrorInsufficientDriver")
      (codes "cudaErrorInvalidValue") (codes "cudaErrorSystemDriverMismatch")
      (codes "cudaErrorUnknown")

unfoldable pub cuda_get_error_string : ℤ → Bytes
cuda_get_error_string =
    runtime_error_impl (codes "no error")
      (codes "CUDA driver version is insufficient for CUDA runtime version")
      (codes "invalid argument")
      (codes "system has unsupported display driver / cuda driver combination")
      (codes "unknown error")

-- The static variables of cudart_driver.c. `opened` and `closed` are the handles that `dlopen` gave
-- and that `dlclose` got so far.
pub record RuntimeState : Type 0 where
  pub driver_handle : Option ℕ
  pub cu_driver_get_version : Option ℕ
  pub opened : List ℕ
  pub closed : List ℕ

abbrev pub no_driver : RuntimeState
no_driver = record { driver_handle = none; cu_driver_get_version = none; opened = []; closed = [] }

-- `RTLD_NOW | RTLD_LOCAL`
abbrev pub now_local : ℕ
now_local = 2

-- What a call returns, `*ver`, and the variables after it.
pub record Answer : Type 0 where
  pub ret : ℤ
  pub ver : Option ℤ
  pub state : RuntimeState

module _ (linker : Linker) where
  unfoldable pub load_driver : RuntimeState → ℕ × RuntimeState
  load_driver s = elim s.driver_handle [
    | some h ↦ (1, s)
    | none ↦ elim (linker.dlopen (codes "libcuda.so.1") now_local) [
      | none ↦ (2, s)
      | some h ↦
          let s' = record s { driver_handle = some h; opened = s.opened ++ h ∷ [] } in
          elim (linker.dlsym h (codes "cuDriverGetVersion")) [
            | none ↦ (0, s')
            | some f ↦ (0, record s' { cu_driver_get_version = some f })
          ]
    ]
  ]

  unfoldable pub unload_driver : RuntimeState → RuntimeState
  unload_driver s = elim s.driver_handle [
    | none ↦ s
    | some h ↦ record {
      driver_handle = none;
      cu_driver_get_version = none;
      opened = s.opened;
      closed = s.closed ++ h ∷ [];
    }
  ]

  -- `run f ver` is the return code of the function at `f` on a pointer to `ver`, and its new value.
  unfoldable pub cuda_driver_get_version : (ℕ → ℤ → ℤ × ℤ) → Option ℤ → RuntimeState → Answer
  cuda_driver_get_version run none s = record { ret = invalid_value; ver = none; state = s }
  cuda_driver_get_version run (some ver) s =
      let (loaded, s') = load_driver s in
      if loaded == 0
      then elim s'.cu_driver_get_version [
        | none ↦ record { ret = system_driver_mismatch; ver = some ver; state = s' }
        | some f ↦ record { ret = (run f ver).0; ver = some (run f ver).1; state = s' }
      ]
      else record { ret = initialization_error; ver = some ver; state = s' }
