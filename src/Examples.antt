-- ===== src/Examples.antt =====
-- examples/cuda_cuInit.cxx and examples/cudart_cudaSetDevice.cxx: programs that look up functions of
-- the driver or of the runtime, call them and write what they return. The functions are a
-- parameter. A line is data, and Text has what std::format makes of it.
pub mod Status
pub mod Text
mod Tests
use cuda_autocompat.Base.{
  ℕ, Bool, true, false, Option, none, some, List, [], ◌∷◌, ◌++◌, if◌then◌else◌, ◌==◌, Bytes, codes,
}
use cuda_autocompat.Base.Int.{ℤ, pos, negsuc, is_zero}
use cuda_autocompat.DlLibrary.{Linker, DlLibrary, close_library, get_path}
use cuda_autocompat.DlLibrary.Symbols.{get_function_symbol, with_library}
use cuda_autocompat.Logging.{Settings, level_info}
use cuda_autocompat.Search.Main.{exit_success, exit_failure}

-- What `main` sets first: lines up to `info`, without a header.
abbrev pub settings : Settings
settings = record {
  max_level = level_info;
  long_level_name = false;
  log_name = codes "main";
  use_timestamp = false;
  use_log_name = false;
  use_level_name = false;
}

-- `{}`, `  ver = {}`, `  ret = {} ({})` and `  ret = {}`
pub data Line : Type 0 where
  line : Bytes → Line
  ver_line : ℤ → Line
  error_line : Option Bytes → Option Bytes → Line
  ret_line : ℤ → Line

-- The exit status of `main`, what it logs, and the library object at the end.
pub record Run : Type 0 where
  pub status : ℕ
  pub output : List Line
  pub library : DlLibrary

unfoldable pub log : Line → Run → Run
log l r = record r { output = l ∷ r.output }

-- The functions at an address. The out-parameters are the last argument, and the last result.
pub record DriverFunctions : Type 0 where
  pub get_error : ℕ → ℤ → Option Bytes → ℤ × Option Bytes
  pub get_version : ℕ → ℤ → ℤ × ℤ
  pub init : ℕ → ℕ → ℤ

pub record RuntimeFunctions : Type 0 where
  pub get_error : ℕ → ℤ → Option Bytes
  pub get_version : ℕ → ℤ → ℤ × ℤ
  pub set_device : ℕ → ℤ → ℤ

-- `if (ret == 0) { log_info("  ver = {}", ver); }`
abbrev log_version : ℤ × ℤ → Run → Run
log_version (ret, ver) r = if is_zero ret then log (ver_line ver) r else r

module _ (linker : Linker) where
  -- A `return`, at which the library is destroyed.
  abbrev pub leave : ℕ → DlLibrary → Run
  leave status s = record { status = status; output = []; library = close_library linker s }

  -- check_dl_error, for a test that fails.
  unfoldable pub dl_error : DlLibrary → Run
  dl_error s = log (line (codes "  " ++ s.last_error)) (leave exit_failure s)

  -- A look-up with its message and check_dl_error.
  unfoldable pub look_up : Bytes → (ℕ → DlLibrary → Run) → DlLibrary → Run
  look_up name found s =
      log (line (codes "Looking up " ++ name)) (get_function_symbol linker name dl_error found s)

  unfoldable pub log_path : (DlLibrary → Run) → DlLibrary → Run
  log_path k s = let (path, s') = get_path linker s in log (line (codes "  " ++ path)) (k s')

  module _ (api : DriverFunctions) where
    -- The line of `log_cuError`. The second function is not called if the first one fails.
    unfoldable pub cu_error : ℕ → ℕ → ℤ → Line
    cu_error cuGetErrorName cuGetErrorString ret =
        let (name_ret, err_name) = api.get_error cuGetErrorName ret none in
        let (string_ret, err_string) = api.get_error cuGetErrorString ret none in
        if is_zero name_ret
        then if is_zero string_ret then error_line err_name err_string else ret_line ret
        else ret_line ret

    -- What is done once the four functions are found.
    unfoldable pub call_driver : ℕ → ℕ → ℕ → ℕ → DlLibrary → Run
    call_driver cuGetErrorName cuGetErrorString cuDriverGetVersion cuInit s =
        let version = api.get_version cuDriverGetVersion (negsuc 0) in
        let log_cuError : ℤ → Run → Run =
          λ ret. log (cu_error cuGetErrorName cuGetErrorString ret) in
        log (line (codes "cuDriverGetVersion:")) (
          log_version version (
            log_cuError version.0 (
              log (line (codes "cuInit:"))
                (log_cuError (api.init cuInit 0) (leave exit_success s)))))

    -- `main` of cuda_cuInit.cxx
    unfoldable pub cuda_cu_init : Run
    cuda_cu_init = log (line (codes "Loading libcuda.so.1")) (
        with_library linker (codes "libcuda.so.1") dl_error (
          log_path (
            look_up (codes "cuGetErrorName") λ name. look_up (codes "cuGetErrorString") λ string.
              look_up (codes "cuDriverGetVersion")
                λ version. look_up (codes "cuInit") λ init. call_driver name string version init)))

  module _ (api : RuntimeFunctions) where
    -- The line of `log_cudaError`.
    unfoldable pub cuda_error : ℕ → ℕ → ℤ → Line
    cuda_error cudaGetErrorName cudaGetErrorString ret = elim (api.get_error cudaGetErrorName ret) [
      | none ↦ ret_line ret
      | some err_name ↦ elim (api.get_error cudaGetErrorString ret) [
        | none ↦ ret_line ret
        | some err_string ↦ error_line (some err_name) (some err_string)
      ]
    ]

    -- What is done once the five functions are found. Both versions are written to one variable.
    unfoldable pub call_runtime : ℕ → ℕ → ℕ → ℕ → ℕ → DlLibrary → Run
    call_runtime cudaGetErrorName cudaGetErrorString cudaDriverGetVersion cudaRuntimeGetVersion
          cudaSetDevice s =
        let driver = api.get_version cudaDriverGetVersion (negsuc 0) in
        let runtime = api.get_version cudaRuntimeGetVersion driver.1 in
        let log_cudaError : ℤ → Run → Run =
          λ ret. log (cuda_error cudaGetErrorName cudaGetErrorString ret) in
        log (line (codes "cudaDriverGetVersion:")) (
          log_version driver (
            log_cudaError driver.0 (
              log (line (codes "cudaRuntimeGetVersion:")) (
                log_version runtime (
                  log_cudaError runtime.0 (
                    log (line (codes "cudaSetDevice:")) (
                      log_cudaError (api.set_device cudaSetDevice (pos 0))
                        (leave exit_success s))))))))

    -- `main` of cudart_cudaSetDevice.cxx
    unfoldable pub cudart_cuda_set_device : Run
    cudart_cuda_set_device = log (line (codes "Loading libcudart.so.12")) (
        with_library linker (codes "libcudart.so.12") dl_error (
          log_path (
            look_up (codes "cudaGetErrorName") λ name.
              look_up (codes "cudaGetErrorString") λ string.
                look_up (codes "cudaDriverGetVersion") λ driver.
                  look_up (codes "cudaRuntimeGetVersion") λ runtime.
                    look_up (codes "cudaSetDevice")
                      λ device. call_runtime name string driver runtime device)))
