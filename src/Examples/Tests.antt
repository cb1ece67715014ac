-- ===== src/Examples/Tests.antt =====
-- The example programs with the stub libraries of the tests.
use cuda_autocompat.Base.{
  Bytes, ◌≡◌, ◌≢◌, refl, true, some, none, arith, [], ◌∷◌, ◌++◌, if◌then◌else◌, ◌==◌, bytes_eq,
  codes,
}
use cuda_autocompat.Base.Int.{pos}
use cuda_autocompat.DlLibrary.{Linker, open_library, get_path, get_symbol_pointer}
use cuda_autocompat.DlLibrary.Symbols.{IsOver, with_library, get_function_symbol}
use cuda_autocompat.Search.Main.{exit_success, exit_failure}
use cuda_autocompat.Stubs.{
  success, cu_get_error_name, cu_get_error_string, cu_init, cu_driver_get_version,
  cuda_get_error_name, cuda_get_error_string,
}
use cuda_autocompat.Stubs.Driver.{full, symbols, functions, look_up_symbol}
use cuda_autocompat.Logging.{log_info}
use cuda_autocompat.Examples.{
  settings, line, ver_line, error_line, RuntimeFunctions, log, dl_error, look_up, log_path,
  cu_error, call_driver, cuda_cu_init, cudart_cuda_set_device,
}
use cuda_autocompat.Messages.Decimal.{digits, format_int}
use cuda_autocompat.Examples.Text.{line_text, written, SetsText, written-cuda_cu_init}
use cuda_autocompat.Examples.Status.{
  exports, driver_functions, runtime_functions, cuda_cu_init-cudart_cuda_set_device,
}

-- Handle 7 is the driver, and handle 8 the stub of the runtime, which has no cudaSetDevice.
abbrev linker : Linker
linker = record {
  dlopen = λ path flags. if bytes_eq path (codes "libcuda.so.1") then some 7 else some 8;
  dlclose = λ h. true;
  dlsym = λ h. look_up_symbol (if h == 7 then symbols full else []);
  link_name = λ h. some (codes "/d/libcuda.so.1");
  dlerror = codes "no symbol";
}

abbrev runtime : RuntimeFunctions
runtime = record {
  get_error =
      λ f error. some (if f == 1 then cuda_get_error_name error else cuda_get_error_string error);
  get_version = λ f ver. (success, pos 3045);
  set_device = λ f device. success;
}

-- A message is a line of its own.
log_info_plain : (now msg : Bytes) → log_info settings now msg ≡ msg ++ b'\n' ∷ []
unfolding log_info
log_info_plain now msg = refl

driver_output :
    (cuda_cu_init linker (functions (pos 2034))).output
    ≡ line (codes "Loading libcuda.so.1")
      ∷ line (codes "  /d/libcuda.so.1")
      ∷ line (codes "Looking up cuGetErrorName")
      ∷ line (codes "Looking up cuGetErrorString")
      ∷ line (codes "Looking up cuDriverGetVersion")
      ∷ line (codes "Looking up cuInit")
      ∷ line (codes "cuDriverGetVersion:")
      ∷ ver_line (pos 2034)
      ∷ error_line (some (codes "CUDA_SUCCESS")) (some (codes "no error"))
      ∷ line (codes "cuInit:")
      ∷ error_line (some (codes "CUDA_SUCCESS")) (some (codes "no error"))
      ∷ []
unfolding cuda_cu_init call_driver cu_error log dl_error look_up log_path with_library
    get_function_symbol open_library get_path get_symbol_pointer bytes_eq cu_get_error_name
    cu_get_error_string cu_init cu_driver_get_version
driver_output = refl

cuda_cu_init-cudart_cuda_set_device_example :
    ((cuda_cu_init linker (functions (pos 2034))).status ≡ (
      if exports linker (codes "libcuda.so.1") driver_functions
      then exit_success
      else exit_failure))
    × ((cudart_cuda_set_device linker runtime).status ≡ (
        if exports linker (codes "libcudart.so.12") runtime_functions
        then exit_success
        else exit_failure))
    × IsOver (cuda_cu_init linker (functions (pos 2034))).library
    × IsOver (cudart_cuda_set_device linker runtime).library
cuda_cu_init-cudart_cuda_set_device_example =
    cuda_cu_init-cudart_cuda_set_device linker (functions (pos 2034)) runtime

functions-SetsText : SetsText (functions (pos 2034))
unfolding cu_get_error_name cu_get_error_string
functions-SetsText f code = ground arith

written-cuda_cu_init_example :
    (written (cuda_cu_init linker (functions (pos 2034))).output ≢ none)
    × (written (cudart_cuda_set_device linker runtime).output ≢ none)
written-cuda_cu_init_example =
    written-cuda_cu_init linker (functions (pos 2034)) runtime functions-SetsText

version_text : written (ver_line (pos 2034) ∷ []) ≡ some (codes "  ver = 2034" ++ b'\n' ∷ [])
unfolding written line_text log_info format_int digits
version_text = refl
