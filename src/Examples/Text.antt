-- ===== src/Examples/Text.antt =====
-- The lines of the programs of examples/ as text.
use cuda_autocompat.Base.{
  ℕ, ◌≡◌, ◌≢◌, true, Option, none, some, List, [], ◌∷◌, ◌++◌, All, Bytes, codes, arith,
}
use cuda_autocompat.Base.Int.{ℤ, pos, negsuc, is_zero}
use cuda_autocompat.Search.Main.{exit_success}
use cuda_autocompat.DlLibrary.{
  Linker, DlLibrary, no_library, lazy_local, open_library, get_path, get_symbol_pointer,
}
use cuda_autocompat.DlLibrary.Symbols.{get_function_symbol, with_library}
use cuda_autocompat.Logging.{log_info}
use cuda_autocompat.Messages.Decimal.{format_int}
use cuda_autocompat.Examples.{
  settings, Line, line, ver_line, error_line, ret_line, Run, DriverFunctions, RuntimeFunctions, log,
  log_version, leave, dl_error, look_up, log_path, cu_error, cuda_error, call_driver, call_runtime,
  cuda_cu_init, cudart_cuda_set_device,
}

-- What std::format makes of a line. A null pointer has no text: formatting one is undefined.
unfoldable pub line_text : Line → Option Bytes
line_text (line s) = some s
line_text (ver_line ver) = some (codes "  ver = " ++ format_int ver)
line_text (error_line none err_string) = none
line_text (error_line (some err_name) none) = none
line_text (error_line (some err_name) (some err_string)) =
    some (codes "  ret = " ++ (err_name ++ (codes " (" ++ (err_string ++ codes ")"))))
line_text (ret_line ret) = some (codes "  ret = " ++ format_int ret)

-- All that a program writes to std::cerr, without a header on its lines.
unfoldable pub written : List Line → Option Bytes
written [] = some []
written (l ∷ ls) =
    let rest = written ls in
    elim (line_text l) [
      | none ↦ none
      | some msg ↦ elim rest [ none ↦ none | some t ↦ some (log_info settings [] msg ++ t) ]
    ]

abbrev HasText : Line → Type 0
HasText l = line_text l ≢ none

written-HasText : (ls : List Line) → All HasText ls → written ls ≢ none
unfolding written
written-HasText [] h = λ e. ground arith
written-HasText (l ∷ ls) (p, h) = ground (arith, p, written-HasText ls h)

-- On success `cuGetErrorName` and `cuGetErrorString` set their argument.
abbrev pub SetsText : DriverFunctions → Type 0
SetsText api =
    (f : ℕ) (code : ℤ)
    → is_zero (api.get_error f code none).0 ≡ true
    → (api.get_error f code none).1 ≢ none

record IsDefined (r : Run) : Type 0 where
  lines : All HasText r.output

-- All ways on, from any state of the library.
abbrev Defines : (DlLibrary → Run) → Type 0
Defines k = (s : DlLibrary) → IsDefined (k s)

log-IsDefined : (l : Line) (r : Run) → HasText l → IsDefined r → IsDefined (log l r)
unfolding log
log-IsDefined l r h d = record { lines = (h, d.lines) }

line-HasText : (s : Bytes) → HasText (line s)
unfolding line_text
line-HasText s e = ground arith

module _ (linker : Linker) where
  dl_error-Defines : Defines (dl_error linker)
  unfolding dl_error
  dl_error-Defines s = log-IsDefined _ _ (line-HasText _) (record { lines = tt })

  symbol-IsDefined :
      (f : Option ℕ) (found : ℕ → DlLibrary → Run) (s : DlLibrary)
      → ((g : ℕ) → Defines (found g))
      → IsDefined (elim f [ none ↦ dl_error linker s | some g ↦ found g s ])
  symbol-IsDefined none found s h = dl_error-Defines s
  symbol-IsDefined (some g) found s h = h g s

  look_up-Defines :
      (name : Bytes) (found : ℕ → DlLibrary → Run)
      → ((g : ℕ) → Defines (found g))
      → Defines (look_up linker name found)
  unfolding look_up get_function_symbol
  look_up-Defines name found h s = log-IsDefined _ _ (line-HasText _) (
      symbol-IsDefined (get_symbol_pointer linker name s).0 found
        (get_symbol_pointer linker name s).1 h)

  log_path-Defines : (k : DlLibrary → Run) → Defines k → Defines (log_path linker k)
  unfolding log_path
  log_path-Defines k h s = log-IsDefined _ _ (line-HasText _) (h (get_path linker s).1)

  with_library-IsDefined :
      (path : Bytes) (k : DlLibrary → Run)
      → Defines k
      → IsDefined (with_library linker path (dl_error linker) k)
  unfolding with_library
  with_library-IsDefined path k h =
      let s = (open_library linker path lazy_local no_library).1 in
      ground (arith, h s, dl_error-Defines s)

  cu_error-HasText :
      (api : DriverFunctions)
      → SetsText api
      → (f g : ℕ) (ret : ℤ) → HasText (cu_error linker api f g ret)
  unfolding cu_error line_text
  cu_error-HasText api sets f g ret = ground (arith, sets f ret, sets g ret)

  cuda_error-HasText :
      (api : RuntimeFunctions) (f g : ℕ) (ret : ℤ) → HasText (cuda_error linker api f g ret)
  unfolding cuda_error line_text
  cuda_error-HasText api f g ret = ground arith

  log_version-IsDefined :
      (version : ℤ × ℤ) (r : Run) → IsDefined r → IsDefined (log_version version r)
  unfolding line_text
  log_version-IsDefined (ret, ver) r d =
      let with_line = log-IsDefined (ver_line ver) r (λ e. ground arith) d in
      ground (arith, d, with_line)

  leave-Defines : (status : ℕ) → Defines (leave linker status)
  leave-Defines status s = record { lines = tt }

  call_driver-Defines :
      (api : DriverFunctions)
      → SetsText api
      → (f g v i : ℕ) → Defines (call_driver linker api f g v i)
  unfolding call_driver
  call_driver-Defines api sets f g v i s =
      let version = api.get_version v (negsuc 0) in
      let text = cu_error-HasText api sets f g in
      log-IsDefined _ _ (line-HasText _) (
        log_version-IsDefined version _ (
          log-IsDefined _ _ (text version.0) (
            log-IsDefined _ _ (line-HasText _)
              (log-IsDefined _ _ (text (api.init i 0)) (leave-Defines exit_success s)))))

  call_runtime-Defines :
      (api : RuntimeFunctions) (f g v w d : ℕ) → Defines (call_runtime linker api f g v w d)
  unfolding call_runtime
  call_runtime-Defines api f g v w d s =
      let driver = api.get_version v (negsuc 0) in
      let runtime = api.get_version w driver.1 in
      let text = cuda_error-HasText api f g in
      log-IsDefined _ _ (line-HasText _) (
        log_version-IsDefined driver _ (
          log-IsDefined _ _ (text driver.0) (
            log-IsDefined _ _ (line-HasText _) (
              log_version-IsDefined runtime _ (
                log-IsDefined _ _ (text runtime.0) (
                  log-IsDefined _ _ (line-HasText _) (
                    log-IsDefined _ _ (text (api.set_device d (pos 0)))
                      (leave-Defines exit_success s))))))))

  cuda_cu_init-IsDefined :
      (api : DriverFunctions) → SetsText api → IsDefined (cuda_cu_init linker api)
  unfolding cuda_cu_init
  cuda_cu_init-IsDefined api sets = log-IsDefined _ _ (line-HasText _) (
      with_library-IsDefined (codes "libcuda.so.1") _ (
        log_path-Defines _ (
          look_up-Defines _ _ λ f. look_up-Defines _ _ λ g.
            look_up-Defines _ _
              λ v. look_up-Defines _ _ λ i. call_driver-Defines api sets f g v i)))

  cudart_cuda_set_device-IsDefined :
      (api : RuntimeFunctions) → IsDefined (cudart_cuda_set_device linker api)
  unfolding cudart_cuda_set_device
  cudart_cuda_set_device-IsDefined api = log-IsDefined _ _ (line-HasText _) (
      with_library-IsDefined (codes "libcudart.so.12") _ (
        log_path-Defines _ (
          look_up-Defines _ _ λ f. look_up-Defines _ _ λ g. look_up-Defines _ _ λ v.
            look_up-Defines _ _ λ w. look_up-Defines _ _ λ d. call_runtime-Defines api f g v w d)))

  -- Neither program formats a null pointer: all that they write is defined. For the program of the
  -- driver this needs that cuGetErrorName and cuGetErrorString set their argument when they return 0.
  pub written-cuda_cu_init :
      (driver : DriverFunctions) (runtime : RuntimeFunctions)
      → SetsText driver
      → (written (cuda_cu_init linker driver).output ≢ none)
        × (written (cudart_cuda_set_device linker runtime).output ≢ none)
  written-cuda_cu_init driver runtime sets = (
    written-HasText _ ((cuda_cu_init-IsDefined driver sets).lines),
    written-HasText _ ((cudart_cuda_set_device-IsDefined runtime).lines),
  )
