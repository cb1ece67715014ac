-- ===== src/Stubs/Driver.antt =====
-- The driver libraries of tests/stubs as the search and the example program see them.
use cuda_autocompat.Base.{
  ℕ, ◌≡◌, refl, ap, ◌∙◌, Option, none, some, List, [], ◌∷◌, if◌then◌else◌, ◌==◌, Bytes, codes,
  bytes_eq, arith,
}
use cuda_autocompat.Base.Int.{ℤ, negsuc}
use cuda_autocompat.FilePath.{FilePath}
use cuda_autocompat.Search.{System, not_found, returned, load_version}
use cuda_autocompat.DlLibrary.{Linker, lazy_local}
use cuda_autocompat.DlLibrary.Versions.{
  load_library, load_library-load_version, dlopen_library, library,
}
use cuda_autocompat.DlLibrary.Symbols.{IsOver}
use cuda_autocompat.Examples.{DriverFunctions}
use cuda_autocompat.Stubs.{cu_get_error_name, cu_get_error_string, cu_init, cu_driver_get_version}

-- A library with all sources, one without cuda_error.c and cuda_init.c, and one that has only the
-- version of the program itself.
pub data StubDriver : Type 0 where
  full noimpl autocompat : StubDriver

-- The addresses of the symbols that a library exports.
abbrev pub symbols : StubDriver → List (Bytes × ℕ)
symbols full =
    (codes "cuGetErrorName", 1)
    ∷ (codes "cuGetErrorString", 2)
    ∷ (codes "cuDriverGetVersion", 3)
    ∷ (codes "cuInit", 4)
    ∷ []
symbols noimpl = (codes "cuDriverGetVersion", 3) ∷ []
symbols autocompat = (codes "cuda_autocompat_version", 5) ∷ []

abbrev pub look_up_symbol : List (Bytes × ℕ) → Bytes → Option ℕ
look_up_symbol [] name = none
look_up_symbol ((symbol, address) ∷ table) name =
    if bytes_eq symbol name then some address else look_up_symbol table name

-- What the program writes to a variable that it passes by its address.
abbrev value_or {ℓ} : {A : Type ℓ} → A → Option A → A
value_or old none = old
value_or old (some new) = new

-- The functions at these addresses, for a driver version.
abbrev pub functions : ℤ → DriverFunctions
functions driver_version = record {
  get_error = λ f error str.
      let (ret, written) =
        if f == 1
        then cu_get_error_name error (some str)
        else cu_get_error_string error (some str) in
      (ret, value_or str written);
  get_version = λ f ver.
      let (ret, written) = cu_driver_get_version driver_version (some ver) in
      (ret, value_or ver written);
  init = λ f flags. cu_init flags;
}

abbrev version_seen : StubDriver → ℤ → ℤ
version_seen full v = v
version_seen noimpl v = negsuc 0
version_seen autocompat v = negsuc 1

-- A system that opens libraries through this loader.
abbrev system : Linker → (ℕ → ℤ → ℤ × ℤ) → System
system linker run = record {
  stat = λ path. not_found;
  dlopen = dlopen_library linker run;
  weakly_canonical = returned;
  cuda_home = none;
}

load_version-symbols :
    (sys : System) (stub : StubDriver) (v : ℤ) (path : FilePath)
    → sys.dlopen path ≡ some (library (functions v).get_version (look_up_symbol (symbols stub)))
    → (load_version sys path).0 ≡ version_seen stub v
unfolding load_version cu_driver_get_version bytes_eq
load_version-symbols sys full v path e = rw (load_version, e) refl
load_version-symbols sys noimpl v path e = rw (load_version, e) refl
load_version-symbols sys autocompat v path e = rw (load_version, e) refl

-- A library that exports the symbols of a stub: the search reads DRIVER_VERSION from a full driver,
-- whatever that number is, -1 from one without cuda_error.c and cuda_init.c, and -2 from a library
-- of the program itself. In every case it closes the library.
load_library-cu_driver_get_version :
    (linker : Linker) (stub : StubDriver) (v : ℤ) (h : ℕ) (path : FilePath)
    → linker.dlopen path lazy_local ≡ some h
    → linker.dlsym h ≡ look_up_symbol (symbols stub)
    → ((load_library linker (functions v).get_version path).ver ≡ version_seen stub v)
      × IsOver (load_library linker (functions v).get_version path).libcuda
load_library-cu_driver_get_version linker stub v h path opens exports =
    let run = (functions v).get_version in
    let sys = system linker run in
    let (same, entry, over) = load_library-load_version linker run sys path refl in
    let shown : sys.dlopen path ≡ some (library run (linker.dlsym h)) = ground arith in
    let stubs = shown ∙ ap (λ t. some (library run t)) exports in
    (same ∙ load_version-symbols sys stub v path stubs, over)
