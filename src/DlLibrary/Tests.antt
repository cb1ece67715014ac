-- ===== src/DlLibrary/Tests.antt =====
-- A library that is opened, asked, closed and opened again, and the versions of libraries.
use cuda_autocompat.Base.{
  ℕ, ◌≡◌, refl, none, some, List, [], ◌∷◌, if◌then◌else◌, true, bytes_eq, codes,
}
use cuda_autocompat.Base.Int.{ℤ, pos}
use cuda_autocompat.Search.{System, not_found, returned, load_version}
use cuda_autocompat.DlLibrary.{
  Linker, no_library, lazy_local, open_library, close_library, get_symbol_pointer,
}
use cuda_autocompat.DlLibrary.Symbols.{IsOver, with_library, get_function_symbol}
use cuda_autocompat.DlLibrary.Versions.{dlopen_library, load_library, load_library-load_version}
use cuda_autocompat.DlLibrary.Lifetime.{
  Call, call_open, call_close, call_symbol, calls, close_library-calls,
}

abbrev linker : Linker
linker = record {
  dlopen = λ path flags. some 5;
  dlclose = λ h. true;
  dlsym = λ h name. none;
  link_name = λ h. none;
  dlerror = codes "no";
}

abbrev session : List Call
session =
    call_open (codes "a.so") lazy_local
    ∷ call_symbol (codes "f")
    ∷ call_close
    ∷ call_open (codes "a.so") lazy_local
    ∷ []

close_library-calls_example :
    (close_library linker (calls linker session no_library)).closed
    ≡ (calls linker session no_library).opened
unfolding open_library close_library get_symbol_pointer
close_library-calls_example = close_library-calls linker session (refl, (tt, (tt, (refl, tt))))

-- A driver with its three functions.
abbrev driver_linker : Linker
driver_linker = record linker {
  dlsym = λ h name.
      if bytes_eq name (codes "cuGetErrorName")
      then some 1
      else if bytes_eq name (codes "cuGetErrorString")
      then some 2
      else if bytes_eq name (codes "cuDriverGetVersion")
      then some 3
      else none;
}

abbrev run : ℕ → ℤ → ℤ × ℤ
run f ver = (pos 0, pos 12080)

abbrev system : System
system = record {
  stat = λ p. not_found;
  dlopen = dlopen_library driver_linker run;
  weakly_canonical = λ p. returned p;
  cuda_home = none;
}

version_read : (load_library driver_linker run (codes "/d/libcuda.so.1")).ver ≡ pos 12080
unfolding load_library with_library get_function_symbol open_library get_symbol_pointer bytes_eq
version_read = refl

load_library-load_version_example :
    (let l = load_library driver_linker run (codes "/d/libcuda.so.1") in
      (l.ver ≡ (load_version system (codes "/d/libcuda.so.1")).0)
      × (l.cache_entry ≡ (load_version system (codes "/d/libcuda.so.1")).1)
      × IsOver l.libcuda)
load_library-load_version_example =
    load_library-load_version driver_linker run system (codes "/d/libcuda.so.1") refl
