-- ===== src/DriverLibs/Tests.antt =====
-- Loaders with and without the libraries.
use cuda_autocompat.Base.{◌≡◌, refl, true, none, some, [], ◌∷◌, ◌==◌, not, reverse}
use cuda_autocompat.DriverLibs.{
  Loader, Handles, no_handles, running, libcuda_ctor, load_driver_libs,
}
use cuda_autocompat.DriverLibs.Unload.{closed_at_end, libcuda_dtor-libcuda_ctor}

abbrev one_missing : Loader
one_missing = record {
  libcuda = some 1;
  libnvidia_nvvm = none;
  libnvidia_ptxjitcompiler = some 3;
  dlclose = λ h. not (h == 3);
  autocompat_search = 0;
}

abbrev all_there : Loader
all_there = record one_missing { libnvidia_nvvm = some 2 }

abbrev three_handles : Handles
three_handles = record no_handles {
  libcuda_handle = some 1;
  libnvidia_nvvm_handle = some 2;
  libnvidia_ptxjitcompiler_handle = some 3;
}

libcuda_dtor-libcuda_ctor_example :
    closed_at_end true one_missing (libcuda_ctor one_missing no_handles) ≡ reverse (1 ∷ 3 ∷ [])
libcuda_dtor-libcuda_ctor_example = libcuda_dtor-libcuda_ctor one_missing true

started : libcuda_ctor all_there no_handles ≡ running three_handles
unfolding libcuda_ctor load_driver_libs
started = refl
