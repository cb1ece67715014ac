-- ===== src/DriverLibs.antt =====
-- ifunc/libcuda.c: the handles of the driver libraries. The dynamic loader, and the names and the
-- search of common/autocompat.h, which the repository does not have, are a parameter.
pub mod Unload
mod Tests
use cuda_autocompat.Base.{
  ℕ, ◌≡◌, ◌≢◌, Bool, true, false, not, ◌||◌, Option, none, some, List, [], ◌∷◌, ◌++◌, if◌then◌else◌,
  ◌==◌,
}

-- `dlopen` of the three paths gives a handle or NULL, and `dlclose` is zero or not.
pub record Loader : Type 0 where
  pub libcuda : Option ℕ
  pub libnvidia_nvvm : Option ℕ
  pub libnvidia_ptxjitcompiler : Option ℕ
  pub dlclose : ℕ → Bool
  pub autocompat_search : ℕ

-- The global handles, and the handles that were passed to `dlclose`, in their order.
pub record Handles : Type 0 where
  pub libcuda_handle : Option ℕ
  pub libnvidia_nvvm_handle : Option ℕ
  pub libnvidia_ptxjitcompiler_handle : Option ℕ
  libcudadebugger_handle : Option ℕ
  pub closed : List ℕ

abbrev pub no_handles : Handles
no_handles = record {
  libcuda_handle = none;
  libnvidia_nvvm_handle = none;
  libnvidia_ptxjitcompiler_handle = none;
  libcudadebugger_handle = none;
  closed = [];
}

abbrev pub is_null : Option ℕ → Bool
is_null none = true
is_null (some h) = false

-- The constructor returns, or calls `exit` with a failure. `exit` may still run the destructor: it
-- does for a library that `dlopen` loads.
pub data Started : Type 0 where
  running : Handles → Started
  exited : Handles → Started

-- The handles that `dlclose` gets for one variable.
abbrev pub closing : Option ℕ → List ℕ
closing none = []
closing (some h) = h ∷ []

module _ (loader : Loader) where
  -- The return value is 1 if one of the three is missing. libcudadebugger is not loaded: the code
  -- for it is a comment.
  unfoldable pub load_driver_libs : Handles → ℕ × Handles
  load_driver_libs s = (
    if is_null loader.libcuda
          || (is_null loader.libnvidia_nvvm || is_null loader.libnvidia_ptxjitcompiler)
        then 1
        else 0,
    record s {
      libcuda_handle = loader.libcuda;
      libnvidia_nvvm_handle = loader.libnvidia_nvvm;
      libnvidia_ptxjitcompiler_handle = loader.libnvidia_ptxjitcompiler;
    },
  )

  -- `dlclose` of a handle that is set failed.
  abbrev close_fails : Option ℕ → Bool
  close_fails none = false
  close_fails (some h) = not (loader.dlclose h)

  -- The handles are closed in the opposite order, and an error does not end the sequence.
  unfoldable pub unload_driver_libs : Handles → ℕ × Handles
  unload_driver_libs s = (
    if close_fails s.libcudadebugger_handle
          || (close_fails s.libnvidia_ptxjitcompiler_handle
              || (close_fails s.libnvidia_nvvm_handle || close_fails s.libcuda_handle))
        then 1
        else 0,
    record {
      libcuda_handle = none;
      libnvidia_nvvm_handle = none;
      libnvidia_ptxjitcompiler_handle = none;
      libcudadebugger_handle = none;
      closed =
          s.closed
          ++ (closing s.libcudadebugger_handle
              ++ (closing s.libnvidia_ptxjitcompiler_handle
                  ++ (closing s.libnvidia_nvvm_handle ++ closing s.libcuda_handle)));
    },
  )

  unfoldable pub libcuda_ctor : Handles → Started
  libcuda_ctor s =
      let (ret, s1) = load_driver_libs s in
      if not (loader.autocompat_search == 0)
      then exited s
      else if not (ret == 0)
      then exited (unload_driver_libs s1).1
      else running s1

  unfoldable pub libcuda_dtor : Handles → Handles
  libcuda_dtor s = (unload_driver_libs s).1
