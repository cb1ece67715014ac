-- ===== src/DriverLibs/Unload.antt =====
-- Which handles the constructor and the destructor of ifunc/libcuda.c open and close.
use cuda_autocompat.Base.{
  ℕ, ◌≡◌, refl, Bool, true, false, ◌||◌, ◌==◌, if◌then◌else◌, [], Option, none, some, List, ◌++◌,
  append-nil, reverse, arith, Bool-cases, inl, inr,
}
use cuda_autocompat.DriverLibs.{
  Loader, Handles, no_handles, is_null, Started, running, exited, closing, load_driver_libs,
  unload_driver_libs, libcuda_ctor, libcuda_dtor,
}

-- The handles that a loader gives, in the order of the calls: none if the search fails.
abbrev pub opened : Loader → List ℕ
opened l =
    if l.autocompat_search == 0
    then closing l.libcuda ++ (closing l.libnvidia_nvvm ++ closing l.libnvidia_ptxjitcompiler)
    else []

-- What is closed at the end of the process. After a constructor that returns the destructor runs.
-- After one that calls `exit` it runs too where the dynamic linker has registered it, as for a
-- library that `dlopen` loaded: the first argument says whether it does.
abbrev pub closed_at_end : Bool → Loader → Started → List ℕ
closed_at_end registered l (running s) = (libcuda_dtor l s).closed
closed_at_end registered l (exited s) = (if registered then libcuda_dtor l s else s).closed

abbrev is_missing : Loader → Bool
is_missing l = is_null l.libcuda || (is_null l.libnvidia_nvvm || is_null l.libnvidia_ptxjitcompiler)

module _ (l : Loader) where
  reverse-closing :
      (a b c : Option ℕ)
      → closing c ++ (closing b ++ closing a) ≡ reverse (closing a ++ (closing b ++ closing c))
  reverse-closing none none none = refl
  reverse-closing none none (some z) = refl
  reverse-closing none (some y) none = refl
  reverse-closing none (some y) (some z) = refl
  reverse-closing (some x) none none = refl
  reverse-closing (some x) none (some z) = refl
  reverse-closing (some x) (some y) none = refl
  reverse-closing (some x) (some y) (some z) = refl

  -- Each library that the loader opened is closed once, in the opposite order, and nothing else is
  -- closed: by the destructor if the constructor returns; by the constructor before it ends the
  -- process if a library is missing, and then a destructor that runs after it closes nothing more.
  -- If the search fails, nothing is opened or closed.
  pub libcuda_dtor-libcuda_ctor :
      (registered : Bool)
      → closed_at_end registered l (libcuda_ctor l no_handles) ≡ reverse (opened l)
  unfolding libcuda_ctor libcuda_dtor load_driver_libs unload_driver_libs
  libcuda_dtor-libcuda_ctor true = elim (Bool-cases (l.autocompat_search == 0)) [
    | inr n ↦ rw n refl
    | inl z ↦ elim (Bool-cases (is_missing l)) [
      | inr f ↦ rw (z, f) (reverse-closing l.libcuda l.libnvidia_nvvm l.libnvidia_ptxjitcompiler)
      | inl t ↦
          rw (z, t)
            (rw append-nil (reverse-closing l.libcuda l.libnvidia_nvvm l.libnvidia_ptxjitcompiler))
    ]
  ]
  libcuda_dtor-libcuda_ctor false = elim (Bool-cases (l.autocompat_search == 0)) [
    | inr n ↦ rw n refl
    | inl z ↦ elim (Bool-cases (is_missing l)) [
      | inr f ↦ rw (z, f) (reverse-closing l.libcuda l.libnvidia_nvvm l.libnvidia_ptxjitcompiler)
      | inl t ↦ rw (z, t) (reverse-closing l.libcuda l.libnvidia_nvvm l.libnvidia_ptxjitcompiler)
    ]
  ]

  -- A second `unload_driver_libs` closes nothing, changes nothing and succeeds.
  unload_driver_libs-twice :
      (s : Handles)
      → unload_driver_libs l (unload_driver_libs l s).1 ≡ (0, (unload_driver_libs l s).1)
  unfolding unload_driver_libs
  unload_driver_libs-twice s = rw append-nil refl

  -- If `libcuda_ctor` returns, called before any handle is set, then the handles of the three
  -- libraries that it loads are set.
  libcuda_ctor-running :
      (s : Handles)
      → libcuda_ctor l no_handles ≡ running s
      → (is_null s.libcuda_handle ≡ false)
        × (is_null s.libnvidia_nvvm_handle ≡ false)
        × (is_null s.libnvidia_ptxjitcompiler_handle ≡ false)
  unfolding libcuda_ctor load_driver_libs
  libcuda_ctor-running s h = ground arith
