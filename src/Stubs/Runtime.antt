-- ===== src/Stubs/Runtime.antt =====
-- Sequences of calls of cudaDriverGetVersion in tests/stubs/cudart_driver.c.
use cuda_autocompat.Base.{
  ℕ, ◌≡◌, refl, ap, ap₂, ◌∙◌, Option, none, some, List, [], ◌∷◌, ◌++◌, append-nil, map, codes,
  arith,
}
use cuda_autocompat.Base.Int.{ℤ}
use cuda_autocompat.DlLibrary.{Linker, handles}
use cuda_autocompat.Stubs.{
  RuntimeState, no_driver, now_local, load_driver, unload_driver, cuda_driver_get_version,
  initialization_error,
}

-- A call of the library.
pub data Call : Type 0 where
  call_version : Option ℤ → Call
  call_unload : Call

module _ (linker : Linker) (run : ℕ → ℤ → ℤ × ℤ) where
  abbrev call : Call → RuntimeState → RuntimeState
  call (call_version ver) s = (cuda_driver_get_version linker run ver s).state
  call call_unload s = unload_driver linker s

  unfoldable pub calls : List Call → RuntimeState → RuntimeState
  calls [] s = s
  calls (c ∷ cs) s = calls cs (call c s)

  -- What the calls with these variables return and write.
  unfoldable pub answers : List ℤ → RuntimeState → List (ℤ × Option ℤ)
  answers [] s = []
  answers (ver ∷ vers) s =
      let a = cuda_driver_get_version linker run (some ver) s in
      (a.ret, a.ver) ∷ answers vers a.state

  -- A function is known only with a handle, and every handle is open or closed.
  record IsConsistent (s : RuntimeState) : Type 0 where
    no_function : s.driver_handle ≡ none → s.cu_driver_get_version ≡ none
    balanced : s.closed ++ handles s.driver_handle ≡ s.opened

  abbrev IsUnloaded : RuntimeState → Type 0
  IsUnloaded s = (s.driver_handle ≡ none) × (s.cu_driver_get_version ≡ none) × (s.closed ≡ s.opened)

  IsUnloaded-unload_driver :
      (s : RuntimeState) → IsConsistent s → IsUnloaded (unload_driver linker s)
  unfolding unload_driver
  IsUnloaded-unload_driver s c = ground (arith, append-nil s.closed)

  load_driver-IsConsistent :
      (s : RuntimeState) → IsConsistent s → IsConsistent (load_driver linker s).1
  unfolding load_driver
  load_driver-IsConsistent s c = record {
    no_function = ground arith;
    balanced = ground (arith, append-nil s.closed);
  }

  unload_driver-IsConsistent :
      (s : RuntimeState) → IsConsistent s → IsConsistent (unload_driver linker s)
  unload_driver-IsConsistent s c =
      let (no_handle, no_symbol, all_closed) = IsUnloaded-unload_driver s c in
      record {
        no_function = λ _. no_symbol;
        balanced = rw no_handle (append-nil (unload_driver linker s).closed ∙ all_closed);
      }

  cuda_driver_get_version-load_driver :
      (ver : ℤ) (s : RuntimeState)
      → (cuda_driver_get_version linker run (some ver) s).state ≡ (load_driver linker s).1
  unfolding cuda_driver_get_version
  cuda_driver_get_version-load_driver ver s = ground arith

  call-IsConsistent : (c : Call) (s : RuntimeState) → IsConsistent s → IsConsistent (call c s)
  unfolding cuda_driver_get_version
  call-IsConsistent (call_version none) s k = k
  call-IsConsistent (call_version (some ver)) s k =
      rw (cuda_driver_get_version-load_driver ver s) (load_driver-IsConsistent s k)
  call-IsConsistent call_unload s k = unload_driver-IsConsistent s k

  calls-IsConsistent :
      (cs : List Call) (s : RuntimeState) → IsConsistent s → IsConsistent (calls cs s)
  unfolding calls
  calls-IsConsistent [] s k = k
  calls-IsConsistent (c ∷ cs) s k = calls-IsConsistent cs (call c s) (call-IsConsistent c s k)

  load_driver-loaded :
      (h : ℕ) (s : RuntimeState) → s.driver_handle ≡ some h → load_driver linker s ≡ (1, s)
  unfolding load_driver
  load_driver-loaded h s e = ground arith

  cuda_driver_get_version-loaded :
      (h : ℕ) (ver : ℤ) (s : RuntimeState)
      → s.driver_handle ≡ some h
      → cuda_driver_get_version linker run (some ver) s
        ≡ record { ret = initialization_error; ver = some ver; state = s }
  unfolding cuda_driver_get_version
  cuda_driver_get_version-loaded h ver s e = rw (load_driver-loaded h s e) refl

  -- While a handle is open, every call fails and writes nothing.
  answers-loaded :
      (h : ℕ) (vers : List ℤ) (s : RuntimeState)
      → s.driver_handle ≡ some h
      → answers vers s ≡ map (λ ver. (initialization_error, some ver)) vers
  unfolding answers
  answers-loaded h [] s e = refl
  answers-loaded h (ver ∷ vers) s e =
      rw (cuda_driver_get_version-loaded h ver s e)
        (ap (λ xs. (initialization_error, some ver) ∷ xs) (answers-loaded h vers s e))

  cuda_driver_get_version-unloaded :
      (h f : ℕ) (ver : ℤ) (s : RuntimeState)
      → linker.dlopen (codes "libcuda.so.1") now_local ≡ some h
      → linker.dlsym h (codes "cuDriverGetVersion") ≡ some f
      → s.driver_handle ≡ none
      → (let a = cuda_driver_get_version linker run (some ver) s in
          (a.ret ≡ (run f ver).0) × (a.ver ≡ some (run f ver).1) × (a.state.driver_handle ≡ some h))
  unfolding cuda_driver_get_version load_driver
  cuda_driver_get_version-unloaded h f ver s opens exports e = ground arith

  -- Whatever was called before, `unload_driver` closes each handle that was opened once. Then, if
  -- libcuda.so.1 opens and has cuDriverGetVersion, the first call of cudaDriverGetVersion on a
  -- variable returns and writes what that function does, and all further calls fail with
  -- cudaErrorInitializationError and leave the variable as it is.
  pub answers-unload_driver :
      (cs : List Call) (h f : ℕ) (ver : ℤ) (vers : List ℤ)
      → linker.dlopen (codes "libcuda.so.1") now_local ≡ some h
      → linker.dlsym h (codes "cuDriverGetVersion") ≡ some f
      → (let s = unload_driver linker (calls cs no_driver) in
          (s.closed ≡ s.opened)
          × (answers (ver ∷ vers) s
              ≡ ((run f ver).0, some (run f ver).1)
                ∷ map (λ v. (initialization_error, some v)) vers))
  unfolding answers
  answers-unload_driver cs h f ver vers opens exports =
      let s = unload_driver linker (calls cs no_driver) in
      let (no_handle, no_symbol, all_closed) =
        IsUnloaded-unload_driver (calls cs no_driver)
          (calls-IsConsistent cs no_driver (record { no_function = λ e. e; balanced = refl })) in
      let (ret, written, held) =
        cuda_driver_get_version-unloaded h f ver s opens exports no_handle in
      let a = cuda_driver_get_version linker run (some ver) s in
      let rest = answers-loaded h vers a.state held in
      (all_closed, ap₂ (λ x xs. x ∷ xs) (ap₂ (λ x y. (x, y)) ret written) rest)
