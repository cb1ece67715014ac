-- ===== src/Stubs/Tests.antt =====
-- The stub libraries at concrete versions.
use cuda_autocompat.Base.{◌≡◌, refl, true, none, some, List, [], ◌∷◌, map, bytes_eq, codes}
use cuda_autocompat.Base.Int.{pos}
use cuda_autocompat.DlLibrary.{Linker}
use cuda_autocompat.Stubs.{
  no_driver, initialization_error, cuda_get_error_name, cuda_runtime_get_version, unload_driver,
}
use cuda_autocompat.Stubs.Driver.{full, symbols, functions, look_up_symbol}
use cuda_autocompat.Stubs.Runtime.{
  Call, call_version, call_unload, calls, answers, answers-unload_driver,
}

-- The loader of a system with one driver.
abbrev linker : Linker
linker = record {
  dlopen = λ path flags. some 7;
  dlclose = λ h. true;
  dlsym = λ h. look_up_symbol (symbols full);
  link_name = λ h. none;
  dlerror = codes "no";
}

abbrev earlier : List Call
earlier =
    call_version (some (pos 0)) ∷ call_unload ∷ call_version none ∷ call_version (some (pos 0)) ∷ []

runtime_version : cuda_runtime_get_version (pos 3045) (some (pos 0)) ≡ (pos 0, some (pos 3045))
unfolding cuda_runtime_get_version
runtime_version = refl

-- The code that a second call of cudaDriverGetVersion returns is not in the table of names.
second_call : cuda_get_error_name initialization_error ≡ codes "unrecognized error code"
unfolding cuda_get_error_name
second_call = refl

answers-unload_driver_example :
    (let s =
        unload_driver linker (calls linker (functions (pos 2034)).get_version earlier no_driver) in
      (s.closed ≡ s.opened)
      × (answers linker (functions (pos 2034)).get_version (pos 5 ∷ pos 6 ∷ []) s
          ≡ (
            ((functions (pos 2034)).get_version 3 (pos 5)).0,
            some ((functions (pos 2034)).get_version 3 (pos 5)).1,
          )
            ∷ map (λ v. (initialization_error, some v)) (pos 6 ∷ [])))
answers-unload_driver_example =
    answers-unload_driver linker (functions (pos 2034)).get_version earlier 7 3 (pos 5) (pos 6 ∷ [])
      refl (unfold bytes_eq in refl)
