-- ===== src/DlLibrary/Versions.antt =====
-- The part of search/search.cxx's `get_libcuda_api_ver` that loads a library, over the class of
-- utils/cpp/dl_library.cxx. What a symbol does when it is called is a parameter.
use cuda_autocompat.Base.{ℕ, ◌≡◌, Bool, true, false, Option, none, some, Bytes, codes, arith}
use cuda_autocompat.Base.Int.{ℤ, pos, negsuc}
use cuda_autocompat.FilePath.{FilePath}
use cuda_autocompat.Search.{System, Library, load_version}
use cuda_autocompat.DlLibrary.{Linker, DlLibrary, lazy_local, close_library}
use cuda_autocompat.DlLibrary.Symbols.{
  get_function_symbol, with_library, IsHeld, IsOver, get_function_symbol_lem, with_library_lem,
  close_library-IsHeld, close_library-IsFresh,
}

-- The result, the entry of `ver_cache`, and the library object.
pub record Loaded : Type 0 where
  pub ver : ℤ
  pub cache_entry : ℤ
  pub libcuda : DlLibrary

abbrev is_some : Option ℕ → Bool
is_some none = false
is_some (some x) = true

-- What the search sees of the symbols of a handle. `run f ver` is the return code of the function at
-- `f` on a reference to `ver`, and its new value.
abbrev pub library : (ℕ → ℤ → ℤ × ℤ) → (Bytes → Option ℕ) → Library
library run dlsym = record {
  exports = λ name. is_some (dlsym name);
  cu_driver_get_version =
      λ ver. elim (dlsym (codes "cuDriverGetVersion")) [ none ↦ (pos 0, ver) | some f ↦ run f ver ];
}

module _ (linker : Linker) (run : ℕ → ℤ → ℤ × ℤ) where
  -- A `return`, at which the object is destroyed.
  abbrev leave : ℤ → ℤ → DlLibrary → Loaded
  leave ver entry s = record { ver = ver; cache_entry = entry; libcuda = close_library linker s }

  -- What follows when the library is open.
  abbrev read_version : DlLibrary → Loaded
  read_version =
      get_function_symbol linker (codes "cuda_autocompat_version")
        (get_function_symbol linker (codes "cuGetErrorName") (leave (negsuc 0) (negsuc 0)) λ _.
          get_function_symbol linker (codes "cuGetErrorString") (leave (negsuc 0) (negsuc 0)) λ _.
            get_function_symbol linker (codes "cuDriverGetVersion") (leave (negsuc 0) (negsuc 0))
              λ f. leave (run f (negsuc 0)).1 (run f (negsuc 0)).1)
        (λ _. leave (negsuc 1) (negsuc 0))

  unfoldable pub load_library : FilePath → Loaded
  load_library path = with_library linker path (leave (negsuc 0) (negsuc 0)) read_version

  abbrev pub dlopen_library : FilePath → Option Library
  dlopen_library path = elim (linker.dlopen path lazy_local) [
    | none ↦ none
    | some h ↦ some (library run (linker.dlsym h))
  ]

  abbrev Loads : ℤ × ℤ → Loaded → Type 0
  Loads vers l = (l.ver ≡ vers.0) × (l.cache_entry ≡ vers.1) × IsOver l.libcuda

  Loads-read_version :
      (sys : System) (path : FilePath) (h : ℕ) (s : DlLibrary)
      → sys.dlopen path ≡ some (library run (linker.dlsym h))
      → IsHeld h s
      → Loads (load_version sys path) (read_version s)
  unfolding load_version
  Loads-read_version sys path h s same held =
      let P = Loads (load_version sys path) in
      let over = close_library-IsHeld linker h in
      get_function_symbol_lem linker P h _ _ _ s held
        (λ s a e.
          get_function_symbol_lem linker P h _ _ _ s a (λ s b f. ground (arith, over s b))
            λ _ s b f.
              get_function_symbol_lem linker P h _ _ _ s b (λ s c g. ground (arith, over s c))
                λ _ s c g.
                  get_function_symbol_lem linker P h _ _ _ s c (λ s d k. ground (arith, over s d))
                    λ _ s d k. ground (arith, over s d))
        λ _ s a e. ground (arith, over s a)

  -- What the search reads from a library through a system whose `dlopen` shows the symbols of a
  -- handle is what the code reads through an object of the class: the version and the entry of the
  -- cache are the same. Whatever is missing, the object has then closed the handle that it opened.
  pub load_library-load_version :
      (sys : System) (path : FilePath)
      → sys.dlopen path ≡ dlopen_library path
      → ((load_library path).ver ≡ (load_version sys path).0)
        × ((load_library path).cache_entry ≡ (load_version sys path).1)
        × IsOver (load_library path).libcuda
  unfolding load_library load_version
  load_library-load_version sys path same =
      with_library_lem linker (Loads (load_version sys path)) path (leave (negsuc 0) (negsuc 0))
        read_version (λ s f e. ground (arith, close_library-IsFresh linker s f))
        λ h s k e. Loads-read_version sys path h s (ground arith) k
