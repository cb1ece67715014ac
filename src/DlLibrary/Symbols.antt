-- ===== src/DlLibrary/Symbols.antt =====
-- The look-ups of a symbol in a library that was opened once, of utils/cpp/dl_library.h, with the
-- test of the callers for a symbol that is missing.
use cuda_autocompat.Base.{
  ℕ, ◌≡◌, refl, sym, Bool, true, false, Option, none, some, [], ◌∷◌, ◌++◌, if◌then◌else◌, Bytes,
  arith,
}
use cuda_autocompat.FilePath.{FilePath}
use cuda_autocompat.DlLibrary.{
  Linker, DlLibrary, no_library, lazy_local, open_library, close_library, get_symbol_pointer,
}

-- One handle was opened, and is not closed.
abbrev pub IsHeld : ℕ → DlLibrary → Type 0
IsHeld h s = (s.handle ≡ some h) × (s.opened ≡ h ∷ []) × (s.closed ≡ [])

-- The library has never been open.
abbrev pub IsFresh : DlLibrary → Type 0
IsFresh s = (s.handle ≡ none) × (s.opened ≡ []) × (s.closed ≡ [])

-- The library is closed, and what was opened was closed once.
abbrev pub IsOver : DlLibrary → Type 0
IsOver s = (s.handle ≡ none) × (s.closed ≡ s.opened)

module _ (linker : Linker) where
  -- `auto f = lib.get_function_symbol<...>(name); if (!f) ...`: what comes after, without the
  -- function and with it.
  unfoldable pub get_function_symbol {ℓ} :
      {A : Type ℓ} → Bytes → (DlLibrary → A) → (ℕ → DlLibrary → A) → DlLibrary → A
  get_function_symbol name missing found s =
      let (f, s') = get_symbol_pointer linker name s in
      elim f [ none ↦ missing s' | some f ↦ found f s' ]

  -- `const DlLibrary lib{path}; if (!lib) ...`: what comes after, without the library and with it.
  unfoldable pub with_library {ℓ} : {A : Type ℓ} → FilePath → (DlLibrary → A) → (DlLibrary → A) → A
  with_library path missing found =
      let (opened, s) = open_library linker path lazy_local no_library in
      if opened then found s else missing s

  pub close_library-IsHeld : (h : ℕ) (s : DlLibrary) → IsHeld h s → IsOver (close_library linker s)
  unfolding close_library
  close_library-IsHeld h s held = ground arith

  pub close_library-IsFresh : (s : DlLibrary) → IsFresh s → IsOver (close_library linker s)
  unfolding close_library
  close_library-IsFresh s fresh = ground arith

  get_symbol_pointer-IsHeld :
      (h : ℕ) (name : Bytes) (s : DlLibrary)
      → IsHeld h s
      → ((get_symbol_pointer linker name s).0 ≡ linker.dlsym h name)
        × IsHeld h (get_symbol_pointer linker name s).1
  unfolding get_symbol_pointer
  get_symbol_pointer-IsHeld h name s held = ground arith

  -- To prove something of a look-up, prove it without the symbol and with it.
  pub get_function_symbol_lem {ℓ κ} :
      {A : Type ℓ} (P : A → Type κ) (h : ℕ) (name : Bytes) (missing : DlLibrary → A)
      (found : ℕ → DlLibrary → A) (s : DlLibrary)
      → IsHeld h s
      → ((s' : DlLibrary) → IsHeld h s' → linker.dlsym h name ≡ none → P (missing s'))
      → ((f : ℕ) (s' : DlLibrary) → IsHeld h s' → linker.dlsym h name ≡ some f → P (found f s'))
      → P (get_function_symbol name missing found s)
  unfolding get_function_symbol
  get_function_symbol_lem P h name missing found s held no_symbol symbol =
      let (same, held') = get_symbol_pointer-IsHeld h name s held in
      go (get_symbol_pointer linker name s).0 (get_symbol_pointer linker name s).1 held' (sym same)
    where
      go :
          (r : Option ℕ) (s' : DlLibrary)
          → IsHeld h s'
          → linker.dlsym h name ≡ r
          → P (elim r [ none ↦ missing s' | some f ↦ found f s' ])
      go none s' held' e = no_symbol s' held' e
      go (some f) s' held' e = symbol f s' held' e

  -- To prove something of a library, prove it if it does not open and if it does.
  pub with_library_lem {ℓ κ} :
      {A : Type ℓ} (P : A → Type κ) (path : FilePath) (missing found : DlLibrary → A)
      → ((s : DlLibrary) → IsFresh s → linker.dlopen path lazy_local ≡ none → P (missing s))
      → ((h : ℕ) (s : DlLibrary)
          → IsHeld h s
          → linker.dlopen path lazy_local ≡ some h
          → P (found s))
      → P (with_library path missing found)
  unfolding with_library open_library
  with_library_lem P path missing found closed open_ = go (linker.dlopen path lazy_local) refl
    where
      result : Option ℕ → Bool × DlLibrary
      result none = (false, record no_library { handle = none; last_error = linker.dlerror })
      result (some h) = (true, record no_library { handle = some h; opened = [] ++ h ∷ [] })

      go :
          (r : Option ℕ)
          → linker.dlopen path lazy_local ≡ r
          → P (if (result r).0 then found (result r).1 else missing (result r).1)
      go none e = closed (result none).1 (refl, refl, refl) e
      go (some h) e = open_ h (result (some h)).1 (refl, refl, refl) e
