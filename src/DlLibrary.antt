-- ===== src/DlLibrary.antt =====
-- utils/cpp/dl_library.cxx and dl_library.h: a library that is opened and closed, its symbols, and
-- the text of the last error. The dynamic loader is a parameter. The messages are in Messages/Load.
pub mod Lifetime
pub mod Symbols
pub mod Versions
mod Tests
use cuda_autocompat.Base.{
  ℕ, ◌≡◌, Bool, true, false, Option, none, some, List, [], ◌∷◌, ◌++◌, if◌then◌else◌, Bytes,
}
use cuda_autocompat.FilePath.{FilePath}

-- The calls of the loader: a handle or an error text, and what `dlclose` says.
pub record Linker : Type 0 where
  pub dlopen : FilePath → ℕ → Option ℕ
  pub dlclose : ℕ → Bool
  pub dlsym : ℕ → Bytes → Option ℕ
  pub link_name : ℕ → Option Bytes
  pub dlerror : Bytes

-- `opened` and `closed` are the handles that `dlopen` gave and that `dlclose` got so far.
pub record DlLibrary : Type 0 where
  pub handle : Option ℕ
  pub last_error : Bytes
  pub opened : List ℕ
  pub closed : List ℕ

abbrev pub no_library : DlLibrary
no_library = record { handle = none; last_error = []; opened = []; closed = [] }

abbrev pub handles : Option ℕ → List ℕ
handles none = []
handles (some h) = h ∷ []

-- `RTLD_LAZY | RTLD_LOCAL`
abbrev pub lazy_local : ℕ
lazy_local = 1

module _ (linker : Linker) where
  unfoldable pub open_library : FilePath → ℕ → DlLibrary → Bool × DlLibrary
  open_library lib_path flags s = elim (linker.dlopen lib_path flags) [
    | none ↦ (false, record s { handle = none; last_error = linker.dlerror })
    | some h ↦ (true, record s { handle = some h; opened = s.opened ++ h ∷ [] })
  ]

  unfoldable pub close_library : DlLibrary → DlLibrary
  close_library s = elim s.handle [
    | none ↦ s
    | some h ↦ record {
      handle = none;
      last_error = if linker.dlclose h then s.last_error else linker.dlerror;
      opened = s.opened;
      closed = s.closed ++ h ∷ [];
    }
  ]

  -- The path of the library, empty if it is not open or not known.
  unfoldable pub get_path : DlLibrary → Bytes × DlLibrary
  get_path s = elim s.handle [
    | none ↦ ([], s)
    | some h ↦ elim (linker.link_name h) [
      | none ↦ ([], record s { last_error = linker.dlerror })
      | some name ↦ (name, s)
    ]
  ]

  unfoldable pub get_symbol_pointer : Bytes → DlLibrary → Option ℕ × DlLibrary
  get_symbol_pointer name s = elim s.handle [
    | none ↦ (none, s)
    | some h ↦ elim (linker.dlsym h name) [
      | none ↦ (none, record s { last_error = linker.dlerror })
      | some sym ↦ (some sym, s)
    ]
  ]
