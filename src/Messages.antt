-- ===== src/Messages.antt =====
-- The messages of the search program: a computation with the lines that it gives to the log functions
-- of utils/cpp/logging.h before it returns or throws, and what of them goes to std::cerr.
pub mod Decimal
mod Tests
mod ProgramTests
pub mod Load
pub mod Update
pub mod Scan
pub mod Main
pub mod Args
pub mod CommandLine
pub mod Refine
pub mod Silent
pub mod Post
pub mod Verdict
pub mod Errors
pub mod Program
pub mod Outcome
use cuda_autocompat.Base.{
  ℕ, suc, ◌+◌, Bool, Option, none, some, List, [], ◌∷◌, ◌++◌, if◌then◌else◌, ◌==◌, Bytes, codes,
}
use cuda_autocompat.Base.Int.{ℤ}
use cuda_autocompat.FilePath.{FilePath}
use cuda_autocompat.Search.{Throws, returned, thrown}
use cuda_autocompat.Search.Main.{level_warn, level_trace}
use cuda_autocompat.Logging.{Settings, level_info, level_verbose, level_debug, log_write, log_trace}

-- The level of a log call, and the formatted text.
pub record Message : Type 0 where
  pub level : ℕ
  pub text : Bytes

-- Messages, and a result or an exception after them.
abbrev pub Logged : Type 0 → Type 0
Logged A = List Message × Throws A

abbrev pub pure : {A : Type 0} → A → Logged A
pure a = ([], returned a)

abbrev pub lift : {A : Type 0} → Throws A → Logged A
lift t = ([], t)

infixl 5 ◌>>=◌ ◌>>◌
abbrev pub ◌>>=◌ : {A B : Type 0} → Logged A → (A → Logged B) → Logged B
m >>= f = elim m.1 [ thrown ↦ (m.0, thrown) | returned a ↦ (m.0 ++ (f a).0, (f a).1) ]

abbrev pub ◌>>◌ : {A B : Type 0} → Logged A → Logged B → Logged B
m >> k = m >>= λ _. k

abbrev pub say : ℕ → Bytes → Logged (Unit {0})
say level text = (record { level = level; text = text } ∷ [], returned tt)

-- The log functions, each with its text.
abbrev pub info : Bytes → Logged (Unit {0})
info = say level_info

abbrev pub verbose : Bytes → Logged (Unit {0})
verbose = say level_verbose

abbrev pub debug : Bytes → Logged (Unit {0})
debug = say level_debug

abbrev pub trace : Bytes → Logged (Unit {0})
trace = say level_trace

-- One message on std::cerr. Those of level `trace` are compiled only without NDEBUG.
abbrev pub write_message : Bool → Settings → Bytes → Message → Bytes
write_message ndebug cfg now m =
    if m.level == level_trace
    then log_trace ndebug cfg now m.text
    else log_write m.level cfg now m.text

-- All of them, each with its own time.
unfoldable pub write_messages : Bool → Settings → (ℕ → Bytes) → List Message → Bytes
write_messages ndebug cfg clock [] = []
write_messages ndebug cfg clock (m ∷ ms) =
    write_message ndebug cfg (clock 0) m ++ write_messages ndebug cfg (λ i. clock (suc i)) ms

-- The texts that the system and a driver give: of a failed `stat`, of a failed `dlopen` or `dlsym`
-- (with the symbol), of a failed `dlclose`, and the name and the text of an error code of a driver,
-- with what cuGetErrorName and cuGetErrorString return. Then CUDA_AUTOCOMPAT_VERSION_STRING.
pub record Texts : Type 0 where
  pub strerror : FilePath → Bytes
  pub dlerror : FilePath → Option Bytes → Bytes
  pub dlclose_error : FilePath → Option Bytes
  pub error_name : FilePath → ℤ → ℤ × Bytes
  pub error_string : FilePath → ℤ → ℤ × Bytes
  pub version_string : Bytes
