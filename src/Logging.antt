-- ===== src/Logging.antt =====
-- utils/cpp/logging.h: the levels, the header of a line and its indentation. What std::format makes
-- of a message's arguments, and the time, are parameters. The settings are a record of the inline
-- variables, and the text that goes to std::cerr is the result.
pub mod Levels
pub mod Columns
mod Tests
use cuda_autocompat.Base.{
  ℕ, zero, suc, ◌+◌, ◌-◌, ◌*◌, Bool, true, false, List, [], ◌∷◌, ◌++◌, if◌then◌else◌, ltb, leb,
  length, get_or, take, replicate, Bytes, codes, c_head,
}
use cuda_autocompat.Search.Main.{level_warn, level_trace}

-- log_level, of which `warn` and `trace` stand with `init_logging`.
abbrev pub level_error : ℕ
level_error = 1

abbrev pub level_info : ℕ
level_info = 3

abbrev pub level_verbose : ℕ
level_verbose = 4

abbrev pub level_debug : ℕ
level_debug = 5

-- The LOGGING_ variables.
pub record Settings : Type 0 where
  pub max_level : ℕ
  pub long_level_name : Bool
  pub log_name : Bytes
  pub use_timestamp : Bool
  pub use_log_name : Bool
  pub use_level_name : Bool

abbrev log_level_names : List Bytes
log_level_names =
    codes "OFF"
    ∷ codes "ERROR"
    ∷ codes "WARN"
    ∷ codes "INFO"
    ∷ codes "VERBOSE"
    ∷ codes "DEBUG"
    ∷ codes "TRACE"
    ∷ []

abbrev longest : List Bytes → ℕ
longest [] = 0
longest (s ∷ ss) = let rest = longest ss in if ltb rest (length s) then length s else rest

abbrev pub log_level_name_max_len : ℕ
log_level_name_max_len = longest log_level_names

abbrev pub log_level_max_indent : Bytes
log_level_max_indent = replicate (length log_level_names * 2) b' '

abbrev to_string : ℕ → Bytes
to_string level = get_or log_level_names level []

abbrev pub max : ℕ → ℕ → ℕ
max a b = if ltb a b then b else a

abbrev pub gen_log_header_timestamp : Settings → Bytes → Bytes
gen_log_header_timestamp cfg now = if cfg.use_timestamp then now ++ b' ' ∷ [] else []

abbrev pub gen_log_header_log_name : Settings → Bytes
gen_log_header_log_name cfg = if cfg.use_log_name then cfg.log_name ++ b' ' ∷ [] else []

-- `{:<{}} ` and `{} `
abbrev pub get_log_header_level_name : Settings → ℕ → Bytes
get_log_header_level_name cfg level =
    if cfg.use_level_name
    then if cfg.long_level_name
      then to_string level
        ++ (replicate (log_level_name_max_len - length (to_string level)) b' ' ++ b' ' ∷ [])
      else c_head (to_string level) ∷ b' ' ∷ []
    else []

-- The length of the view on `log_level_max_indent`, and the view.
abbrev pub indent_len : ℕ → ℕ
indent_len level = (max level_info level - level_info) * 2

abbrev pub indent : ℕ → Bytes
indent level = take (indent_len level) log_level_max_indent

-- What `log_write` writes to std::cerr.
unfoldable pub log_write : ℕ → Settings → Bytes → Bytes → Bytes
log_write level cfg now msg =
    if leb level cfg.max_level
    then gen_log_header_timestamp cfg now
      ++ (gen_log_header_log_name cfg
          ++ (get_log_header_level_name cfg level ++ (indent level ++ (msg ++ b'\n' ∷ []))))
    else []

unfoldable pub log_error : Settings → Bytes → Bytes → Bytes
unfolding log_write
log_error = log_write level_error

unfoldable pub log_warn : Settings → Bytes → Bytes → Bytes
unfolding log_write
log_warn = log_write level_warn

unfoldable pub log_info : Settings → Bytes → Bytes → Bytes
unfolding log_write
log_info = log_write level_info

unfoldable pub log_verbose : Settings → Bytes → Bytes → Bytes
unfolding log_write
log_verbose = log_write level_verbose

unfoldable pub log_debug : Settings → Bytes → Bytes → Bytes
unfolding log_write
log_debug = log_write level_debug

-- The first argument is whether NDEBUG is defined.
unfoldable pub log_trace : Bool → Settings → Bytes → Bytes → Bytes
unfolding log_write
log_trace ndebug cfg now msg = if ndebug then [] else log_write level_trace cfg now msg
