-- ===== src/Logging/Tests.antt =====
-- Lines of the log at concrete settings.
use cuda_autocompat.Base.{
  ◌+◌, ◌-◌, ◌*◌, ◌≤◌, ◌≡◌, refl, false, true, some, [], ◌∷◌, ◌++◌, ltb, length, codes, arith,
}
use cuda_autocompat.Search.Main.{init_logging}
use cuda_autocompat.Logging.{
  Settings, level_info, level_debug, log_write, log_error, log_warn, log_info, log_verbose,
  log_debug, log_trace, indent_len, log_level_max_indent,
}
use cuda_autocompat.Logging.Levels.{is_empty, verbosity, log_write-init_logging}
use cuda_autocompat.Logging.Columns.{prefix, header_len, log_write-prefix}

-- CUDA_AUTOCOMPAT_VERBOSE=3
abbrev settings : Settings
settings = record {
  max_level = 5;
  long_level_name = true;
  log_name = codes "[search]";
  use_timestamp = true;
  use_log_name = true;
  use_level_name = true;
}

verbose_line :
    log_verbose settings (codes "10:00") (codes "cached")
    ≡ codes "10:00 [search] VERBOSE   cached\n"
unfolding log_verbose
verbose_line = refl

short_name :
    log_error (record settings { long_level_name = false }) (codes "10:00") (codes "failed")
    ≡ codes "10:00 [search] E failed\n"
unfolding log_error
short_name = refl

bare :
    log_info
      (record settings { use_timestamp = false; use_log_name = false; use_level_name = false })
      []
      (codes "cuInit:")
    ≡ codes "cuInit:\n"
unfolding log_info
bare = refl

same_column : log_warn settings [] (codes "x") ≡ codes " [search] WARN    x\n"
unfolding log_warn
same_column = refl

indented : log_debug settings [] (codes "x") ≡ codes " [search] DEBUG       x\n"
unfolding log_debug
indented = refl

-- A message of the level `trace` is not written in a build without assertions.
no_trace : log_trace true (record settings { max_level = 6 }) [] (codes "x") ≡ []
unfolding log_trace
no_trace = refl

log_write-init_logging_example :
    is_empty (log_write level_debug settings [] (codes "x"))
    ≡ ltb (2 + verbosity (some (b'3' ∷ []))) level_debug
log_write-init_logging_example =
    log_write-init_logging (some (b'3' ∷ [])) level_debug settings [] (codes "x") (omega arith)
      (unfold init_logging in refl)

log_write-prefix_example :
    (indent_len level_debug ≤ length log_level_max_indent)
    × (log_write level_debug settings [] (codes "x")
        ≡ prefix level_debug settings [] ++ (codes "x" ++ b'\n' ∷ []))
    × (length (prefix level_debug settings [])
        ≡ header_len settings [] + 2 * (level_debug - level_info))
log_write-prefix_example =
    log_write-prefix level_debug settings [] (codes "x") (omega arith) (omega arith) refl
