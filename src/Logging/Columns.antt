-- ===== src/Logging/Columns.antt =====
-- Where a message stands in its line, in utils/cpp/logging.h.
use cuda_autocompat.Base.{
  ℕ, zero, suc, ◌+◌, ◌-◌, ◌*◌, ◌≤◌, ◌≡◌, refl, sym, ap, ◌∙◌, true, [], ◌∷◌, ◌++◌, append_assoc,
  if◌then◌else◌, leb, length, length-append, Bytes, arith,
}
use cuda_autocompat.Logging.{
  Settings, log_write, gen_log_header_timestamp, gen_log_header_log_name, get_log_header_level_name,
  indent, indent_len, log_level_max_indent, log_level_name_max_len, level_info,
}

-- The columns of a line that do not depend on its level.
abbrev pub header_len : Settings → Bytes → ℕ
header_len cfg now =
    (if cfg.use_timestamp then length now + 1 else 0)
    + (if cfg.use_log_name then length cfg.log_name + 1 else 0)
    + (if cfg.use_level_name
        then if cfg.long_level_name then log_level_name_max_len + 1 else 2
        else 0)

abbrev pub prefix : ℕ → Settings → Bytes → Bytes
prefix level cfg now =
    gen_log_header_timestamp cfg now
    ++ (gen_log_header_log_name cfg ++ (get_log_header_level_name cfg level ++ indent level))

-- The levels one by one: the length of the view, of what it shows, and of the level's name.
level_columns :
    (level : ℕ) (cfg : Settings)
    → 1 ≤ level
    → level ≤ 6
    → (indent_len level ≤ length log_level_max_indent)
      × (length (indent level) ≡ 2 * (level - level_info))
      × (length (get_log_header_level_name cfg level) ≡ (
          if cfg.use_level_name
          then if cfg.long_level_name then log_level_name_max_len + 1 else 2
          else 0))
level_columns zero cfg lo hi = absurd (omega (arith, lo))
level_columns (suc zero) cfg lo hi = (omega arith, refl, ground arith)
level_columns (suc (suc zero)) cfg lo hi = (omega arith, refl, ground arith)
level_columns (suc (suc (suc zero))) cfg lo hi = (omega arith, refl, ground arith)
level_columns (suc (suc (suc (suc zero)))) cfg lo hi = (omega arith, refl, ground arith)
level_columns (suc (suc (suc (suc (suc zero))))) cfg lo hi = (omega arith, refl, ground arith)
level_columns (suc (suc (suc (suc (suc (suc zero)))))) cfg lo hi = (omega arith, refl, ground arith)
level_columns (suc (suc (suc (suc (suc (suc (suc n))))))) cfg lo hi = absurd (omega (arith, hi))

append_assoc_four : (a b c d m : Bytes) → a ++ (b ++ (c ++ (d ++ m))) ≡ (a ++ (b ++ (c ++ d))) ++ m
append_assoc_four a b c d m = sym (
    append_assoc a (b ++ (c ++ d)) m
    ∙ ap (λ t. a ++ t) (append_assoc b (c ++ d) m ∙ ap (λ t. b ++ t) (append_assoc c d m)))

length-prefix :
    (level : ℕ) (cfg : Settings) (now : Bytes)
    → 1 ≤ level
    → level ≤ 6
    → length (prefix level cfg now) ≡ header_len cfg now + 2 * (level - level_info)
length-prefix level cfg now lo hi =
    let (fits, view, name) = level_columns level cfg lo hi in
    let a = gen_log_header_timestamp cfg now in
    let b = gen_log_header_log_name cfg in
    let c = get_log_header_level_name cfg level in
    let space : Bytes = b' ' ∷ [] in
    let first : length a ≡ (if cfg.use_timestamp then length now + 1 else 0) =
      ground (arith, length-append now space) in
    let second : length b ≡ (if cfg.use_log_name then length cfg.log_name + 1 else 0) =
      ground (arith, length-append cfg.log_name space) in
    omega (
      arith,
      view,
      name,
      first,
      second,
      length-append a (b ++ (c ++ indent level)),
      length-append b (c ++ indent level),
      length-append c (indent level),
    )

-- For a level from `error` to `trace`: the view on the spaces stays inside their array, and a line
-- that is written is a prefix, the message and a newline, where the message stands two columns
-- further to the right for each level above `info`, and at the same column for the others.
pub log_write-prefix :
    (level : ℕ) (cfg : Settings) (now msg : Bytes)
    → 1 ≤ level
    → level ≤ 6
    → leb level cfg.max_level ≡ true
    → (indent_len level ≤ length log_level_max_indent)
      × (log_write level cfg now msg ≡ prefix level cfg now ++ (msg ++ b'\n' ∷ []))
      × (length (prefix level cfg now) ≡ header_len cfg now + 2 * (level - level_info))
unfolding log_write
log_write-prefix level cfg now msg lo hi shown = (
  (level_columns level cfg lo hi).0,
  rw shown (
      append_assoc_four (gen_log_header_timestamp cfg now) (gen_log_header_log_name cfg)
        (get_log_header_level_name cfg level) (indent level) (msg ++ b'\n' ∷ [])),
  length-prefix level cfg now lo hi,
)
