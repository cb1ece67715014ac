-- ===== src/Logging/Levels.antt =====
-- Which messages of utils/cpp/logging.h the environment lets through.
use cuda_autocompat.Base.{
  ℕ, ◌+◌, ◌-◌, ◌≤◌, ◌≡◌, refl, ap, ◌∙◌, Bool, true, false, not, ◌||◌, Option, none, some, [], ◌∷◌,
  ◌++◌, if◌then◌else◌, ltb, leb, Bytes, arith, Bool-cases, inl, inr,
}
use cuda_autocompat.Search.Main.{init_logging}
use cuda_autocompat.Logging.{
  Settings, log_write, gen_log_header_timestamp, gen_log_header_log_name, get_log_header_level_name,
  indent,
}

-- The number that CUDA_AUTOCOMPAT_VERBOSE gives: one digit, or 0 for anything else.
abbrev pub verbosity : Option Bytes → ℕ
verbosity none = 0
verbosity (some []) = 0
verbosity (some (c ∷ d ∷ rest)) = 0
verbosity (some (c ∷ [])) = if ltb c b'0' || ltb b'9' c then 0 else c - b'0'

abbrev pub is_empty : Bytes → Bool
is_empty [] = true
is_empty (c ∷ s) = false

is_empty-append : (s t : Bytes) → is_empty t ≡ false → is_empty (s ++ t) ≡ false
is_empty-append [] t h = h
is_empty-append (c ∷ s) t h = refl

leb-init_logging :
    (value : Option Bytes) (level : ℕ)
    → level ≤ 6
    → leb level (init_logging value) ≡ leb level (2 + verbosity value)
unfolding init_logging
leb-init_logging none level h = ground arith
leb-init_logging (some []) level h = ground arith
leb-init_logging (some (c ∷ [])) level h = ground arith
leb-init_logging (some (c ∷ d ∷ rest)) level h = ground arith

-- A line that is written has at least its newline.
is_empty-log_write :
    (level : ℕ) (cfg : Settings) (now msg : Bytes)
    → is_empty (log_write level cfg now msg) ≡ not (leb level cfg.max_level)
unfolding log_write
is_empty-log_write level cfg now msg = elim (Bool-cases (leb level cfg.max_level)) [
  | inl shown ↦ rw shown (
      is_empty-append (gen_log_header_timestamp cfg now)
        (gen_log_header_log_name cfg
          ++ (get_log_header_level_name cfg level ++ (indent level ++ (msg ++ b'\n' ∷ []))))
        (is_empty-append (gen_log_header_log_name cfg)
          (get_log_header_level_name cfg level ++ (indent level ++ (msg ++ b'\n' ∷ [])))
          (is_empty-append (get_log_header_level_name cfg level)
            (indent level ++ (msg ++ b'\n' ∷ []))
            (is_empty-append (indent level) (msg ++ b'\n' ∷ [])
              (is_empty-append msg (b'\n' ∷ []) refl)))))
  | inr hidden ↦ rw hidden refl
]

-- With the level that `init_logging` sets, a message of a level up to `trace` is written if and only
-- if its level is at most that of warnings plus the digit in CUDA_AUTOCOMPAT_VERBOSE; without a
-- valid value, errors and warnings are written and nothing else.
pub log_write-init_logging :
    (value : Option Bytes) (level : ℕ) (cfg : Settings) (now msg : Bytes)
    → level ≤ 6
    → cfg.max_level ≡ init_logging value
    → is_empty (log_write level cfg now msg) ≡ ltb (2 + verbosity value) level
log_write-init_logging value level cfg now msg h e =
    is_empty-log_write level cfg now msg
    ∙ (ap (λ k. not (leb level k)) e
        ∙ (ap not (leb-init_logging value level h) ∙ not_leb level (2 + verbosity value)))
  where
    not_leb : (a b : ℕ) → not (leb a b) ≡ ltb b a
    not_leb a b = ground arith
