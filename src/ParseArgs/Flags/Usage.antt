-- ===== src/ParseArgs/Flags/Usage.antt =====
-- The columns of the usage text of search/parse_args.cxx.
use cuda_autocompat.Base.{
  ℕ, ◌+◌, ◌-◌, ◌≤◌, ◌≡◌, refl, sym, ap, ap₂, ◌∙◌, ◌||◌, List, [], ◌∷◌, ◌++◌, append_assoc, map,
  if◌then◌else◌, length, length-append, length-replicate, replicate, Bytes, codes, All, All-map,
  arith,
}
use cuda_autocompat.ParseArgs.Flags.{
  CmdFlag, is_nil, max, long_opt_len, max_len_from, get_long_opt_max_len, pad, short_opt, long_opt,
  flag_line, usage,
}

length-long_opt : (flag : CmdFlag) → length (long_opt flag) ≡ long_opt_len flag
length-long_opt flag = ground (
  arith,
  length-append (codes "--") flag.opt_long,
  length-append (codes "--") (flag.opt_long ++ b'=' ∷ flag.opt_value),
  length-append flag.opt_long (b'=' ∷ flag.opt_value),
)

max_len_from-le : (flags : List CmdFlag) (m : ℕ) → m ≤ max_len_from m flags
max_len_from-le [] m = omega arith
max_len_from-le (flag ∷ flags) m = ground (arith, max_len_from-le flags (max m (long_opt_len flag)))

max_len_from-All :
    (flags : List CmdFlag) (m : ℕ) → All (λ flag. long_opt_len flag ≤ max_len_from m flags) flags
max_len_from-All [] m = tt
max_len_from-All (flag ∷ flags) m = (
  ground (arith, max_len_from-le flags (max m (long_opt_len flag))),
  max_len_from-All flags (max m (long_opt_len flag)),
)

length-pad : (n : ℕ) (s : Bytes) → length s ≤ n → length (pad n s) ≡ n
length-pad n s h =
    let space : ℕ = b' ' in
    omega (
      arith,
      h,
      length-append s (replicate (n - length s) space),
      length-replicate (n - length s) space,
    )

length-short_opt : (flag : CmdFlag) → length (short_opt flag) ≤ 2
length-short_opt flag = ground arith

-- What stands in front of the help text.
abbrev columns : ℕ → CmdFlag → Bytes
columns n flag =
    let comma = if is_nil (short_opt flag) || is_nil (long_opt flag) then b' ' else b',' in
    codes "  " ++ (pad 2 (short_opt flag) ++ comma ∷ b' ' ∷ (pad n (long_opt flag) ++ b' ' ∷ []))

flag_line-columns : (n : ℕ) (flag : CmdFlag) → flag_line n flag ≡ columns n flag ++ flag.opt_help
flag_line-columns n flag =
    let comma : ℕ = if is_nil (short_opt flag) || is_nil (long_opt flag) then b' ' else b',' in
    joined (pad 2 (short_opt flag)) (pad n (long_opt flag)) flag.opt_help comma
  where
    joined :
        (a l help : Bytes) (c : ℕ)
        → ◌≡◌ {A = Bytes}
            (b' ' ∷ b' ' ∷ (a ++ c ∷ b' ' ∷ (l ++ b' ' ∷ help)))
            ((b' ' ∷ b' ' ∷ (a ++ c ∷ b' ' ∷ (l ++ b' ' ∷ []))) ++ help)
    joined a l help c =
        ap (λ t. b' ' ∷ b' ' ∷ t)
          (sym (
            append_assoc a (c ∷ b' ' ∷ (l ++ b' ' ∷ [])) help
            ∙ ap (λ t. a ++ c ∷ b' ' ∷ t) (append_assoc l (b' ' ∷ []) help)))

length-columns :
    (n : ℕ) (flag : CmdFlag) → length (long_opt flag) ≤ n → length (columns n flag) ≡ n + 7
length-columns n flag h =
    let comma : ℕ = if is_nil (short_opt flag) || is_nil (long_opt flag) then b' ' else b',' in
    omega (
      arith,
      length-pad 2 (short_opt flag) (length-short_opt flag),
      length-pad n (long_opt flag) h,
      length-append (pad 2 (short_opt flag)) (comma ∷ b' ' ∷ (pad n (long_opt flag) ++ b' ' ∷ [])),
      length-append (pad n (long_opt flag)) (b' ' ∷ []),
    )

-- The lines of `usage` for any table of flags: each is a text that ends with the help of its flag,
-- and in all of them the help starts in the same column.
usage-columns :
    (flags : List CmdFlag) (exe : Bytes)
    → (usage flags exe
        ≡ (codes "Usage: " ++ (exe ++ codes " [OPTIONS]"))
          ∷ map (λ flag. columns (get_long_opt_max_len flags) flag ++ flag.opt_help) flags)
      × All
          (λ flag.
            length (columns (get_long_opt_max_len flags) flag) ≡ get_long_opt_max_len flags + 7)
          flags
unfolding usage
usage-columns flags exe = (
  ap (λ ls. (codes "Usage: " ++ (exe ++ codes " [OPTIONS]")) ∷ ls) (lines flags),
  All-map flags (max_len_from-All flags 0) λ flag h.
      length-columns (get_long_opt_max_len flags) flag (omega (arith, length-long_opt flag, h)),
)
  where
    n : ℕ
    n = get_long_opt_max_len flags

    lines :
        (fs : List CmdFlag)
        → map (flag_line n) fs ≡ map (λ flag. columns n flag ++ flag.opt_help) fs
    lines [] = refl
    lines (f ∷ fs) = ap₂ (λ x xs. x ∷ xs) (flag_line-columns n f) (lines fs)
