-- ===== src/ParseArgs/Flags/Tables.antt =====
-- What getopt_long reads in the tables of search/parse_args.cxx.
use cuda_autocompat.Base.{
  ℕ, zero, suc, ◌+◌, ◌-◌, ◌*◌, ◌≤◌, ◌<◌, ◌≡◌, ◌≢◌, refl, sym, ap, ap₂, ◌∙◌, Bool, true, false, not,
  ◌&&◌, Option, none, some, List, [], ◌∷◌, ◌++◌, append_assoc, append-nil, if◌then◌else◌, ◌==◌,
  length, length-append, length-replicate, Bytes, zeros, write-middle, All, Lacks, Lacks-append,
  c_string, c_string-append_zeros, c_head, arith,
}
use cuda_autocompat.ParseArgs.Flags.{
  CmdFlag, is_nil, ShortOpts, put, put_flag, put_flags, shortopts_len, generate_shortopts,
  LongOption, generate_longopts,
}

-- What the string of short options says, put together in one piece.
abbrev flag_text : CmdFlag → Bytes
flag_text flag =
    if flag.opt_short == 0
    then []
    else if is_nil flag.opt_value
    then flag.opt_short ∷ []
    else flag.opt_short ∷ b':' ∷ []

abbrev flags_text : List CmdFlag → Bytes
flags_text [] = []
flags_text (flag ∷ flags) = flag_text flag ++ flags_text flags

length-flags_text : (flags : List CmdFlag) → length (flags_text flags) ≤ length flags * 2
length-flags_text [] = omega arith
length-flags_text (flag ∷ flags) =
    ground (arith, length-append (flag_text flag) (flags_text flags), length-flags_text flags)

-- A buffer that holds a text, and zeros behind it.
abbrev holding : Bytes → ℕ → ShortOpts
holding text n = record { buf = text ++ zeros n; out = length text }

put-holding :
    (c : ℕ) (text : Bytes) (n : ℕ) → put c (holding text (suc n)) ≡ holding (text ++ c ∷ []) n
put-holding c text n =
    ap₂ (λ (b : Bytes) (o : ℕ). record { buf = b; out = o })
      (write-middle text (0 ∷ []) (zeros n) (c ∷ []) refl refl
        ∙ sym (append_assoc text (c ∷ []) (zeros n)))
      (omega (arith, length-append text (c ∷ [])))

-- One flag, where its characters fit.
put_flag-holding :
    (flag : CmdFlag) (text : Bytes) (n : ℕ)
    → length (flag_text flag) ≤ n
    → put_flag flag (holding text n)
      ≡ holding (text ++ flag_text flag) (n - length (flag_text flag))
put_flag-holding flag text n h = go (flag.opt_short == 0) (is_nil flag.opt_value) n h
  where
    short : ℕ
    short = flag.opt_short

    text_of : Bool → Bool → Bytes
    text_of a b = if a then [] else if b then short ∷ [] else short ∷ b':' ∷ []

    same : (m : ℕ) → holding text m ≡ holding (text ++ []) (m - 0)
    same m = let e : m - 0 ≡ m = omega arith in rw (append-nil text, e) refl

    go :
        (a b : Bool) (m : ℕ)
        → length (text_of a b) ≤ m
        → (if a
            then holding text m
            else if b
            then put short (holding text m)
            else put b':' (put short (holding text m)))
          ≡ holding (text ++ text_of a b) (m - length (text_of a b))
    go true b m h = same m
    go false true zero h = absurd (omega (arith, h))
    go false true (suc m) h = let e : suc m - 1 ≡ m = omega arith in rw e (put-holding short text m)
    go false false zero h = absurd (omega (arith, h))
    go false false (suc zero) h = absurd (omega (arith, h))
    go false false (suc (suc m)) h =
        let e : suc (suc m) - 2 ≡ m = omega arith in
        rw e (
          ap (put b':') (put-holding short text (suc m))
          ∙ (put-holding b':' (text ++ short ∷ []) m
              ∙ ap (λ t. holding t m) (append_assoc text (short ∷ []) (b':' ∷ []))))

put_flags-holding :
    (flags : List CmdFlag) (text : Bytes) (n : ℕ)
    → length (flags_text flags) ≤ n
    → put_flags flags (holding text n)
      ≡ holding (text ++ flags_text flags) (n - length (flags_text flags))
put_flags-holding [] text n h = let e : n - 0 ≡ n = omega arith in rw (append-nil text, e) refl
put_flags-holding (flag ∷ flags) text n h =
    let one = flag_text flag in
    let more = flags_text flags in
    let both : length (one ++ more) ≡ length one + length more = length-append one more in
    let left : n - length one - length more ≡ n - length (one ++ more) = omega (arith, both) in
    ap (put_flags flags) (put_flag-holding flag text n (omega (arith, both, h)))
    ∙ (put_flags-holding flags (text ++ one) (n - length one) (omega (arith, both, h))
        ∙ ap₂ holding (append_assoc text one more) left)

-- The buffer of `generate_shortopts` is long enough for every table: it holds a colon, the
-- characters of the flags, and at least one NUL behind them.
generate_shortopts-flags_text :
    (flags : List CmdFlag)
    → generate_shortopts flags
      ≡ holding (b':' ∷ flags_text flags) (1 + length flags * 2 - length (flags_text flags))
unfolding generate_shortopts
generate_shortopts-flags_text flags =
    let e : shortopts_len flags ≡ suc (1 + length flags * 2) = omega arith in
    rw e (
      ap (put_flags flags) (put-holding b':' [] (1 + length flags * 2))
      ∙ put_flags-holding flags (b':' ∷ []) (1 + length flags * 2)
          (omega (arith, length-flags_text flags)))

-- getopt_long on a string of short options: whether an option is known, and then whether a colon
-- behind it asks for an argument. A colon is no option.
unfoldable pub takes_argument : ℕ → Bytes → Option Bool
takes_argument c [] = none
takes_argument c (x ∷ s) =
    let rest = takes_argument c s in
    if x == c && not (x == b':') then some (c_head s == b':') else rest

-- Whether the first long option with a short one asks for an argument.
abbrev pub long_takes_argument : ℕ → List LongOption → Option Bool
long_takes_argument c [] = none
long_takes_argument c (opt ∷ opts) =
    let rest = long_takes_argument c opts in if opt.val == c then some opt.has_arg else rest

-- No flag has a colon as its short option.
abbrev NoColon : List CmdFlag → Type 0
NoColon flags = All (λ flag. flag.opt_short ≢ b':') flags

c_head-flags_text : (flags : List CmdFlag) → NoColon flags → c_head (flags_text flags) ≢ b':'
c_head-flags_text [] h = ground arith
c_head-flags_text (flag ∷ flags) (f, h) = ground (arith, c_head-flags_text flags h)

takes_argument-flags_text :
    (c : ℕ) (flags : List CmdFlag)
    → c ≢ 0
    → c ≢ b':'
    → NoColon flags
    → takes_argument c (flags_text flags) ≡ long_takes_argument c (generate_longopts flags)
unfolding takes_argument generate_longopts
takes_argument-flags_text c [] z n h = refl
takes_argument-flags_text c (flag ∷ flags) z n (f, h) =
    ground (arith, c_head-flags_text flags h, takes_argument-flags_text c flags z n h)

Lacks-flags_text : (flags : List CmdFlag) → Lacks 0 (flags_text flags)
Lacks-flags_text [] = tt
Lacks-flags_text (flag ∷ flags) =
    Lacks-append 0 (flag_text flag) (flags_text flags) (ground arith) (Lacks-flags_text flags)

-- For every table of flags of which none is a colon: the buffer of `generate_shortopts` is not
-- overrun and ends with a NUL, and getopt_long reads in it for each character the same as in the
-- table of `generate_longopts`: whether it is an option, and whether it asks for an argument.
pub generate_shortopts-generate_longopts :
    (flags : List CmdFlag) (c : ℕ)
    → NoColon flags
    → c ≢ 0
    → c ≢ b':'
    → ((generate_shortopts flags).out < length (generate_shortopts flags).buf)
      × (takes_argument c (c_string (generate_shortopts flags).buf)
          ≡ long_takes_argument c (generate_longopts flags))
unfolding takes_argument
generate_shortopts-generate_longopts flags c h z n =
    let text : Bytes = b':' ∷ flags_text flags in
    let room : ℕ = 1 + length flags * 2 - length (flags_text flags) in
    let nul : ℕ = 0 in
    let clear = c_string-append_zeros text room (ground arith, Lacks-flags_text flags) in
    rw (generate_shortopts-flags_text flags) (
      omega (
        arith,
        length-flags_text flags,
        length-append text (zeros room),
        length-replicate room nul,
      ),
      ap (takes_argument c) clear ∙ ground (arith, takes_argument-flags_text c flags z n h),
    )
