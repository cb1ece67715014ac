-- ===== src/ParseArgs/Flags.antt =====
-- The first part of search/parse_args.cxx: the table of options, the tables that it makes for
-- getopt_long, and the usage text.
pub mod Tables
pub mod Usage
mod Tests
use cuda_autocompat.Base.{
  ℕ, zero, suc, ◌+◌, ◌-◌, ◌*◌, ◌≡◌, Bool, true, false, not, ◌&&◌, ◌||◌, List, [], ◌∷◌, ◌++◌, map,
  if◌then◌else◌, ◌==◌, ltb, length, replicate, Bytes, codes, zeros, write,
}

-- A missing short option is NUL, and a missing text is empty.
pub record CmdFlag : Type 0 where
  pub opt_short : ℕ
  pub opt_long : Bytes
  pub opt_value : Bytes
  pub opt_help : Bytes

-- CMD_FLAGS
abbrev pub cmd_flags : List CmdFlag
cmd_flags =
    record {
      opt_short = b'p';
      opt_long = codes "search-path";
      opt_value = codes "PATH";
      opt_help = codes "Colon-separated library search path.";
    }
    ∷ record {
      opt_short = b'l';
      opt_long = codes "libs";
      opt_value = codes "LIBRARIES";
      opt_help = codes "Colon-separated library list to search.";
    }
    ∷ record {
      opt_short = b'h';
      opt_long = codes "help";
      opt_value = [];
      opt_help = codes "Display this help and exit.";
    }
    ∷ []

abbrev pub is_nil : Bytes → Bool
is_nil [] = true
is_nil (c ∷ s) = false

abbrev pub max : ℕ → ℕ → ℕ
max a b = if ltb a b then b else a

-- `len` in the loop over the flags; it stays 0 without a long option.
abbrev pub long_opt_len : CmdFlag → ℕ
long_opt_len flag =
    if is_nil flag.opt_long
    then 0
    else if is_nil flag.opt_value
    then 2 + length flag.opt_long
    else 2 + length flag.opt_long + (1 + length flag.opt_value)

abbrev pub max_len_from : ℕ → List CmdFlag → ℕ
max_len_from max_len [] = max_len
max_len_from max_len (flag ∷ flags) = max_len_from (max max_len (long_opt_len flag)) flags

unfoldable pub get_long_opt_max_len : List CmdFlag → ℕ
get_long_opt_max_len flags = max_len_from 0 flags

-- `{:<n}` of std::format: spaces behind a text that is shorter.
abbrev pub pad : ℕ → Bytes → Bytes
pad n s = s ++ replicate (n - length s) b' '

abbrev pub short_opt : CmdFlag → Bytes
short_opt flag = if flag.opt_short == 0 then [] else b'-' ∷ flag.opt_short ∷ []

abbrev pub long_opt : CmdFlag → Bytes
long_opt flag =
    if is_nil flag.opt_long
    then []
    else if is_nil flag.opt_value
    then codes "--" ++ flag.opt_long
    else codes "--" ++ (flag.opt_long ++ b'=' ∷ flag.opt_value)

-- The line of one flag.
abbrev pub flag_line : ℕ → CmdFlag → Bytes
flag_line max_len flag =
    let comma = if is_nil (short_opt flag) || is_nil (long_opt flag) then b' ' else b',' in
    codes "  "
    ++ (pad 2 (short_opt flag)
        ++ comma ∷ b' ' ∷ (pad max_len (long_opt flag) ++ b' ' ∷ flag.opt_help))

-- The messages that `usage` gives to `log_error`.
unfoldable pub usage : List CmdFlag → Bytes → List Bytes
unfolding get_long_opt_max_len
usage flags exe =
    (codes "Usage: " ++ (exe ++ codes " [OPTIONS]"))
    ∷ map (flag_line (get_long_opt_max_len flags)) flags

-- The state of `generate_shortopts`: the buffer, and the offset of `out`.
pub record ShortOpts : Type 0 where
  pub buf : Bytes
  pub out : ℕ

-- `*out++ = c`
abbrev pub put : ℕ → ShortOpts → ShortOpts
put c s = record { buf = write s.buf s.out (c ∷ []); out = s.out + 1 }

abbrev pub put_flag : CmdFlag → ShortOpts → ShortOpts
put_flag flag s =
    if flag.opt_short == 0
    then s
    else if is_nil flag.opt_value
    then put flag.opt_short s
    else put b':' (put flag.opt_short s)

abbrev pub put_flags : List CmdFlag → ShortOpts → ShortOpts
put_flags [] s = s
put_flags (flag ∷ flags) s = put_flags flags (put_flag flag s)

abbrev pub shortopts_len : List CmdFlag → ℕ
shortopts_len flags = 1 + length flags * 2 + 1

unfoldable pub generate_shortopts : List CmdFlag → ShortOpts
generate_shortopts flags =
    put_flags flags (put b':' (record { buf = zeros (shortopts_len flags); out = 0 }))

-- `struct option` of getopt.h, and the kinds of argument.
pub record LongOption : Type 0 where
  pub name : Bytes
  pub has_arg : Bool
  pub val : ℕ

abbrev long_option : CmdFlag → LongOption
long_option flag = record {
  name = flag.opt_long;
  has_arg = not (is_nil flag.opt_value);
  val = flag.opt_short;
}

-- Without the entry of zeros at its end.
unfoldable pub generate_longopts : List CmdFlag → List LongOption
generate_longopts flags = map long_option flags
