-- ===== src/ParseArgs/Flags/Tests.antt =====
-- The tables and the usage text of the program's own options.
use cuda_autocompat.Base.{◌<◌, ◌≡◌, refl, [], ◌∷◌, ◌++◌, length, codes, c_string, zeros, arith}
use cuda_autocompat.ParseArgs.Flags.{cmd_flags, usage, generate_shortopts, generate_longopts}
use cuda_autocompat.ParseArgs.Flags.Tables.{
  takes_argument, long_takes_argument, generate_shortopts-generate_longopts,
}

short_options : (generate_shortopts cmd_flags).buf ≡ codes ":p:l:h" ++ zeros 2
unfolding generate_shortopts
short_options = refl

usage_text :
    usage cmd_flags (codes "search")
    ≡ codes "Usage: search [OPTIONS]"
      ∷ codes "  -p, --search-path=PATH Colon-separated library search path."
      ∷ codes "  -l, --libs=LIBRARIES   Colon-separated library list to search."
      ∷ codes "  -h, --help             Display this help and exit."
      ∷ []
unfolding usage
usage_text = refl

generate_shortopts-generate_longopts_example :
    ((generate_shortopts cmd_flags).out < length (generate_shortopts cmd_flags).buf)
    × (takes_argument b'p' (c_string (generate_shortopts cmd_flags).buf)
        ≡ long_takes_argument b'p' (generate_longopts cmd_flags))
generate_shortopts-generate_longopts_example =
    generate_shortopts-generate_longopts cmd_flags b'p' (omega arith) (omega arith) (omega arith)
