-- ===== src/Messages/Errors.antt =====
-- The messages of search/parse_args.cxx at level `error`.
pub mod CommandLine
use cuda_autocompat.Base.{
  ℕ, zero, suc, ◌≡◌, refl, sym, subst, append_assoc, append-nil, ap, ◌∙◌, Bool, true, false, not,
  ◌||◌, Option, none, some, List, [], ◌∷◌, ◌++◌, map, All, All-append, if◌then◌else◌, ◌==◌, leb,
  length, Bytes, codes, bytes_eq, arith,
}
use cuda_autocompat.FilePath.{FilePath}
use cuda_autocompat.Search.{Throws, returned, System}
use cuda_autocompat.Search.Scan.{Loop, answer, out_of_fuel}
use cuda_autocompat.Search.Main.{level_trace}
use cuda_autocompat.ParseArgs.{Paths}
use cuda_autocompat.ParseArgs.Flags.{cmd_flags, flag_line, get_long_opt_max_len, usage}
use cuda_autocompat.ParseArgs.CommandLine.{
  CmdOption, search_path, libs, help, unrecognized, missing_argument, Shell, ArgState, argv_of_line,
  program_of, start,
}
use cuda_autocompat.Logging.{level_error, level_info, level_debug}
use cuda_autocompat.Messages.{Message, Logged, pure, lift, ◌>>=◌, ◌>>◌, say}
use cuda_autocompat.Messages.Args.{ArgTexts}
use cuda_autocompat.Messages.CommandLine.{
  error, log_each, run_options_logged, run_words, run_operand_logged, run_operands_logged,
  parse_args_helper_logged, finish_logged, parse_args_logged,
}
use cuda_autocompat.Messages.Refine.{IsVerbose, AnyMessage}
use cuda_autocompat.Messages.Refine.Args.{
  parse_paths_logged-Refines, get_default_search_path_logged-Refines,
}
use cuda_autocompat.Messages.Post.{
  Post, pure-Post, bind-Post, say-Post, if-Post, option-Post, weaken-Post, list-Post, result-Post,
  messages-Post, holds-Post,
}

abbrev pub note : ℕ → Bytes → Message
note level text = record { level = level; text = text }

unfoldable pub has_error : List Message → Bool
has_error [] = false
has_error (m ∷ ms) = m.level == level_error || has_error ms

-- One of the lines has no words.
unfoldable pub any_blank : List Bytes → Bool
any_blank [] = false
any_blank (line ∷ lines) = elim (argv_of_line line) [ [] ↦ true | w ∷ words ↦ any_blank lines ]

pub any_blank-blank :
    (line : Bytes) (lines : List Bytes) → argv_of_line line ≡ [] → any_blank (line ∷ lines) ≡ true
unfolding any_blank
any_blank-blank line lines f = rw (any_blank, f) refl

pub any_blank-words :
    (line word : Bytes) (words lines : List Bytes)
    → argv_of_line line ≡ word ∷ words
    → any_blank (line ∷ lines) ≡ any_blank lines
unfolding any_blank
any_blank-words line word words lines f = rw (any_blank, f) refl

pub or_right : (a b : Bool) → b ≡ true → (a || b) ≡ true
or_right true b h = refl
or_right false b h = h

pub has_error-append :
    (ms ns : List Message) → has_error (ms ++ ns) ≡ (has_error ms || has_error ns)
unfolding has_error
has_error-append [] ns = refl
has_error-append (m ∷ ms) ns = rw (has_error-append ms ns) (ground arith)

pub has_error-between :
    (ms ns : List Message) (text text' : Bytes)
    → has_error (ms ++ note level_info text ∷ (ns ++ note level_error text' ∷ [])) ≡ true
unfolding has_error
has_error-between [] [] text text' = refl
has_error-between [] (n ∷ ns) text text' =
    or_right (n.level == level_error) _ (has_error-between [] ns text text')
has_error-between (m ∷ ms) ns text text' =
    or_right (m.level == level_error) _ (has_error-between ms ns text text')

pub has_error-IsVerbose : (ms : List Message) → All IsVerbose ms → has_error ms ≡ false
unfolding has_error
has_error-IsVerbose [] h = refl
has_error-IsVerbose (m ∷ ms) (v, h) = let e = has_error-IsVerbose ms h in ground arith

abbrev pub is_none : {A : Type 0} → Option A → Bool
is_none none = true
is_none (some a) = false

-- From standard input `stdin`: on success no message is an error and each blank line that is left was there before;
-- otherwise there is an error, or a line is blank.
abbrev pub Honest : List Bytes → List Message → Bool × ArgState → Type 0
Honest stdin ms (true, t) = All IsVerbose ms × (any_blank t.stdin ≡ true → any_blank stdin ≡ true)
Honest stdin ms (false, t) = (has_error ms || any_blank stdin) ≡ true

abbrev pub HonestLoop : List Bytes → List Message → Loop (Bool × ArgState) → Type 0
HonestLoop stdin ms out_of_fuel = Unit
HonestLoop stdin ms (answer r) = Honest stdin ms r

pub or_weaken : (a b c d : Bool) → (b || c) ≡ true → (c ≡ true → d ≡ true) → ((a || b) || d) ≡ true
or_weaken true b c d h k = refl
or_weaken false true c d h k = refl
or_weaken false false c d h k = k h

pub append-Honest :
    (stdin stdin' : List Bytes) (ms ns : List Message) (r : Bool × ArgState)
    → All IsVerbose ms
    → (any_blank stdin' ≡ true → any_blank stdin ≡ true)
    → Honest stdin' ns r
    → Honest stdin (ms ++ ns) r
append-Honest stdin stdin' ms ns (true, t) h k (v, l) =
    (All-append IsVerbose ms ns h v, λ b. k (l b))
append-Honest stdin stdin' ms ns (false, t) h k e =
    rw (has_error-append ms ns)
      (or_weaken (has_error ms) (has_error ns) (any_blank stdin') (any_blank stdin) e k)

pub append-HonestLoop :
    (stdin stdin' : List Bytes) (ms ns : List Message) (r : Loop (Bool × ArgState))
    → All IsVerbose ms
    → (any_blank stdin' ≡ true → any_blank stdin ≡ true)
    → HonestLoop stdin' ns r
    → HonestLoop stdin (ms ++ ns) r
append-HonestLoop stdin stdin' ms ns out_of_fuel h k e = tt
append-HonestLoop stdin stdin' ms ns (answer r) h k e = append-Honest stdin stdin' ms ns r h k e

-- All messages of a loop have a property that what follows may use.
pub log_each-Post :
    {A : Type 0} {E : List Message → A → Type 0} (P : Message → Type 0) (level : ℕ)
    (lines : List Bytes) {next : Logged A}
    → ((text : Bytes) → P (record { level = level; text = text }))
    → ((ns : List Message) → All P ns → Post (λ ms a. E (ns ++ ms) a) next)
    → Post E (log_each (say level) lines next)
unfolding log_each
log_each-Post P level [] p k = k [] tt
log_each-Post P level (line ∷ lines) p k =
    say-Post (log_each-Post P level lines p (λ ns h. k (_ ∷ ns) (p line, h)))

-- What comes after a part that ended with true.
pub after-Honest :
    (stdin : List Bytes) (ms : List Message) (b : Bool × ArgState)
    (next : Logged (Loop (Bool × ArgState)))
    → Honest stdin ms b
    → Post (HonestLoop b.1.stdin) next
    → Post
        (λ ns r. HonestLoop stdin (ms ++ ns) r)
        (if not b.0 then pure (answer (false, b.1)) else next)
after-Honest stdin ms (true, t) next (v, l) h =
    weaken-Post h (λ ns r d. append-HonestLoop stdin t.stdin ms ns r v l d)
after-Honest stdin ms (false, t) next d h =
    pure-Post (subst (λ x. (has_error x || any_blank stdin) ≡ true) (sym (append-nil ms)) d)

pub after_loop-Honest :
    (stdin : List Bytes) (ms : List Message) (r : Loop (Bool × ArgState))
    (next : Bool × ArgState → Logged (Loop (Bool × ArgState)))
    → HonestLoop stdin ms r
    → ((b : Bool × ArgState) → Post (HonestLoop b.1.stdin) (next b))
    → Post
        (λ ns r. HonestLoop stdin (ms ++ ns) r)
        (elim r [
          | out_of_fuel ↦ pure out_of_fuel
          | answer b ↦ if not b.0 then pure (answer (false, b.1)) else next b
        ])
after_loop-Honest stdin ms out_of_fuel next d h = pure-Post tt
after_loop-Honest stdin ms (answer b) next d h = after-Honest stdin ms b (next b) d (h b)
