-- ===== src/Startup/Helper.antt =====
-- The audit library with the search program as its helper.
use cuda_autocompat.Base.{
  ℕ, ◌+◌, ◌-◌, ◌<◌, ◌≡◌, refl, sym, subst, ap, ◌∙◌, ◌⊎◌, inl, inr, Bool, true, false, Option, some,
  List, [], length, take_all, arith, Bytes, Lacks, c_string, zeros, if◌then◌else◌, ◌==◌, ◌∷◌,
}
use mathlib.Core.Option
use cuda_autocompat.Base.Int.{ℤ}
use cuda_autocompat.FilePath.{FilePath}
use cuda_autocompat.PathUtils.{path_max}
use cuda_autocompat.SearchHelper.{Pipe, success, failure, find_search_helper}
use cuda_autocompat.SearchHelper.Read.{line_of, answer, find_libcuda-answer, before, contains}
use cuda_autocompat.Audit.{
  AuditState, LdAuditBackup, no_backup, sanitize_ld_audit, set_paths, la_version, la_objsearch,
  la_objopen,
}
use cuda_autocompat.Audit.Version.{ld_audit-la_version}
use cuda_autocompat.Audit.Redirect.{target, la_objsearch-target}
use cuda_autocompat.Audit.Unset.{unset_is_neutral}
use cuda_autocompat.Search.{returned, ◌>>=◌, System}
use cuda_autocompat.Search.Main.{Exit, exit_success, exit_failure, main}
use cuda_autocompat.Search.Runs.{Consistent}
use cuda_autocompat.Search.Tried.{all_candidates}
use cuda_autocompat.Search.Newest.{IsNewest, NoneRated, main-IsNewest}
use cuda_autocompat.ParseArgs.CommandLine.{Shell, parse_args}
use cuda_autocompat.Startup.{search_program, pipe_of}

before-Lacks : (c : ℕ) (s : Bytes) → Lacks c s → before c s ≡ s
before-Lacks c [] h = refl
before-Lacks c (x ∷ s) (n, h) = ground (arith, before-Lacks c s h)

contains-Lacks : (c : ℕ) (s : Bytes) → Lacks c s → contains c s ≡ false
contains-Lacks c [] h = refl
contains-Lacks c (x ∷ s) (n, h) = ground (arith, contains-Lacks c s h)

-- An output of one line that fits is kept whole.
line_of-Lacks : (s : Bytes) → Lacks 0 s → Lacks b'\n' s → length s < path_max → line_of s ≡ s
line_of-Lacks s z n short =
    rw (take_all (path_max - 1) s (omega arith), contains-Lacks 0 s z) (before-Lacks b'\n' s n)

abbrev piped : Exit → ℕ → Pipe
piped e k = record { stream = e.output; status = if k == exit_success then success else failure }

pipe_of-success :
    (e : Exit)
    → e.status ≡ exit_success
    → pipe_of (returned e) ≡ record { stream = e.output; status = success }
pipe_of-success e h = ap (piped e) h

pipe_of-failure :
    (e : Exit)
    → e.status ≡ exit_failure
    → pipe_of (returned e) ≡ record { stream = e.output; status = failure }
pipe_of-failure e h = ap (piped e) h

-- A directory that the audit library can take over: one line, with room for the longest soname.
abbrev Printable : Bytes → Type 0
Printable dir = Lacks 0 dir × Lacks b'\n' dir × (0 < length dir) × (length dir + 30 < path_max)

module _ (access : Bytes → Bool) (popen : Option Bytes → Bytes → Option Pipe)
    (self_path path_env ld_audit env : Option Bytes) (b : LdAuditBackup) (buf helper : Bytes) where
  -- The audit library, after a helper that was found and ended like this.
  la_version-pipe :
      (p : Pipe)
      → sanitize_ld_audit self_path ld_audit no_backup ≡ some (env, b)
      → find_search_helper access self_path path_env buf ≡ (true, helper)
      → popen (Option.map c_string env) (c_string helper) ≡ some p
      → la_version access popen self_path path_env ld_audit buf
        ≡ some (set_paths (answer (some p)) env)
  la_version-pipe p clean found ran =
      let ran_helper =
        find_libcuda-answer access (popen (Option.map c_string env)) self_path path_env buf in
      rw
        (
          ld_audit-la_version access popen self_path path_env ld_audit buf clean,
          ran_helper,
          found,
          ran,
        )
        refl

  la_objsearch-set :
      (dir name : Bytes)
      → Printable dir
      → Lacks 0 name
      → c_string (
          la_objsearch
            (set_paths (answer (some (record { stream = dir; status = success }))) env)
            name)
        ≡ target dir name
  la_objsearch-set dir name (z, n, pos, short) hn =
      rw (line_of-Lacks dir z n (omega (arith, short)))
        (la_objsearch-target dir z pos short env name hn)

  module _ (sys : System) (shell : Shell) (argv stdin : List Bytes) (paths : List FilePath)
      (e : Exit) where
    -- The whole way, from the start of a process to a name. The search program is the helper that is
    -- found; its arguments give directories and no libraries; its candidates agree in the sense of its
    -- caches; it returns; and a directory that it prints is one line with room for the longest soname.
    -- Then `la_version` succeeds. Either the directory is that of a candidate, no candidate that can
    -- be used is newer, and `la_objsearch` sends a name that starts with one of the four sonames there
    -- and keeps any other; or no candidate can be used, `la_objsearch` returns the name as it is, and
    -- `la_objopen` does not mark it.
    pub la_version-search_program :
        sanitize_ld_audit self_path ld_audit no_backup ≡ some (env, b)
        → find_search_helper access self_path path_env buf ≡ (true, helper)
        → popen (Option.map c_string env) (c_string helper)
          ≡ some (pipe_of (search_program sys shell argv stdin))
        → parse_args sys shell argv stdin ≡ returned (some (paths, []))
        → Consistent sys [] (all_candidates sys paths [])
        → search_program sys shell argv stdin ≡ returned e
        → (e.status ≡ exit_success → Printable e.output)
        → (name : Bytes) → Lacks 0 name
        → (s : AuditState) × (la_version access popen self_path path_env ld_audit buf ≡ some s)
          × (((ver : ℤ) × IsNewest sys (all_candidates sys paths []) ver e.output
                × (c_string (la_objsearch s name) ≡ target e.output name))
              ⊎ (NoneRated sys (all_candidates sys paths [])
                  × (la_objsearch s name ≡ name)
                  × (la_objopen s (some name) ≡ 0)))
    unfolding search_program
    la_version-search_program clean found ran parsed agree done fits name hn =
        let known : main sys (some (paths, [])) ≡ returned e =
          subst (λ m. (m >>= main sys) ≡ returned e) parsed done in
        let go =
          la_version-pipe (pipe_of (returned e)) clean found
            (ran ∙ ap (λ m. some (pipe_of m)) done) in
        (
          set_paths (answer (some (pipe_of (returned e)))) env,
          go,
          elim (main-IsNewest sys paths [] e refl agree known) [
            | inl (ok, (ver, newest)) ↦ inl (
              ver,
              newest,
              subst
                  (λ p.
                    c_string (la_objsearch (set_paths (answer (some p)) env) name)
                    ≡ target e.output name)
                  (sym (pipe_of-success e ok)) (la_objsearch-set e.output name (fits ok) hn),
            )
            | inr (failed, nothing) ↦
                let neutral =
                  subst
                    (λ p.
                      (la_objsearch (set_paths (answer (some p)) env) name ≡ name)
                      × (la_objopen (set_paths (answer (some p)) env) (some name) ≡ 0))
                    (sym (pipe_of-failure e failed)) (unset_is_neutral (zeros path_max) env name) in
                inr (nothing, neutral.0, neutral.1)
          ],
        )
