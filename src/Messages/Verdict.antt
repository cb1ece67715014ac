-- ===== src/Messages/Verdict.antt =====
-- The first and the last message of a call of `update_libcuda` of search/search.cxx.
use cuda_autocompat.Base.{
  ℕ, ◌≡◌, refl, ap, sym, ◌∙◌, append_assoc, Bool, true, false, not, Option, none, some, List, [],
  ◌∷◌, ◌++◌, if◌then◌else◌, Bytes, codes,
}
use cuda_autocompat.Base.Int.{ℤ, pos, ltb_ℤ, is_zero}
use cuda_autocompat.FilePath.{FilePath, parent_path, ◌/path◌}
use cuda_autocompat.Search.{
  returned, System, Stat, SearchResult, SearchState, is_dir, contains_path, contains_inode,
  check_file_exists,
}
use cuda_autocompat.Logging.{level_info}
use cuda_autocompat.Messages.{Message, Logged, lift, ◌>>=◌, ◌>>◌, say, Texts}
use cuda_autocompat.Messages.Decimal.{format_int}
use cuda_autocompat.Messages.Load.{get_libcuda_api_ver_logged}
use cuda_autocompat.Messages.Update.{
  skip_reason, skip, set_found, offer_logged, require, with_version_logged, with_directory_logged,
  stat_failed, look_at_directory, update_libcuda_logged,
}
use cuda_autocompat.Messages.Post.{
  Post, pure-Post, bind-Post, say-Post, if-Post, option-Post, stat-Post, any-Post, weaken-Post,
  holds-Post,
}

abbrev verdict : Bool → Bytes → Message
verdict updated reason = record {
  level = level_info;
  text =
      codes "libcuda: "
      ++ ((if updated then codes "Updating (" else codes "Skipping (") ++ (reason ++ codes ")"));
}

-- Nothing is found yet, or an older version.
abbrev is_newer : ℤ → Option SearchResult → Bool
is_newer ver none = true
is_newer ver (some best) = ltb_ℤ best.version ver

-- What the last message says of a call that starts with `found`: the result is 0 and the library's
-- directory is found, with a newer version; or the result is another one and `found` stays.
pub data Verdict (dir : FilePath) (found : Option SearchResult) (ms : List Message)
    (r : ℤ × SearchState) : Type 0 where
  updating :
      (before : List Message) (reason : Bytes) (ver : ℤ)
      → ms ≡ before ++ verdict true reason ∷ []
      → r.0 ≡ pos 0
      → r.1.found ≡ some (record { version = ver; driver_dir = dir })
      → is_newer ver found ≡ true
      → Verdict dir found ms r
  skipping :
      (before : List Message) (reason : Bytes)
      → ms ≡ before ++ verdict false reason ∷ []
      → is_zero r.0 ≡ false
      → r.1.found ≡ found
      → Verdict dir found ms r

-- The first message is the path, and the last one the result.
pub record Report (path : FilePath) (found : Option SearchResult) (ms : List Message)
    (r : ℤ × SearchState) : Type 0 where
  pub rest : List Message
  pub eq : ms ≡ record { level = level_info; text = codes "libcuda: " ++ path } ∷ rest
  pub ends : Verdict (parent_path path) found rest r

append-Verdict :
    {dir : FilePath} {found : Option SearchResult} (ms ns : List Message) (r : ℤ × SearchState)
    → Verdict dir found ns r
    → Verdict dir found (ms ++ ns) r
append-Verdict ms ns r (updating before reason ver eq zero_eq taken newer) =
    updating (ms ++ before) reason ver
      (ap (λ t. ms ++ t) eq ∙ sym (append_assoc ms before (verdict true reason ∷ []))) zero_eq taken
      newer
append-Verdict ms ns r (skipping before reason eq nonzero kept) =
    skipping (ms ++ before) reason
      (ap (λ t. ms ++ t) eq ∙ sym (append_assoc ms before (verdict false reason ∷ []))) nonzero kept

-- What is logged before does not matter.
say-Verdict :
    {dir : FilePath} {found : Option SearchResult} {level : ℕ} {text : Bytes}
    {k : Logged (ℤ × SearchState)}
    → Post (Verdict dir found) k
    → Post (Verdict dir found) (say level text >> k)
say-Verdict h = say-Post (weaken-Post h (append-Verdict (_ ∷ [])))

bind-Verdict :
    {dir : FilePath} {found : Option SearchResult} {A : Type 0} (m : Logged A)
    {f : A → Logged (ℤ × SearchState)}
    → ((a : A) → Post (Verdict dir found) (f a))
    → Post (Verdict dir found) (m >>= f)
bind-Verdict m h = bind-Post (any-Post m) (λ ms a u. weaken-Post (h a) (append-Verdict ms))

skip-Verdict :
    (reason : Bytes) {dir : FilePath} (s : SearchState) → Post (Verdict dir s.found) (skip reason s)
skip-Verdict reason s = say-Post (pure-Post (skipping [] reason refl refl refl))

set_found-Verdict :
    (reason : Bytes) (ver : ℤ) (dir : FilePath) (s : SearchState)
    → is_newer ver s.found ≡ true
    → Post (Verdict dir s.found) (set_found reason ver dir s)
set_found-Verdict reason ver dir s newer =
    say-Post (pure-Post (updating [] reason ver refl refl refl newer))

offer_logged-Verdict :
    (ver : ℤ) (dir : FilePath) (s : SearchState)
    → Post (Verdict dir s.found) (offer_logged ver dir s)
offer_logged-Verdict ver dir s = say-Verdict (
    option-Post s.found
      (λ e. set_found-Verdict (codes "first found") ver dir s (ap (is_newer ver) e))
      (λ best e.
        let versions : Bytes → Bytes =
          λ sign. format_int ver ++ (sign ++ format_int best.version) in
        if-Post (ltb_ℤ best.version ver)
          (λ newer.
            set_found-Verdict (versions (codes " > ")) ver dir s (ap (is_newer ver) e ∙ newer))
          (λ older. say-Post (pure-Post (skipping [] (versions (codes " <= ")) refl refl refl)))))

module _ (sys : System) (texts : Texts) where
  require-Verdict :
      (dir : FilePath) (file name : Bytes) (s : SearchState) {next : Logged (ℤ × SearchState)}
      → Post (Verdict dir s.found) next
      → Post (Verdict dir s.found) (require sys texts dir file name s next)
  require-Verdict dir file name s h =
      bind-Verdict (lift (check_file_exists sys (dir /path file)))
        (λ there. if-Post (not there) (λ e. skip-Verdict (name ++ codes " not found") s) (λ e. h))

  with_version_logged-Verdict :
      (dir : FilePath) (s : SearchState) (ver : ℤ)
      → Post (Verdict dir s.found) (with_version_logged sys texts dir s ver)
  with_version_logged-Verdict dir s ver =
      let nvvm = codes "libnvidia-nvvm.so.4" in
      let ptx = codes "libnvidia-ptxjitcompiler.so.1" in
      let debugger = codes "libcudadebugger.so.1" in
      option-Post (skip_reason ver)
        (λ e. require-Verdict dir nvvm nvvm s (
          require-Verdict dir ptx nvvm s
            (require-Verdict dir debugger debugger s (offer_logged-Verdict ver dir s))))
        (λ reason e. skip-Verdict reason s)

  with_directory_logged-Verdict :
      (path dir : FilePath) (s : SearchState) (st : Stat)
      → Post (Verdict dir s.found) (with_directory_logged sys texts path dir s st)
  with_directory_logged-Verdict path dir s st =
      let checked : ℤ × List (ℕ × ℤ) → SearchState = λ found. record s {
        dir_inode_cache = st.st_ino ∷ s.dir_inode_cache;
        ver_cache = found.1;
      } in
      if-Post (not (is_dir st.kind)) (λ e. skip-Verdict (codes "directory error") s)
        (λ e.
          if-Post (contains_inode st.st_ino s.dir_inode_cache)
            (λ f. say-Verdict (skip-Verdict (codes "directory inode already checked") s))
            (λ f.
              bind-Verdict (get_libcuda_api_ver_logged sys texts path s.ver_cache)
                (λ found. with_version_logged-Verdict dir (checked found) found.0)))

  stat_failed-Verdict :
      (dir : FilePath) (s : SearchState) → Post (Verdict dir s.found) (stat_failed sys texts dir s)
  stat_failed-Verdict dir s = say-Verdict (skip-Verdict (codes "directory stat error") s)

  look_at_directory-Verdict :
      (path dir : FilePath) (s : SearchState)
      → Post (Verdict dir s.found) (look_at_directory sys texts path dir s)
  look_at_directory-Verdict path dir s = say-Verdict (
      stat-Post (sys.stat dir) (stat_failed-Verdict dir s) (stat_failed-Verdict dir s)
        (with_directory_logged-Verdict path dir s))

  -- A call of `update_libcuda` that returns logs the library first. The last message is either that
  -- the search is updated: then the result is 0, and the directory of the library is what is found
  -- from then on, with a version newer than the one found before, if any; or that the library is
  -- skipped: then the result is not 0, and what is found is what it was before.
  pub update_libcuda_logged-Verdict :
      (path : FilePath) (s : SearchState) (r : ℤ × SearchState)
      → (update_libcuda_logged sys texts path s).1 ≡ returned r
      → Report path s.found (update_libcuda_logged sys texts path s).0 r
  unfolding update_libcuda_logged
  update_libcuda_logged-Verdict path s r e =
      let rest : Post (Verdict (parent_path path) s.found) _ =
        if-Post (contains_path (parent_path path) s.dir_path_cache)
          (λ f. skip-Verdict (codes "directory already checked") s)
          (λ f.
            look_at_directory-Verdict path (parent_path path)
              (record s { dir_path_cache = parent_path path ∷ s.dir_path_cache })) in
      record { rest = _; eq = refl; ends = holds-Post rest e }
