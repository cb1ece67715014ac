-- ===== src/ParseArgs.antt =====
-- search/parse_args.cxx: the search paths and libraries of the command line. getopt_long, the
-- standard input and the search path of the dynamic linker are parameters, and the messages are
-- in Messages; the usage text stands in Flags. A set of paths is a list.
mod Tests
pub mod Flags
pub mod DefaultPath
pub mod CommandLine
pub mod Fields
pub mod Distinct
pub mod Ends
pub mod Sound
pub mod Returns
use cuda_autocompat.Base.{
  ℕ, zero, suc, ◌≡◌, Bool, true, false, not, ◌&&◌, ◌||◌, Option, none, some, List, [], ◌∷◌, ◌++◌,
  if◌then◌else◌, ◌==◌, length, get_or, Bytes, codes, bytes_eq,
}
use cuda_autocompat.FilePath.{FilePath, path_eq}
use cuda_autocompat.Search.{
  Throws, returned, thrown, ◌>>=◌, System, StatResult, stat_ok, not_found, stat_error, is_dir,
  is_regular, contains_path,
}
use cuda_autocompat.Search.Scan.{Loop, answer, out_of_fuel}

-- `std::filesystem::status`: it throws on errors other than a missing file.
abbrev pub status_exists : StatResult → Throws Bool
status_exists (stat_ok st) = returned true
status_exists not_found = returned false
status_exists stat_error = thrown

abbrev pub status_is : Bool → StatResult → Throws Bool
status_is dir_mode (stat_ok st) = returned (if dir_mode then is_dir st.kind else is_regular st.kind)
status_is dir_mode not_found = returned false
status_is dir_mode stat_error = thrown

-- A vector of paths and the set of those that were processed.
pub record Paths : Type 0 where
  pub out : List FilePath
  pub cache : List FilePath

abbrev pub no_paths : Paths
no_paths = record { out = []; cache = [] }

abbrev pub seen_path : FilePath → Paths → Paths
seen_path src_path ps = record ps { cache = src_path ∷ ps.cache }

abbrev colon : ℕ
colon = b':'

-- The text before the first colon and behind it.
unfoldable pub find_colon : Bytes → Option (Bytes × Bytes)
find_colon [] = none
find_colon (c ∷ s) =
    let rest = find_colon s in
    if c == colon then some ([], s) else elim rest [ none ↦ none | some (a, b) ↦ some (c ∷ a, b) ]

module _ (sys : System) where
  -- A path that is not in the cache.
  unfoldable pub add_new : FilePath → Bool → Paths → Throws Paths
  add_new src_path dir_mode ps = do
    there ← status_exists (sys.stat src_path)
    if not there then returned (seen_path src_path ps) else do
      fits ← status_is dir_mode (sys.stat src_path)
      returned (
          if fits
          then record { out = ps.out ++ src_path ∷ []; cache = src_path ∷ ps.cache }
          else seen_path src_path ps)

  unfoldable pub add_unless_seen : FilePath → Bool → Paths → Throws Paths
  add_unless_seen src_path dir_mode ps =
      if contains_path src_path ps.cache then returned ps else add_new src_path dir_mode ps

  unfoldable pub add_path : Bytes → Bool → Paths → Throws Paths
  unfolding add_unless_seen add_new
  add_path [] dir_mode ps =
      if not dir_mode then returned ps else add_unless_seen (codes ".") dir_mode ps
  add_path (c ∷ src) dir_mode ps = add_unless_seen (c ∷ src) dir_mode ps

  -- The loop of `parse_paths`, from `cur` on: one unit of fuel for each field.
  unfoldable pub parse_fields : ℕ → Bytes → Bool → Paths → Throws (Loop Paths)
  parse_fields zero src dir_mode ps = returned out_of_fuel
  parse_fields (suc fuel) src dir_mode ps = elim (find_colon src) [
    | none ↦ do ps' ← add_path src dir_mode ps; returned (answer ps')
    | some (field, rest) ↦ do ps' ← add_path field dir_mode ps; parse_fields fuel rest dir_mode ps'
  ]

  abbrev pub loop_paths : Paths → Loop Paths → Paths
  loop_paths ps (answer ps') = ps'
  loop_paths ps out_of_fuel = ps

  unfoldable pub parse_paths : Bytes → Bool → Paths → Throws Paths
  parse_paths [] dir_mode ps = returned ps
  parse_paths (c ∷ src) dir_mode ps = do
    r ← parse_fields (suc (length (c ∷ src))) (c ∷ src) dir_mode ps
    returned (loop_paths ps r)

  -- The directories that the dynamic linker searches, each added like a path of the command line.
  unfoldable pub add_directories : List Bytes → Paths → Throws Paths
  add_directories [] ps = returned ps
  add_directories (d ∷ ds) ps = do ps' ← add_path d true ps; add_directories ds ps'
