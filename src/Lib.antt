-- ===== src/Lib.antt =====
-- A model of CUDA Auto-Compat, which redirects programs to the newest CUDA driver library of a
-- system, with theorems about it.
--
-- The program. The search program (src/search) collects candidates for libcuda.so.1 from its command
-- line, CUDA_HOME and the search path of the dynamic linker, loads each to ask for its version, and
-- prints the directory of the newest one. The audit library (src/rtld-audit/audit.c) starts that
-- program through the search helper (src/utils/c/search_helper.c) when a process starts, hides
-- itself from LD_AUDIT meanwhile, and then sends the names of the driver's four libraries to the
-- directory that was printed. The IFUNC library (src/ifunc/libcuda.c) opens the libraries itself.
-- All of the C code works on paths with src/utils/c/path_utils.c.
--
-- The files.
--   Base: shared names, Boolean tests, lists, C strings as lists of bytes, `int` as an integer.
--   PathUtils: src/utils/c/path_utils.c: `next_token` and the loop over it (`tokens`), `path_prefix`,
--     `path_join`, `path_filename` and `path_filename2`. Lemmas: Words and Tokens, Prefix, Join,
--     Filename, RoundTrip. SelfPath is about `get_path_to_self`.
--   SearchHelper: `find_search_helper` and `find_libcuda` of src/utils/c/search_helper.c. Find is
--     about the first, Read and Located about the second, and Stderr about what both write to stderr.
--   Audit: `sanitize_ld_audit`, `restore_ld_audit`, `la_version`, `la_objsearch` and `la_objopen` of
--     src/rtld-audit/audit.c. Backup, Sanitize and Version are about LD_AUDIT, Names, Redirect,
--     Unset and Start about the names; Stderr is about what they write to stderr.
--   FilePath: std::filesystem::path on POSIX, as the search uses it. Names has its lemmas.
--   Search: `get_libcuda_api_ver`, `check_file_exists` and `update_libcuda` of
--     src/search/search.cxx. Search/Scan has the five searches, Search/Main `main` and the report of
--     src/search/main.cxx and `init_logging` of src/search/init.cxx. Rating and Maximum describe the
--     best candidate without caches, and First the first one that can be used; Caches and Best are
--     about the caches; Runs, Candidates, Libraries, Tried and Result turn the searches into runs over
--     a list of candidates; Companions says what the directory of a driver must have;
--     Total and Newest are about when `main` returns and what it names, Subset and Order about the
--     order of the search path; Usable, Toolkit and Report have the other properties.
--   ParseArgs: src/search/parse_args.cxx: `add_path` and `parse_paths`, and in CommandLine
--     `parse_args_helper` and `parse_args`, in DefaultPath `get_default_search_path`. Fields, Distinct,
--     Ends, Sound and Returns have the properties.
--     Flags has the table of options, what is made from it for getopt_long, and the usage text, with
--     Tables and Usage.
--   DriverLibs: src/ifunc/libcuda.c, with Unload.
--   DlLibrary: the class of src/utils/cpp/dl_library.cxx, with Lifetime. Symbols has the look-ups
--     of its callers, and Versions the part of `get_libcuda_api_ver` that uses them. The modules of
--     Search do not use the class: they ask the record of the system for the library of a path.
--   Startup: the search program as the helper of the audit library, from the command line to the
--     names that the loader asks for. Helper has the way as a whole, Returns the end of the program.
--   Logging: src/utils/cpp/logging.h, with Levels and Columns.
--   Messages: the search program again, with every message that it gives to the log: the computations
--     with messages, and what of them is written. Load, Update, Scan and Main are about
--     src/search/search.cxx, src/search/main.cxx and src/search/init.cxx, Args and CommandLine about
--     src/search/parse_args.cxx, and Program puts all together. Decimal has the numbers in the
--     messages. Refine compares all of this with the modules above. Post has postconditions; Verdict,
--     Errors, Silent and Outcome have the properties of the messages.
--   Examples: the two programs of src/examples, with Status, and the text of their lines in Text.
--   Stubs: the driver and the runtime library of tests/stubs. Driver is about what the search reads
--     from them, Runtime about the calls of cudart_driver.c. Tree has tests of tests/CMakeLists.txt, on
--     the tree of libraries that they run on.
--   Version: src/utils/version/version.c.
--   The modules called Tests run the definitions on small inputs.
--
-- How it is modelled. A C string is the list of its bytes, and NULL is `none` or the empty list
-- where the code treats both alike. A length of type `int` that is -1 on an error is `none`. A buffer
-- has PATH_MAX = 4096 bytes, and what does not fit is the error that the code reports. An exception
-- that nobody catches is `thrown`: it ends the process. The sets and maps of the search are lists. The
-- environment, the file system, the dynamic loader, pipes, getopt_long and the standard input are
-- parameters: records of functions and values.
--
-- Fuel. `tokens` and `read_loop` have one unit for each byte, `check_path_ends_with` four rounds for
-- a suffix of three components, `parse_fields` one round more than there are bytes, and
-- `parse_args_helper` one call more than there are lines to read, and `digits` one round more than the
-- number is large. The loops take no more rounds than that.
--
-- Not modelled: the time in the header of a log line. The texts of dlerror, strerror and the driver are
-- parameters. The headers that src/ifunc/libcuda.c includes are not in the repository. CMake files,
-- scripts and container files are no code of the program. `int` does not overflow in the model of the
-- search: versions are far from its bounds.
pub mod Base
pub mod PathUtils
pub mod SearchHelper
pub mod Audit
pub mod FilePath
pub mod Examples
pub mod Stubs
pub mod Search
pub mod ParseArgs
pub mod DriverLibs
pub mod DlLibrary
pub mod Startup
pub mod Logging
pub mod Messages
pub mod Version
