-- ===== src/Startup.antt =====
-- How the programs work together: the search program of src/search, from its command line to its
-- exit, is the helper that the audit library runs at the start of a process.
pub mod Helper
pub mod Returns
mod Tests
use cuda_autocompat.Base.{List, [], Bytes, if◌then◌else◌, ◌==◌}
use cuda_autocompat.Search.{Throws, returned, thrown, ◌>>=◌, System}
use cuda_autocompat.Search.Main.{Exit, exit_success, main}
use cuda_autocompat.ParseArgs.CommandLine.{Shell, parse_args}
use cuda_autocompat.SearchHelper.{Pipe, success, failure}

-- `main` of search/main.cxx from `parse_args` on, on a command line and the lines of the input.
unfoldable pub search_program : System → Shell → List Bytes → List Bytes → Throws Exit
search_program sys shell argv stdin = do args ← parse_args sys shell argv stdin; main sys args

-- What `popen` gives to the parent of a process that ends like this. An exception that nobody
-- catches ends the process by a signal.
abbrev pub pipe_of : Throws Exit → Pipe
pipe_of (returned e) = record {
  stream = e.output;
  status = if e.status == exit_success then success else failure;
}
pipe_of thrown = record { stream = []; status = failure }
