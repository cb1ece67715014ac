-- ===== src/Messages/Refine/Main.antt =====
-- `main` of search/main.cxx with and without its messages.
use cuda_autocompat.Base.{◌≡◌, refl, Option, none, some, List, []}
use cuda_autocompat.FilePath.{FilePath}
use cuda_autocompat.Search.{returned, System, SearchState, init}
use cuda_autocompat.Search.Main.{exit_success, exit_failure, search_all, main}
use cuda_autocompat.Messages.{Texts}
use cuda_autocompat.Messages.Main.{report, search_all_logged, main_logged}
use cuda_autocompat.Messages.Refine.{
  Refines, IsVerbose, pure-Refines, bind-Refines, say-Refines, option-Refines,
}
use cuda_autocompat.Messages.Refine.Scan.{
  search_libraries_libcuda_logged-Refines, search_libraries_libcudart_logged-Refines,
  search_cuda_home_logged-Refines, search_paths_libcudart_logged-Refines,
  search_paths_libcuda_logged-Refines,
}

module _ (sys : System) (texts : Texts) where
  report-Refines :
      (s : SearchState)
      → Refines IsVerbose (report sys texts s) (elim s.found [
        | some best ↦ returned (record { status = exit_success; output = best.driver_dir })
        | none ↦ returned (record { status = exit_failure; output = [] })
      ])
  report-Refines s = say-Refines refl (
      option-Refines s.found (say-Refines refl (pure-Refines _))
        (λ best e. say-Refines refl (say-Refines refl (pure-Refines _))))

  search_all_logged-Refines :
      (search_paths search_libs : List FilePath)
      → Refines IsVerbose
          (search_all_logged sys texts search_paths search_libs)
          (search_all sys search_paths search_libs)
  unfolding search_all_logged search_all
  search_all_logged-Refines search_paths search_libs =
      bind-Refines (search_libraries_libcuda_logged-Refines sys texts search_libs init) (λ s.
        option-Refines s.found
          (bind-Refines (search_libraries_libcudart_logged-Refines sys texts search_libs s) (λ s1.
            bind-Refines (search_cuda_home_logged-Refines sys texts s1) (λ s2.
              bind-Refines (search_paths_libcudart_logged-Refines sys texts search_paths s2)
                (λ s3. search_paths_libcuda_logged-Refines sys texts search_paths s3))))
          (λ best e. pure-Refines s))

  pub main_logged-Refines :
      (args : Option (List FilePath × List FilePath))
      → Refines IsVerbose (main_logged sys texts args) (main sys args)
  unfolding main_logged main search_all
  main_logged-Refines none = pure-Refines _
  main_logged-Refines (some (search_paths, search_libs)) =
      say-Refines refl
        (bind-Refines (search_all_logged-Refines search_paths search_libs) report-Refines)

  -- Whatever the system answers and the texts are, without its messages `main` has the same status
  -- and output, or throws in the same runs, as in the model that leaves them out.
  main_logged-main :
      (args : Option (List FilePath × List FilePath))
      → (main_logged sys texts args).1 ≡ main sys args
  main_logged-main args = (main_logged-Refines args).erased
