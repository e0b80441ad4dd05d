-- ===== src/Program/Exit.antt =====
-- src/main.cpp: the exit code of the program.
use launch_cpp.Prelude.{
  ◌≡◌, refl, Bool, true, false, Option, some, List, [], ◌∷◌, Str, ◌∙◌, if◌then◌else◌, arith, ap,
}
use launch_cpp.Errors.{Result, ok, err}
use launch_cpp.Context.{new_context}
use launch_cpp.Prelude.Ordered.{Map}
use launch_cpp.Actions.{Actions, Host, visit_description}
use launch_cpp.Service.{Service, create, include_launch_description, run, visit_all}
use launch_cpp.Service.Lifecycle.{run_idle}
use launch_cpp.Program.{is_help, main, run_loaded, run_included, create_service}

abbrev pub is_ok : {A : Type 0} → Result A → Bool
is_ok (ok a) = true
is_ok (err e) = false

module _ (host : Host) (environment : Map Str) where
  visit_all-one :
      (description : Actions) (w : host.World)
      → (visit_all host (some description ∷ []) (new_context environment, w)).0
        ≡ is_ok (visit_description host description (new_context environment, w)).0
  unfolding visit_all
  visit_all-one description w = ground arith

  included : Actions → host.World → Service host
  unfolding include_launch_description
  included description w =
      (include_launch_description host (some description) (create host environment w)).0

  run-included :
      (description : Actions) (w : host.World)
      → (run host true (included description w)).1 ≡ (
          if is_ok (visit_description host description (new_context environment, w)).0
          then 0
          else 1)
  unfolding included include_launch_description
  run-included description w =
      (run_idle host (included description w) true refl).0
      ∙ ap (λ b. if b then 0 else 1) (visit_all-one description w)

  -- With a launch file that loads, the program exits with 0 when visiting the description in a new
  -- context, which has nothing but the environment of the program, succeeds and with 1 when it does
  -- not; the arguments after the file change neither.
  pub main-visit_description :
      (load : Str → Result (Option Actions)) (program launch_file : Str) (args : List Str)
      (description : Actions) (w : host.World)
      → is_help launch_file ≡ false
      → load launch_file ≡ ok (some description)
      → main host load (program ∷ (launch_file ∷ args)) environment w ≡ (
          if is_ok (visit_description host description (new_context environment, w)).0
          then 0
          else 1)
  unfolding main run_loaded run_included create_service included include_launch_description
  main-visit_description load program launch_file args description w named loads =
      rw (main, named, loads) (run-included description w)
