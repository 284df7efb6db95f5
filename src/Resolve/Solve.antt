-- ===== src/Resolve/Solve.antt =====
-- `solve` and `solve_environments`: all platforms of a request.
use conda_presto.Prelude.{
  String, ◌≡◌, refl, ◌⊎◌, inl, inr, false, Option, none, some, List, [], ◌∷◌, map,
}
use conda_presto.Exceptions.Text.{Text}
use conda_presto.Exceptions.Redact.{Exception, safe_error_message}
use conda_presto.Exceptions.Redact.Urls.{has_url}
use conda_presto.Exceptions.Redact.Urls.Absent.{has_url-safe_error_message}
use conda_presto.Resolve.Dispatch.{
  Outcome, returned, raised, Failure, handle, dispatch, IsCompletion, dispatch-map,
}

pub record SolveResult (Package : Type 0) : Type 0 where
  pub platform : String
  pub packages : List Package
  pub error : Option Text

pub record Environment (Record : Type 0) : Type 0 where
  pub platform : String
  pub explicit_packages : List Record
  pub requested_packages : List String

-- `platforms or [NATIVE_SUBDIR]`
abbrev pub wanted : String → Option (List String) → List String
wanted native none = native ∷ []
wanted native (some []) = native ∷ []
wanted native (some (p ∷ platforms)) = p ∷ platforms

module _ {Package : Type 0} where
  -- `SolveResult.from_exception`
  unfoldable pub from_exception : String → Exception → SolveResult Package
  from_exception platform exc = record {
    platform = platform;
    packages = [];
    error = some (safe_error_message exc);
  }

-- `run_solver` is conda's solver for a platform, on the request's channels and specs; `from_record`
-- makes a package of one of its records.
module _ {Record Package : Type 0} (run_solver : String → Outcome Exception (List Record))
    (from_record : Record → Package) where
  packaged : String → Outcome Exception (List Record) → Outcome Exception (SolveResult Package)
  packaged platform (raised exc) = raised exc
  packaged platform (returned records) =
      returned (record { platform = platform; packages = map from_record records; error = none })

  unfoldable pub solve_one_platform : String → Outcome Exception (SolveResult Package)
  unfolding packaged
  solve_one_platform platform = packaged platform (run_solver platform)

  unfoldable pub solve :
      String
      → Option (List String)
      → List (String × Outcome Exception (SolveResult Package))
      → Outcome (Failure Exception) (List (SolveResult Package))
  unfolding dispatch solve_one_platform from_exception
  solve native platforms completed =
      dispatch solve_one_platform (wanted native platforms) completed (some from_exception)

  -- The packages of the platform, or no package and a message without a URL.
  abbrev pub IsAnswer : String → SolveResult Package → Type 0
  IsAnswer platform r =
      (r.platform ≡ platform)
      × (((records : List Record) × (run_solver platform ≡ returned records)
            × (r.packages ≡ map from_record records)
            × (r.error ≡ none))
          ⊎ ((message : Text) × (r.packages ≡ [])
              × (r.error ≡ some message)
              × (has_url false message ≡ false)))

  answer : String → Outcome Exception (List Record) → SolveResult Package
  answer platform (raised exc) = from_exception platform exc
  answer platform (returned records) = record {
    platform = platform;
    packages = map from_record records;
    error = none;
  }

  answer-IsAnswer :
      (platform : String) (o : Outcome Exception (List Record))
      → run_solver platform ≡ o
      → IsAnswer platform (answer platform o)
  unfolding answer from_exception
  answer-IsAnswer platform (raised exc) e =
      (refl, inr (safe_error_message exc, refl, refl, has_url-safe_error_message exc))
  answer-IsAnswer platform (returned records) e = (refl, inl (records, e, refl, refl))

  handle-packaged :
      (platform : String) (o : Outcome Exception (List Record))
      → handle (some from_exception) platform (packaged platform o) ≡ returned (answer platform o)
  unfolding handle packaged answer
  handle-packaged platform (raised exc) = refl
  handle-packaged platform (returned records) = refl

  abbrev pub Answers : List String → List (SolveResult Package) → Type 0
  Answers [] [] = Unit
  Answers [] (r ∷ rs) = ⊥
  Answers (p ∷ ps) [] = ⊥
  Answers (p ∷ ps) (r ∷ rs) = IsAnswer p r × Answers ps rs

  all-Answers :
      (platforms : List String) → Answers platforms (map (λ p. answer p (run_solver p)) platforms)
  all-Answers [] = tt
  all-Answers (p ∷ platforms) = (answer-IsAnswer p (run_solver p) refl, all-Answers platforms)

  -- `solve` returns one result for each platform that is wanted, in their order, in whatever order
  -- the pool's futures end and whichever of them raise: the solver's packages, or no package and a
  -- message that holds no URL.
  pub solve-Answers :
      (native : String) (platforms : Option (List String))
      (completed : List (String × Outcome Exception (SolveResult Package)))
      → IsCompletion solve_one_platform (wanted native platforms) completed
      → (results : List (SolveResult Package)) × (solve native platforms completed
          ≡ returned results)
        × Answers (wanted native platforms) results
  unfolding solve solve_one_platform
  solve-Answers native platforms completed c = (
    map (λ p. answer p (run_solver p)) (wanted native platforms),
    dispatch-map (some from_exception) (λ p. answer p (run_solver p)) solve_one_platform
        (wanted native platforms) completed c (λ p. handle-packaged p (run_solver p)),
    all-Answers (wanted native platforms),
  )

  unfoldable pub environment :
      List String
      → String
      → Outcome Exception (List Record)
      → Outcome Exception (Environment Record)
  environment dependencies platform (raised exc) = raised exc
  environment dependencies platform (returned records) = returned (record {
    platform = platform;
    explicit_packages = records;
    requested_packages = dependencies;
  })

  -- `solve_one_environment` and `solve_environments`
  unfoldable pub solve_environments :
      List String
      → String
      → Option (List String)
      → List (String × Outcome Exception (Environment Record))
      → Outcome (Failure Exception) (List (Environment Record))
  unfolding dispatch environment
  solve_environments dependencies native platforms completed =
      dispatch (λ p. environment dependencies p (run_solver p)) (wanted native platforms) completed
        none
