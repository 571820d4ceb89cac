-- ===== src/Runner/Main/Judged.antt =====
-- What the exit of `main` says of the solutions, with `-validate-only`.
use distributed_locking.Base.{
  ℕ, ◌<◌, ltb, ltb→lt, ltb→lt, ◌≡◌, refl, String, Bool, true, false, Option, some, List, [], ◌∷◌,
  ◌⊎◌, inl, inr, arith, Option-cases, Bool-cases,
}
use distributed_locking.Effects.{Log, World}
use distributed_locking.Runner.{Files}
use distributed_locking.Runner.Cleanup.{Sum-cases}
use distributed_locking.Runner.Main.{
  Exit, done, some_failed, Command, discover_all, set_up, validate_all, run_all, run_found,
  run_with,
}

module _ (w : World) where
  -- how many of the solutions that were found fail their validation, in some state of the world
  abbrev pub Fail : Option (List String) → (ℕ → Type 0) → Type 0
  Fail found P =
      (dirs : List String) × (network : String) × (log : Log) × (found ≡ some dirs)
      × P (validate_all w dirs network log).0

  -- what a return and an exit with `-validate-only` say of the solutions
  abbrev pub IsJudged : Command → Option (List String) → Exit → Type 0
  IsJudged command found done = command.validate_only ≡ true → Fail found (λ n. n ≡ 0)
  IsJudged command found some_failed = (command.validate_only ≡ true) × Fail found (λ n. 0 < n)
  IsJudged command found _ = Unit

  run_all-IsJudged :
      (command : Command) (found : Option (List String)) (dirs : List String) (id : Option String)
      (network : String) (log : Log)
      → found ≡ some dirs
      → IsJudged command found (run_all w command dirs id network log).0.0
  unfolding run_all
  run_all-IsJudged command found dirs id network log e = elim (Bool-cases command.validate_only) [
    | inr measures ↦ rw (measures, run_all) (λ h. absurd (cc))
    | inl only ↦ elim (Bool-cases (ltb 0 (validate_all w dirs network log).0)) [
      | inl failed ↦ rw (only, run_all, failed) (refl, (dirs, network, log, e, ltb→lt _ _ failed))
      | inr passed ↦
          rw (only, run_all, passed) (λ h. (dirs, network, log, e, ground (arith, passed)))
    ]
  ]

  -- the exits before the solutions are looked at
  is_early : Exit → Bool
  is_early done = false
  is_early some_failed = false
  is_early exit = true

  early-IsJudged :
      (command : Command) (found : Option (List String)) (exit : Exit)
      → is_early exit ≡ true
      → IsJudged command found exit
  unfolding is_early
  early-IsJudged command found Exit.usage h = tt
  early-IsJudged command found Exit.discovery_failed h = tt
  early-IsJudged command found Exit.no_solutions h = tt
  early-IsJudged command found Exit.no_client h = tt
  early-IsJudged command found Exit.no_network h = tt
  early-IsJudged command found Exit.not_connected h = tt
  early-IsJudged command found some_failed h = absurd (cc)
  early-IsJudged command found done h = absurd (cc)

  abbrev is_early_end : Exit ⊎ (Option String × String) → Bool
  is_early_end (inl exit) = is_early exit
  is_early_end (inr network) = true

  set_up-early : (command : Command) (log : Log) → is_early_end (set_up w command log).0 ≡ true
  unfolding set_up is_early
  set_up-early command log = ground arith

  run_found-IsJudged :
      (command : Command) (found : Option (List String)) (dirs : List String) (log : Log)
      → found ≡ some dirs
      → IsJudged command found (run_found w command dirs log).0.0
  unfolding run_found
  run_found-IsJudged command found [] log e = tt
  run_found-IsJudged command found (dir ∷ dirs) log e = elim (Bool-cases command.has_client) [
    | inr absent ↦ rw (absent, run_found) tt
    | inl present ↦ elim (Sum-cases w (set_up w command log).0) [
      | inl (exit, p) ↦
          rw (present, p, run_found)
            (early-IsJudged command found exit (rw p at (set_up-early command log)))
      | inr ((id, name), p) ↦
          rw (present, p, run_found)
            (run_all-IsJudged command found (dir ∷ dirs) id name (set_up w command log).1 e)
    ]
  ]

  pub run_with-IsJudged :
      (files : Files) (command : Command) (args : List String) (log : Log)
      → IsJudged command (discover_all files args) (run_with w files command args log).0.0
  unfolding run_with
  run_with-IsJudged files command [] log = tt
  run_with-IsJudged files command (arg ∷ args) log =
      elim (Option-cases (discover_all files (arg ∷ args))) [
        | inl failed ↦ rw (failed, run_with) tt
        | inr (dirs, e) ↦ rw (e, run_with) (run_found-IsJudged command (some dirs) dirs log refl)
      ]
