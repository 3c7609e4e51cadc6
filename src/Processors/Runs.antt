-- ===== src/Processors/Runs.antt =====
-- What holds of any number of processors after any schedule.
use nugpgpu.Prelude.{ℕ, ◌≡◌, ◌∙◌, refl, sym, ap, true, List, [], ◌∷◌, Option, none, some}
use mathlib.Core.Path.{subst}
use nugpgpu.Platform.{Platform}
use nugpgpu.Machine.{State}
use nugpgpu.Regrw.Clients.{Call}
use nugpgpu.Processors.{System, turn, run, start}
use nugpgpu.Processors.Alike.{Alike}
use nugpgpu.Processors.History.{
  calls_of, rev_onto, owns, is_inside, replay, answers, settled, IsLinear,
}
use nugpgpu.Processors.Rules.{owns_lem, promised-outside}
use nugpgpu.Processors.Linear.{turn-IsLinear}

module _ {W : Type 0} ⦃p : Platform W⦄ where
  pub start-IsLinear :
      (programs : ℕ → List Call) (s : State W) → IsLinear programs s (start programs s)
  start-IsLinear programs s = record {
    ordered = λ i. refl;
    exclusive = λ i. refl;
    blind = λ i. tt;
    alike = refl;
    answered = λ i. refl;
  }

  pub run-IsLinear_from :
      (programs : ℕ → List Call) (s : State W) (schedule : List ℕ) (k : System W)
      → IsLinear programs s k
      → IsLinear programs s (run schedule k)
  run-IsLinear_from programs s [] k lin = lin
  run-IsLinear_from programs s (i ∷ is) k lin =
      run-IsLinear_from programs s is (turn i k) (turn-IsLinear programs s i k lin)

  pub run-IsLinear :
      (programs : ℕ → List Call) (s : State W) (schedule : List ℕ)
      → IsLinear programs s (run schedule (start programs s))
  run-IsLinear programs s schedule =
      run-IsLinear_from programs s schedule (start programs s) (start-IsLinear programs s)

  -- Whatever the programs of the processors and the order of their steps: whenever the lock is free,
  -- the state is, but for `depth`, what the calls leave that have had the lock, made one after the
  -- other in the order in which they got it; each processor has had from its calls what they return
  -- there; and that order has the calls of each processor in the order of its program.
  pub run-replay :
      (programs : ℕ → List Call) (s : State W) (schedule : List ℕ)
      → (run schedule (start programs s)).owner ≡ none
      → let k = run schedule (start programs s) in
        Alike k.state (replay k.history s)
        × ((i : ℕ) → (k.cpus i).results ≡ answers i k.history s)
        × ((i : ℕ) → rev_onto (calls_of i k.history) (k.cpus i).calls ≡ programs i)
  run-replay programs s schedule free =
      let k = run schedule (start programs s) in
      let lin = run-IsLinear programs s schedule in
      (
        subst (λ (o : Option ℕ). Alike (settled o k.cpus k.state) (replay k.history s)) free
            lin.alike,
        λ i.
            sym (
              promised-outside (k.cpus i).point (k.cpus i).results k.state
                (lin.exclusive i ∙ ap (owns i) free))
            ∙ lin.answered i,
        lin.ordered,
      )

  -- At most one processor is between the lock and the unlock, whatever the order of the steps, and
  -- it is the one that has the lock.
  pub run-exclusive :
      (programs : ℕ → List Call) (s : State W) (schedule : List ℕ) (i j : ℕ)
      → is_inside ((run schedule (start programs s)).cpus i).point ≡ true
      → is_inside ((run schedule (start programs s)).cpus j).point ≡ true
      → (i ≡ j) × ((run schedule (start programs s)).owner ≡ some i)
  run-exclusive programs s schedule i j in_i in_j =
      let k = run schedule (start programs s) in
      let lin = run-IsLinear programs s schedule in
      let mine = owns_lem i k.owner (sym (lin.exclusive i) ∙ in_i) in
      let other = owns_lem j k.owner (sym (lin.exclusive j) ∙ in_j) in (cc, mine)
