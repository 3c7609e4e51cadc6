-- ===== src/Tests/Processors.antt =====
-- Two processors on a machine at rest, one of which keeps the hardware awake while it reads.
use nugpgpu.Prelude.{
  ℕ, zero, suc, ◌^◌, ◌<◌, ◌≤◌, ◌≡◌, refl, arith, true, List, [], ◌∷◌, ◌++◌, none, some, length,
}
use nugpgpu.Platform.{w32}
use nugpgpu.Wait.{pause}
use nugpgpu.Regrw.Power.{IsPowered}
use nugpgpu.Regrw.Clients.{Call, holders}
use nugpgpu.Processors.{
  System, run, start, turn_at, get_steps, read_steps, awake_steps, write_steps, unclaimed_steps,
  forcewake_put_steps, forcewake_put_now_steps, forcewake_get_steps, forcewake_get_now_steps,
  wait_steps, poll_steps,
}
use nugpgpu.Processors.Alike.{Alike}
use nugpgpu.Processors.History.{calls_of, rev_onto, is_inside, replay, answers}
use nugpgpu.Processors.Runs.{run-replay, run-exclusive}
use nugpgpu.Processors.Ends.{AllEnd}
use nugpgpu.Processors.Progress.{run-completes}
use nugpgpu.Processors.Holders.{total, holding, run-IsPowered}
use nugpgpu.Tests.Registers.{idle-IsPowered}
use nugpgpu.Tests.{World, machine, machine-ClockRuns, idle}

abbrev two_programs : ℕ → List Call
two_programs zero = Call.get ∷ Call.read w32 0x2034 ∷ []
two_programs (suc zero) = Call.read w32 0x2030 ∷ Call.write w32 0x2030 8 ∷ []
two_programs (suc (suc i)) = []

-- The two processors in turn.
abbrev in_turn : ℕ → List ℕ
in_turn zero = []
in_turn (suc n) = 0 ∷ 1 ∷ in_turn n

abbrev both : ℕ → System World
both n = run (in_turn n) (start two_programs idle)

-- After ten rounds processor 0 is behind the lock, and after a hundred all calls are made.
both_lem :
    (is_inside ((both 10).cpus 0).point ≡ true)
    × ((both 100).owner ≡ none)
    × (length (both 100).history < 2 ^ 32)
unfolding turn_at get_steps read_steps awake_steps write_steps unclaimed_steps forcewake_put_steps
    forcewake_put_now_steps forcewake_get_steps forcewake_get_now_steps wait_steps poll_steps pause
both_lem = (refl, refl, omega arith)

two_programs-few : (i : ℕ) → 2 ≤ i → two_programs i ≡ []
two_programs-few zero h = absurd (omega arith)
two_programs-few (suc zero) h = absurd (omega arith)
two_programs-few (suc (suc i)) h = refl

abbrev two_ends : ℕ → ℕ
two_ends zero = 1
two_ends (suc i) = 0

two_programs-apart : (i : ℕ) → holders (two_programs i) 0 ≡ some (two_ends i)
two_programs-apart zero = refl
two_programs-apart (suc zero) = refl
two_programs-apart (suc (suc i)) = refl

run-replay_example :
    let k = both 100 in
    Alike k.state (replay k.history idle)
    × ((i : ℕ) → (k.cpus i).results ≡ answers i k.history idle)
    × ((i : ℕ) → rev_onto (calls_of i k.history) (k.cpus i).calls ≡ two_programs i)
run-replay_example = run-replay two_programs idle (in_turn 100) both_lem.1

run-exclusive_example : (◌≡◌ {A = ℕ} 0 0) × ((both 10).owner ≡ some 0)
run-exclusive_example = run-exclusive two_programs idle (in_turn 10) 0 0 both_lem.0 both_lem.0

run-completes_example :
    AllEnd (run (in_turn 10) (start two_programs idle))
    × (more : List ℕ) × ((run (in_turn 10 ++ more) (start two_programs idle)).owner ≡ none)
    × (((run (in_turn 10 ++ more) (start two_programs idle)).cpus 1).calls ≡ [])
run-completes_example = run-completes machine-ClockRuns two_programs idle (in_turn 10) 1

run-IsPowered_example :
    let k = both 100 in IsPowered k.state × (k.state.forcewake_count ≡ total 2 (holding k.history))
run-IsPowered_example =
    run-IsPowered 2 two_programs two_ends idle (in_turn 100) two_programs-few two_programs-apart
      idle-IsPowered refl both_lem.1 both_lem.2

-- `depth` is counted without a lock: of the two processors that load it one after the other, the
-- second stores what the first has stored already.
both_enter : (run (0 ∷ 1 ∷ 0 ∷ 1 ∷ []) (start two_programs idle)).state.depth ≡ 1
unfolding turn_at
both_enter = refl
