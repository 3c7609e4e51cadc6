-- ===== src/Regrw/Clients.antt =====
-- The driver's use of the registers as a sequence of calls, against a count of those who hold the
-- hardware awake.
use nugpgpu.Prelude.{
  ℕ, ◌+◌, ◌-◌, ◌^◌, ◌<◌, ◌≡◌, ◌≢◌, ◌∙◌, refl, ap, List, [], ◌∷◌, arith, if◌then◌else◌, ◌==◌, ltb,
  Option, none, some,
}
use nugpgpu.Platform.{Width, Platform}
use nugpgpu.Machine.{State}
use nugpgpu.Regrw.{
  forcewake_mt, forcewake_work, gpu_forcewake_get, gpu_forcewake_put, gpu_read, gpu_write,
}
use nugpgpu.Regrw.Access.{gpu_read-Touches, gpu_write-Touches}
use nugpgpu.Regrw.Holds.{
  gpu_forcewake_get-Touches, gpu_forcewake_put-Touches, forcewake_work-Touches,
}
use nugpgpu.Regrw.Power.{
  IsPowered, gpu_read-IsPowered, gpu_write-IsPowered, gpu_forcewake_get-IsPowered,
  gpu_forcewake_put-IsPowered, forcewake_work-IsPowered,
}

-- A call of the rest of the driver.
pub data Call : Type 0 where
  get put work : Call
  read : Width → ℕ → Call
  write : Width → ℕ → ℕ → Call

-- How many hold the hardware awake after the calls, from `n` before them; `none` where a holder
-- that is not there is given up, where the count would leave `unsigned`, and where FORCEWAKE_MT is
-- written behind the count's back.
abbrev pub holders_after : Call → ℕ → Option ℕ
holders_after get n = if ltb (n + 1) (2 ^ 32) then some (n + 1) else none
holders_after put n = if n == 0 then none else some (n - 1)
holders_after work n = if n == 0 then none else some (n - 1)
holders_after (read w reg) n = some n
holders_after (write w reg val) n = if reg == forcewake_mt then none else some n

abbrev pub holders : List Call → ℕ → Option ℕ
holders [] n = some n
holders (c ∷ cs) n = elim (holders_after c n) [ none ↦ none | some m ↦ holders cs m ]

pub holders-cons :
    (cs : List Call) (after : Option ℕ) (n : ℕ)
    → (elim after [ none ↦ none | some m ↦ holders cs m ]) ≡ some n
    → (m : ℕ) × (after ≡ some m) × (holders cs m ≡ some n)
holders-cons cs none n e = cc
holders-cons cs (some m) n e = (m, refl, e)

module _ {W : Type 0} ⦃p : Platform W⦄ where
  abbrev pub run_call : Call → State W → State W
  run_call get s = (gpu_forcewake_get s).1
  run_call put s = (gpu_forcewake_put s).1
  run_call work s = (forcewake_work s).1
  run_call (read w reg) s = (gpu_read w reg s).1
  run_call (write w reg val) s = (gpu_write w reg val s).1

  abbrev pub run_calls : List Call → State W → State W
  run_calls [] s = s
  run_calls (c ∷ cs) s = run_calls cs (run_call c s)

  pub run_call-holders :
      (c : Call) (s : State W) (n : ℕ)
      → IsPowered s
      → holders_after c s.forcewake_count ≡ some n
      → IsPowered (run_call c s) × ((run_call c s).forcewake_count ≡ n)
  run_call-holders get s n v e =
      let room : s.forcewake_count + 1 < 2 ^ 32 = ground arith in
      (
        gpu_forcewake_get-IsPowered s room v,
        (gpu_forcewake_get-Touches s).forcewake_count ∙ ground arith,
      )
  run_call-holders put s n v e =
      let pos : 0 < s.forcewake_count = ground arith in
      let (error, h) = gpu_forcewake_put-Touches s in
      let q : s.forcewake_count - 1 ≡ n = ground arith in
      let small : s.forcewake_count < 2 ^ 32 = v.small in
      (gpu_forcewake_put-IsPowered s pos v, h.forcewake_count ∙ omega arith)
  run_call-holders work s n v e =
      let pos : 0 < s.forcewake_count = ground arith in
      let (error, h) = forcewake_work-Touches s in
      let q : s.forcewake_count - 1 ≡ n = ground arith in
      let small : s.forcewake_count < 2 ^ 32 = v.small in
      (forcewake_work-IsPowered s pos v, h.forcewake_count ∙ omega arith)
  run_call-holders (read w reg) s n v e =
      let (error, h) = gpu_read-Touches w reg s in
      (gpu_read-IsPowered w reg s v, h.forcewake_count ∙ ground arith)
  run_call-holders (write w reg val) s n v e =
      let ne : reg ≢ forcewake_mt = ground arith in
      let (before, after, h) = gpu_write-Touches w reg val s in
      (gpu_write-IsPowered w reg val s ne v, h.forcewake_count ∙ ground arith)

  -- Let calls of `gpu_forcewake_get`, `gpu_forcewake_put`, `forcewake_work`, `gpu_read` and
  -- `gpu_write` be such that none gives up the hardware when nobody holds it, the count stays an
  -- `unsigned` and FORCEWAKE_MT is not written by `gpu_write`. From a state in which the hardware is
  -- awake exactly while the count is above zero and the lock is free, they end in such a state, and
  -- the count is the number of holders: those before, and the gets less the puts.
  pub run_calls-holders :
      (cs : List Call) (s : State W) (n : ℕ)
      → IsPowered s
      → holders cs s.forcewake_count ≡ some n
      → IsPowered (run_calls cs s) × ((run_calls cs s).forcewake_count ≡ n)
  run_calls-holders [] s n v e = (v, ground arith)
  run_calls-holders (c ∷ cs) s n v e =
      let (m, here, rest) = holders-cons cs (holders_after c s.forcewake_count) n e in
      let (v', counted) = run_call-holders c s m v here in
      run_calls-holders cs (run_call c s) n v' (ap (holders cs) counted ∙ rest)
