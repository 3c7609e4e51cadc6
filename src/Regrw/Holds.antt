-- ===== src/Regrw/Holds.antt =====
-- The reference count: what taking hold of the hardware and giving it up add to the log.
use nugpgpu.Prelude.{◌+◌, ◌%◌, ◌^◌, Bool, true, false, [], if◌then◌else◌, ◌==◌}
use nugpgpu.Platform.{Platform}
use nugpgpu.Machine.{State, when, trace_in, spin_lock}
use nugpgpu.Machine.Log.{held, free}
use nugpgpu.Machine.Log.Touches.{Touches, Touches-refl, traced-Touches}
use nugpgpu.Regrw.{
  forcewake_get, forcewake_put, forcewake_work, gpu_forcewake_get, gpu_forcewake_put,
}
use nugpgpu.Regrw.Effects.{wake_events, sleep_events, forcewake_get-Touches, forcewake_put-Touches}
use nugpgpu.Regrw.Access.{counted_down, locked, locked-Touches}

module _ {W : Type 0} ⦃p : Platform W⦄ where
  when_force_get-Touches :
      (b : Bool) (s : State W)
      → Touches held (if b then wake_events s.regs else []) s (when b (forcewake_get 0 true) s).1
  when_force_get-Touches true s = forcewake_get-Touches 0 true s
  when_force_get-Touches false s = Touches-refl s

  when_force_put-Touches :
      (b : Bool) (s : State W)
      → (error : Bool) × Touches held
          (if b then sleep_events s.regs error else [])
          s
          (when b (forcewake_put 0 true) s).1
  when_force_put-Touches true s = forcewake_put-Touches 0 true s
  when_force_put-Touches false s = (false, Touches-refl s)

  -- `gpu_forcewake_get` counts up, and wakes the hardware if the count was zero.
  pub gpu_forcewake_get-Touches :
      (s : State W)
      → Touches free
          (locked (if s.forcewake_count == 0 then wake_events s.regs else []))
          (record s { forcewake_count = (s.forcewake_count + 1) % 2 ^ 32 })
          (gpu_forcewake_get s).1
  unfolding gpu_forcewake_get
  gpu_forcewake_get-Touches s =
      let s' : State W = record s { forcewake_count = (s.forcewake_count + 1) % 2 ^ 32 } in
      traced-Touches s' _
        (locked-Touches (trace_in s').1 _ (when_force_get-Touches (s.forcewake_count == 0) _))

  -- `gpu_forcewake_put` counts down, and lets the hardware sleep if the count is then zero.
  pub gpu_forcewake_put-Touches :
      (s : State W)
      → (error : Bool) × Touches free
          (locked (if counted_down s.forcewake_count == 0 then sleep_events s.regs error else []))
          (record s { forcewake_count = counted_down s.forcewake_count })
          (gpu_forcewake_put s).1
  unfolding gpu_forcewake_put
  gpu_forcewake_put-Touches s =
      let s' : State W = record s { forcewake_count = counted_down s.forcewake_count } in
      let (error, h) =
        when_force_put-Touches (counted_down s.forcewake_count == 0)
          (spin_lock (trace_in s').1).1 in
      (error, traced-Touches s' _ (locked-Touches (trace_in s').1 _ h))

  pub forcewake_work-Touches :
      (s : State W)
      → (error : Bool) × Touches free
          (locked (if counted_down s.forcewake_count == 0 then sleep_events s.regs error else []))
          (record s { forcewake_count = counted_down s.forcewake_count })
          (forcewake_work s).1
  unfolding forcewake_work
  forcewake_work-Touches s =
      let s' : State W = record s { forcewake_count = counted_down s.forcewake_count } in
      let (error, h) =
        when_force_put-Touches (counted_down s.forcewake_count == 0) (spin_lock s').1 in
      (error, locked-Touches s' _ h)
