-- ===== src/Machine/Log.antt =====
-- Readings of the log: what the driver did to the hardware, whether it holds its lock, and whether
-- the hardware is kept awake.
pub mod Touches
use nugpgpu.Prelude.{
  ℕ, ◌+◌, ◌/◌, ◌%◌, ◌^◌, ◌≡◌, refl, Bool, true, false, List, [], ◌∷◌, ◌++◌, arith, ◌==◌, ap,
  if◌then◌else◌,
}
use nugpgpu.Machine.{Event, rd, wr, acquire, release, lock_init, load, store, call}

-- The log without its reads and loads.
abbrev pub effects : List Event → List Event
effects [] = []
effects (rd w a v ∷ l) = effects l
effects (wr w a v ∷ l) = wr w a v ∷ effects l
effects (acquire ∷ l) = acquire ∷ effects l
effects (release ∷ l) = release ∷ effects l
effects (lock_init ∷ l) = lock_init ∷ effects l
effects (load a v ∷ l) = effects l
effects (store a v ∷ l) = store a v ∷ effects l
effects (call c ∷ l) = call c ∷ effects l

-- `broken` after an access without the lock, and after a lock that is taken twice or given back
-- twice.
pub data LockState : Type 0 where
  free held broken : LockState

abbrev pub on_access : LockState → LockState
on_access held = held
on_access free = broken
on_access broken = broken

abbrev pub on_acquire : LockState → LockState
on_acquire free = held
on_acquire held = broken
on_acquire broken = broken

abbrev pub on_release : LockState → LockState
on_release held = free
on_release free = broken
on_release broken = broken

abbrev pub lock_state : List Event → LockState
lock_state [] = free
lock_state (rd w a v ∷ l) = on_access (lock_state l)
lock_state (wr w a v ∷ l) = on_access (lock_state l)
lock_state (acquire ∷ l) = on_acquire (lock_state l)
lock_state (release ∷ l) = on_release (lock_state l)
lock_state (lock_init ∷ l) = free
lock_state (load a v ∷ l) = lock_state l
lock_state (store a v ∷ l) = lock_state l
lock_state (call c ∷ l) = lock_state l

-- Bit `k` of a number.
abbrev pub bit : ℕ → ℕ → Bool
bit v k = v / 2 ^ k % 2 == 1

-- Bit 0 of a register written through a mask: a write sets the bit to its bit 0 if its bit 16 is
-- set. `mt` is the address of the register.
abbrev pub awake : ℕ → List Event → Bool
awake mt [] = false
awake mt (wr w a v ∷ l) =
    let before = awake mt l in if a == mt then (if bit v 16 then bit v 0 else before) else before
awake mt (rd w a v ∷ l) = awake mt l
awake mt (acquire ∷ l) = awake mt l
awake mt (release ∷ l) = awake mt l
awake mt (lock_init ∷ l) = awake mt l
awake mt (load a v ∷ l) = awake mt l
awake mt (store a v ∷ l) = awake mt l
awake mt (call c ∷ l) = awake mt l

pub awake-effects : (mt : ℕ) (l : List Event) → awake mt (effects l) ≡ awake mt l
awake-effects mt [] = refl
awake-effects mt (rd w a v ∷ l) = awake-effects mt l
awake-effects mt (wr w a v ∷ l) =
    ap (λ b. if a == mt then (if bit v 16 then bit v 0 else b) else b) (awake-effects mt l)
awake-effects mt (acquire ∷ l) = awake-effects mt l
awake-effects mt (release ∷ l) = awake-effects mt l
awake-effects mt (lock_init ∷ l) = awake-effects mt l
awake-effects mt (load a v ∷ l) = awake-effects mt l
awake-effects mt (store a v ∷ l) = awake-effects mt l
awake-effects mt (call c ∷ l) = awake-effects mt l

-- What the bits are after more events depends on the past only through the bit.
pub awake-append :
    (mt : ℕ) (new l m : List Event)
    → awake mt l ≡ awake mt m
    → awake mt (new ++ l) ≡ awake mt (new ++ m)
awake-append mt [] l m e = e
awake-append mt (rd w a v ∷ new) l m e = awake-append mt new l m e
awake-append mt (wr w a v ∷ new) l m e =
    ap (λ b. if a == mt then (if bit v 16 then bit v 0 else b) else b) (awake-append mt new l m e)
awake-append mt (acquire ∷ new) l m e = awake-append mt new l m e
awake-append mt (release ∷ new) l m e = awake-append mt new l m e
awake-append mt (lock_init ∷ new) l m e = awake-append mt new l m e
awake-append mt (load a v ∷ new) l m e = awake-append mt new l m e
awake-append mt (store a v ∷ new) l m e = awake-append mt new l m e
awake-append mt (call c ∷ new) l m e = awake-append mt new l m e
