-- ===== src/Processors/History.antt =====
-- Processors against a history of calls: what is to hold whenever they are stopped.
use nugpgpu.Prelude.{
  ℕ, ◌≡◌, Bool, true, false, List, [], ◌∷◌, Option, none, some, if◌then◌else◌, ◌==◌,
}
use nugpgpu.Platform.{Platform}
use nugpgpu.Machine.{State, spin_unlock}
use nugpgpu.Regrw.Clients.{Call, run_call}
use nugpgpu.Processors.{Point, idle, entering, spinning, inside, leaving, left, Cpu, System, finish}
use nugpgpu.Processors.Alike.{Alike, IsBlind}
use nugpgpu.Processors.Bodies.{returned}

-- The calls of a processor in the history, the newest first.
abbrev pub calls_of : ℕ → List (ℕ × Call) → List Call
calls_of i [] = []
calls_of i ((j, c) ∷ h) = if j == i then c ∷ calls_of i h else calls_of i h

-- `xs` the other way round, then `ys`.
abbrev pub rev_onto : {A : Type 0} → List A → List A → List A
rev_onto [] ys = ys
rev_onto (x ∷ xs) ys = rev_onto xs (x ∷ ys)

abbrev pub owns : ℕ → Option ℕ → Bool
owns i none = false
owns i (some j) = i == j

module _ {W : Type 0} where
  abbrev pub is_inside : Point W → Bool
  is_inside idle = false
  is_inside (entering d) = false
  is_inside spinning = false
  is_inside (inside c b) = true
  is_inside leaving = false
  is_inside (left d) = false

  -- What the code of a processor still does to the state, the unlock included, and what it will
  -- have returned then.
  abbrev pub rest : Point W → State W → State W
  rest idle s = s
  rest (entering d) s = s
  rest spinning s = s
  rest (inside c b) s = (spin_unlock (finish b s).1).1
  rest leaving s = s
  rest (left d) s = s

  abbrev pub promised : Point W → List ℕ → State W → List ℕ
  promised idle vs s = vs
  promised (entering d) vs s = vs
  promised spinning vs s = vs
  promised (inside c b) vs s = (finish b s).0 ∷ vs
  promised leaving vs s = vs
  promised (left d) vs s = vs

  abbrev pub PointIsBlind : Point W → Type 0
  PointIsBlind idle = Unit {0}
  PointIsBlind (entering d) = Unit {0}
  PointIsBlind spinning = Unit {0}
  PointIsBlind (inside c b) = IsBlind b
  PointIsBlind leaving = Unit {0}
  PointIsBlind (left d) = Unit {0}

module _ {W : Type 0} ⦃p : Platform W⦄ where
  -- The calls of the history, one after the other.
  abbrev pub replay : List (ℕ × Call) → State W → State W
  replay [] s = s
  replay ((i, c) ∷ h) s = run_call c (replay h s)

  -- What they return to processor `i`.
  abbrev pub answers : ℕ → List (ℕ × Call) → State W → List ℕ
  answers i [] s = []
  answers i ((j, c) ∷ h) s =
      if j == i then returned c (replay h s) ∷ answers i h s else answers i h s

  -- The state that is left when whoever has the lock gives it back.
  abbrev pub settled : Option ℕ → (ℕ → Cpu W) → State W → State W
  settled none cpus s = s
  settled (some j) cpus s = rest (cpus j).point s

  pub record IsLinear (programs : ℕ → List Call) (s : State W) (k : System W) : Type 0 where
    pub ordered : (i : ℕ) → rev_onto (calls_of i k.history) (k.cpus i).calls ≡ programs i
    pub exclusive : (i : ℕ) → is_inside (k.cpus i).point ≡ owns i k.owner
    pub blind : (i : ℕ) → PointIsBlind (k.cpus i).point
    pub alike : Alike (settled k.owner k.cpus k.state) (replay k.history s)
    pub answered :
        (i : ℕ) → promised (k.cpus i).point (k.cpus i).results k.state ≡ answers i k.history s
