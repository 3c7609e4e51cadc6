-- ===== src/Processors/Progress.antt =====
-- The processors cannot come to a standstill: whoever has the lock can go on and give it back, and
-- with the lock free a processor can go on and make all its calls.
use nugpgpu.Prelude.{
  ℕ, ◌≡◌, ◌∙◌, refl, sym, ap, Bool, true, false, List, [], ◌∷◌, ◌++◌, Option, none, some,
  if◌then◌else◌, ==_iff,
}
use mathlib.Core.Path.{subst}
use nugpgpu.Platform.{Platform, ClockRuns}
use nugpgpu.Machine.{State}
use nugpgpu.Regrw.Clients.{Call}
use nugpgpu.Processors.{
  Code, done, access, bump, store_depth, spent, Point, idle, entering, spinning, inside, leaving,
  left, Cpu, System, body, traced, move, take, with_depth, one_in, one_out, turn_at, turn, run,
  start,
}
use nugpgpu.Processors.History.{owns, is_inside, IsLinear}
use nugpgpu.Processors.Rules.{update_self}
use nugpgpu.Processors.Ends.{Ends, PointEnds, AllEnd, body-Ends, run-AllEnd}
use nugpgpu.Processors.Runs.{start-IsLinear, run-IsLinear, run-IsLinear_from}

module _ {W : Type 0} ⦃p : Platform W⦄ (runs : ClockRuns p) where
  -- Some further steps lead to a system of which `P` holds.
  abbrev Leads : System W → (System W → Type 0) → Type 0
  Leads k P = (more : List ℕ) × P (run more k)

  run-append : (is js : List ℕ) (k : System W) → run (is ++ js) k ≡ run js (run is k)
  run-append [] js k = refl
  run-append (i ∷ is) js k = run-append is js (turn i k)

  Leads-then :
      (P Q : System W → Type 0) (k : System W)
      → Leads k P
      → ((t : System W) → P t → Leads t Q)
      → Leads k Q
  Leads-then P Q k (more, h) next =
      let (then_more, done_so) = next (run more k) h in
      (more ++ then_more, subst Q (sym (run-append more then_more k)) done_so)

  module _ (i : ℕ) where
    -- Processor `i` takes the step that its point and its calls say.
    Leads-turn :
        (P : System W → Type 0) (k : System W) (at : Point W) (cs : List Call)
        → (k.cpus i).point ≡ at
        → (k.cpus i).calls ≡ cs
        → Leads (turn_at i at cs k) P
        → Leads k P
    Leads-turn P k at cs e next l =
        let same : turn i k ≡ turn_at i at cs k =
          ap (λ x. turn_at i x (k.cpus i).calls k) e ∙ ap (λ x. turn_at i at x k) next in
        let (more, h) = subst (λ t. Leads t P) (sym same) l in (i ∷ more, h)

    -- Where a processor stands, and what it has yet to call, with the lock free.
    abbrev Stands : Point W → List Call → System W → Type 0
    Stands at cs k = (k.owner ≡ none) × ((k.cpus i).point ≡ at) × ((k.cpus i).calls ≡ cs)

    move-point : (at : Point W) (s : State W) (k : System W) → ((move i at s k).cpus i).point ≡ at
    move-point at s k = ap (λ (c : Cpu W). c.point) (update_self i _ k.cpus)

    move-calls :
        (at : Point W) (s : State W) (k : System W)
        → ((move i at s k).cpus i).calls ≡ (k.cpus i).calls
    move-calls at s k = ap (λ (c : Cpu W). c.calls) (update_self i _ k.cpus)

    -- A step that leaves the lock alone.
    Leads-move :
        (P : System W → Type 0) (k : System W) (at : Point W) (cs : List Call) (at' : Point W)
        (s : State W)
        → (k.cpus i).point ≡ at
        → (k.cpus i).calls ≡ cs
        → turn_at i at cs k ≡ move i at' s k
        → ((t : System W)
            → t.owner ≡ k.owner
            → (t.cpus i).point ≡ at'
            → (t.cpus i).calls ≡ cs
            → t.state ≡ s
            → Leads t P)
        → Leads k P
    Leads-move P k at cs at' s e next same go = Leads-turn P k at cs e next (
        subst (λ t. Leads t P) (sym same)
          (go (move i at' s k) refl (move-point at' s k) (move-calls at' s k ∙ next) refl))

    abbrev behind : Call → Point W
    behind c = if traced c then leaving else idle

    inside-Leads :
        (c : Call) (b : Code W) (cs : List Call) (k : System W)
        → (k.cpus i).point ≡ inside c b
        → (k.cpus i).calls ≡ cs
        → Ends b k.state
        → Leads k (Stands (behind c) cs)
    unfolding turn_at
    inside-Leads c (done v) cs k e next ends =
        Leads-turn (Stands (behind c) cs) k (inside c (done v)) cs e next (
          [],
          (
            refl,
            ap (λ (d : Cpu W). d.point) (update_self i _ k.cpus),
            ap (λ (d : Cpu W). d.calls) (update_self i _ k.cpus) ∙ next,
          ),
        )
    inside-Leads c (access m f) cs k e next ends =
        Leads-move (Stands (behind c) cs) k _ cs (inside c (f (m k.state).0)) (m k.state).1 e next
          refl
          (λ t free at rest now.
            inside-Leads c (f (m k.state).0) cs t at rest
              (subst (λ (x : State W). Ends (f (m k.state).0) x) (sym now) ends))
    inside-Leads c (bump f b) cs k e next ends =
        let d = f k.state.depth in
        let stored = inside c (store_depth d b) in
        Leads-move (Stands (behind c) cs) k _ cs stored k.state e next refl (λ t free at rest now.
          Leads-move (Stands (behind c) cs) t stored cs (inside c b) (with_depth d t.state) at rest
            refl
            (λ u free' at' rest' now'.
              inside-Leads c b cs u at' rest'
                (subst (λ (x : State W). Ends b x) (sym (now' ∙ ap (with_depth d) now)) ends)))
    inside-Leads c (store_depth d b) cs k e next ends =
        Leads-move (Stands (behind c) cs) k _ cs (inside c b) (with_depth d k.state) e next refl
          (λ t free at rest now.
            inside-Leads c b cs t at rest (subst (λ (x : State W). Ends b x) (sym now) ends))
    inside-Leads c (spent b) cs k e next ends = elim ends [ ]

    -- From behind the load of TRACE_OUT.
    left-Leads :
        (d : ℕ) (cs : List Call) (k : System W) → Stands (left d) cs k → Leads k (Stands idle cs)
    unfolding turn_at
    left-Leads d cs k (free, e, next) =
        Leads-move (Stands idle cs) k (left d) cs idle (with_depth (one_out d) k.state) e next refl
          (λ t same at rest now. ([], (same ∙ free, at, rest)))

    leaving-Leads :
        (b : Bool) (cs : List Call) (k : System W)
        → Stands (if b then leaving else idle) cs k
        → Leads k (Stands idle cs)
    unfolding turn_at
    leaving-Leads false cs k h = ([], h)
    leaving-Leads true cs k (free, e, next) =
        Leads-move (Stands idle cs) k leaving cs (left k.state.depth) k.state e next refl
          (λ t same at rest now. left-Leads k.state.depth cs t (same ∙ free, at, rest))

    spinning-Leads :
        (c : Call) (cs : List Call) (k : System W)
        → Stands spinning (c ∷ cs) k
        → Leads k (Stands idle cs)
    unfolding turn_at
    spinning-Leads c cs k (free, e, next) =
        let t = take i c cs none k in
        Leads-turn (Stands idle cs) k spinning (c ∷ cs) e next (
          subst (λ o. Leads (take i c cs o k) (Stands idle cs)) (sym free)
            (Leads-then (Stands (behind c) cs) (Stands idle cs) t
              (inside-Leads c (body c) cs t (ap (λ (d : Cpu W). d.point) (update_self i _ k.cpus))
                (ap (λ (d : Cpu W). d.calls) (update_self i _ k.cpus)) (body-Ends runs c t.state))
              (leaving-Leads (traced c) cs)))

    entering-Leads :
        (b : Bool) (d : ℕ) (c : Call) (cs : List Call) (k : System W)
        → Stands (if b then entering d else spinning) (c ∷ cs) k
        → Leads k (Stands idle cs)
    unfolding turn_at
    entering-Leads false d c cs k h = spinning-Leads c cs k h
    entering-Leads true d c cs k (free, e, next) =
        Leads-move (Stands idle cs) k (entering d) (c ∷ cs) spinning (with_depth (one_in d) k.state)
          e next refl (λ t same at rest now. spinning-Leads c cs t (same ∙ free, at, rest))

    -- All calls from the first on.
    idle-Leads : (cs : List Call) (k : System W) → Stands idle cs k → Leads k (Stands idle [])
    unfolding turn_at
    idle-Leads [] k h = ([], h)
    idle-Leads (c ∷ cs) k (free, e, next) =
        Leads-move (Stands idle []) k idle (c ∷ cs)
          (if traced c then entering k.state.depth else spinning) k.state e next refl
          (λ t same at rest now.
            Leads-then (Stands idle cs) (Stands idle []) t
              (entering-Leads (traced c) k.state.depth c cs t (same ∙ free, at, rest))
              (idle-Leads cs))

    -- With the lock free, from wherever the processor stands with a call to make.
    free-Leads :
        (at : Point W) (c : Call) (cs : List Call) (k : System W)
        → is_inside at ≡ false
        → Stands at (c ∷ cs) k
        → Leads k (Stands idle [])
    free-Leads idle c cs k outside h = idle-Leads (c ∷ cs) k h
    free-Leads (entering d) c cs k outside h =
        Leads-then _ (Stands idle []) k (entering-Leads true d c cs k h) (idle-Leads cs)
    free-Leads spinning c cs k outside h =
        Leads-then _ (Stands idle []) k (spinning-Leads c cs k h) (idle-Leads cs)
    free-Leads (inside d b) c cs k outside h = cc
    free-Leads leaving c cs k outside h =
        Leads-then _ (Stands idle []) k (leaving-Leads true (c ∷ cs) k h) (idle-Leads (c ∷ cs))
    free-Leads (left d) c cs k outside h =
        Leads-then _ (Stands idle []) k (left-Leads d (c ∷ cs) k h) (idle-Leads (c ∷ cs))

    abbrev AllCalled : System W → Type 0
    AllCalled t = (t.owner ≡ none) × ((t.cpus i).calls ≡ [])

    outside-Leads :
        (cs : List Call) (k : System W)
        → is_inside (k.cpus i).point ≡ false
        → k.owner ≡ none
        → (k.cpus i).calls ≡ cs
        → Leads k AllCalled
    outside-Leads [] k outside free next = ([], (free, next))
    outside-Leads (c ∷ cs) k outside free next =
        Leads-then (Stands idle []) AllCalled k
          (free-Leads (k.cpus i).point c cs k outside (free, refl, next)) (λ t h. ([], (h.0, h.2)))

  inside_lem : (at : Point W) → is_inside at ≡ true → (c : Call) × (b : Code W) × (at ≡ inside c b)
  inside_lem idle e = cc
  inside_lem (entering d) e = cc
  inside_lem spinning e = cc
  inside_lem (inside c b) e = (c, b, refl)
  inside_lem leaving e = cc
  inside_lem (left d) e = cc

  -- Whoever has the lock gives it back.
  owner-Leads :
      (programs : ℕ → List Call) (s : State W) (k : System W) (o : Option ℕ)
      → IsLinear programs s k
      → AllEnd k
      → k.owner ≡ o
      → Leads k (λ t. t.owner ≡ none)
  owner-Leads programs s k none lin all e = ([], e)
  owner-Leads programs s k (some j) lin all e =
      let here = lin.exclusive j ∙ ap (owns j) e ∙ (==_iff j j).1 refl in
      let (c, b, at) = inside_lem (k.cpus j).point here in
      let ends = subst (λ (x : Point W). PointEnds x k.state) at (all j) in
      let (more, stands) = inside-Leads j c b (k.cpus j).calls k at refl ends in (more, stands.0)

  -- While the clock runs, and whatever steps the processors have taken: the code of each processor
  -- behind the lock comes to its end with no wait that goes on for ever, and the processors can take
  -- further steps after which the lock is free and a given one has made all the calls of its program.
  pub run-completes :
      (programs : ℕ → List Call) (s : State W) (schedule : List ℕ) (i : ℕ)
      → AllEnd (run schedule (start programs s))
        × (more : List ℕ) × ((run (schedule ++ more) (start programs s)).owner ≡ none)
        × (((run (schedule ++ more) (start programs s)).cpus i).calls ≡ [])
  run-completes programs s schedule i =
      let k = run schedule (start programs s) in
      let lin = run-IsLinear programs s schedule in
      let all =
        run-AllEnd runs programs s schedule (start programs s) (start-IsLinear programs s)
          (λ j. tt) in
      let (back, free) = owner-Leads programs s k k.owner lin all refl in
      let t = run back k in
      let lin' = run-IsLinear_from programs s back k lin in
      let (on, called) =
        outside-Leads i (t.cpus i).calls t (lin'.exclusive i ∙ ap (owns i) free) free refl in
      let joined : run (schedule ++ (back ++ on)) (start programs s) ≡ run on t =
        run-append schedule (back ++ on) (start programs s) ∙ run-append back on k in
      (
        all,
        back ++ on,
        ap (λ (u : System W). u.owner) joined ∙ called.0,
        ap (λ (u : System W). (u.cpus i).calls) joined ∙ called.1,
      )
