-- ===== src/Processors/Linear.antt =====
-- Any interleaving of the processors comes to the calls one after the other, in the order in which
-- they got the lock.
use nugpgpu.Prelude.{
  ℕ, ◌≡◌, ◌≢◌, ◌∙◌, refl, sym, ap, Bool, true, false, List, [], ◌∷◌, Option, none, some,
  if◌then◌else◌,
}
use mathlib.Core.Path.{subst}
use nugpgpu.Platform.{Platform}
use nugpgpu.Machine.{State, spin_unlock}
use nugpgpu.Regrw.Clients.{Call}
use nugpgpu.Processors.{
  Code, done, access, bump, store_depth, spent, Point, idle, entering, spinning, inside, leaving,
  left, Cpu, System, finish, traced, move, take, give, turn_at, turn,
}
use nugpgpu.Processors.Alike.{core, Alike, IsBlind}
use nugpgpu.Processors.History.{
  calls_of, rev_onto, owns, is_inside, rest, promised, PointIsBlind, replay, answers, settled,
  IsLinear,
}
use nugpgpu.Processors.Taken.{take-IsLinear}
use nugpgpu.Processors.Rules.{
  owns_lem, owns-other, update_rule, update_self, promised-outside, PointIsBlind-outside,
  rest-outside, rest-Alike,
}

module _ {W : Type 0} ⦃p : Platform W⦄ where
  module _ (programs : ℕ → List Call) (s0 : State W) (i : ℕ) (k : System W)
      (lin : IsLinear programs s0 k) where
    -- A step that changes the point of processor `i` and the state.
    move-IsLinear :
        (at : Point W) (s : State W)
        → is_inside at ≡ is_inside (k.cpus i).point
        → PointIsBlind at
        → Alike (settled k.owner (move i at s k).cpus s) (settled k.owner k.cpus k.state)
        → promised at (k.cpus i).results s ≡ promised (k.cpus i).point (k.cpus i).results k.state
        → ((j : ℕ)
            → j ≢ i
            → promised (k.cpus j).point (k.cpus j).results s
              ≡ promised (k.cpus j).point (k.cpus j).results k.state)
        → IsLinear programs s0 (move i at s k)
    move-IsLinear at s in_lock blind settles says others =
        let c : Cpu W = record (k.cpus i) { point = at } in
        record {
          ordered =
              update_rule (λ j c. rev_onto (calls_of j k.history) c.calls ≡ programs j) i c k.cpus
                (lin.ordered i) (λ j ne. lin.ordered j);
          exclusive =
              update_rule (λ j c. is_inside c.point ≡ owns j k.owner) i c k.cpus
                (in_lock ∙ lin.exclusive i) (λ j ne. lin.exclusive j);
          blind = update_rule (λ j c. PointIsBlind c.point) i c k.cpus blind (λ j ne. lin.blind j);
          alike = settles ∙ lin.alike;
          answered =
              update_rule (λ j c. promised c.point c.results s ≡ answers j k.history s0) i c k.cpus
                (says ∙ lin.answered i) (λ j ne. others j ne ∙ lin.answered j);
        }

    settles-outside :
        (o : Option ℕ) (at : Point W) (s : State W)
        → is_inside (k.cpus i).point ≡ false
        → is_inside at ≡ false
        → Alike s k.state
        → Alike (settled o (move i at s k).cpus s) (settled o k.cpus k.state)
    settles-outside none at s before after e = e
    settles-outside (some j) at s before after e =
        update_rule (λ j c. Alike (rest c.point s) (rest (k.cpus j).point k.state)) i
          (record (k.cpus i) { point = at }) k.cpus
          (ap core (rest-outside at s after)
            ∙ e
            ∙ ap core (sym (rest-outside (k.cpus i).point k.state before)))
          (λ j ne. (rest-Alike (k.cpus j).point [] s k.state (lin.blind j) e).0) j

    -- A step without the lock, which changes no more of the state than `depth`.
    outside-IsLinear :
        (at : Point W) (s : State W)
        → is_inside (k.cpus i).point ≡ false
        → is_inside at ≡ false
        → Alike s k.state
        → IsLinear programs s0 (move i at s k)
    outside-IsLinear at s before after e =
        move-IsLinear at s (after ∙ sym before) (PointIsBlind-outside at after)
          (settles-outside k.owner at s before after e)
          (promised-outside at (k.cpus i).results s after
            ∙ sym (promised-outside (k.cpus i).point (k.cpus i).results k.state before))
          (λ j ne. (rest-Alike (k.cpus j).point (k.cpus j).results s k.state (lin.blind j) e).1)

    owner-inside : {c : Call} {b : Code W} → (k.cpus i).point ≡ inside c b → k.owner ≡ some i
    owner-inside e = owns_lem i k.owner (sym (lin.exclusive i) ∙ ap is_inside e)

    -- Nobody else is behind the lock.
    pub others-outside :
        {c : Call} {b : Code W}
        → (k.cpus i).point ≡ inside c b
        → (j : ℕ) → j ≢ i
        → is_inside (k.cpus j).point ≡ false
    others-outside e j ne = lin.exclusive j ∙ ap (owns j) (owner-inside e) ∙ owns-other i j ne

    promised-others :
        {c : Call} {b : Code W} (s : State W)
        → (k.cpus i).point ≡ inside c b
        → (j : ℕ) → j ≢ i
        → promised (k.cpus j).point (k.cpus j).results s
          ≡ promised (k.cpus j).point (k.cpus j).results k.state
    promised-others s e j ne =
        let outside = others-outside e j ne in
        promised-outside (k.cpus j).point (k.cpus j).results s outside
        ∙ sym (promised-outside (k.cpus j).point (k.cpus j).results k.state outside)

    -- A step behind the lock: the code that is left does to the state what the code did before.
    inside-IsLinear :
        (c : Call) (b b' : Code W) (s : State W)
        → (k.cpus i).point ≡ inside c b
        → IsBlind b'
        → finish b' s ≡ finish b k.state
        → IsLinear programs s0 (move i (inside c b') s k)
    inside-IsLinear c b b' s e blind same =
        move-IsLinear (inside c b') s (sym (ap is_inside e)) blind
          (subst
            (λ (o : Option ℕ).
              Alike (settled o (move i (inside c b') s k).cpus s) (settled o k.cpus k.state))
            (sym (owner-inside e))
            (ap (λ (d : Cpu W). core (rest d.point s)) (update_self i _ k.cpus)
              ∙ ap (λ r. core (spin_unlock r.1).1) same
              ∙ ap (λ at. core (rest at k.state)) (sym e)))
          (ap (λ r. r.0 ∷ (k.cpus i).results) same
            ∙ ap (λ at. promised at (k.cpus i).results k.state) (sym e))
          (promised-others s e)

    pub give-outside : (c : Call) → is_inside {W = W} (if traced c then leaving else idle) ≡ false
    give-outside Call.get = refl
    give-outside Call.put = refl
    give-outside Call.work = refl
    give-outside (Call.read w reg) = refl
    give-outside (Call.write w reg val) = refl

    -- Processor `i` has come to the end of its code and gives the lock back.
    give-IsLinear :
        (c : Call) (v : ℕ)
        → (k.cpus i).point ≡ inside c (done v)
        → IsLinear programs s0 (give i c v k)
    unfolding finish
    give-IsLinear c v e =
        let at : Point W = if traced c then leaving else idle in
        let d : Cpu W = record (k.cpus i) { point = at; results = v ∷ (k.cpus i).results } in
        let s : State W = (spin_unlock k.state).1 in
        let outside : is_inside at ≡ false = give-outside c in
        record {
          ordered =
              update_rule (λ j d. rev_onto (calls_of j k.history) d.calls ≡ programs j) i d k.cpus
                (lin.ordered i) (λ j ne. lin.ordered j);
          exclusive =
              update_rule (λ j d. is_inside d.point ≡ false) i d k.cpus outside (others-outside e);
          blind =
              update_rule (λ j d. PointIsBlind d.point) i d k.cpus (PointIsBlind-outside at outside)
                (λ j ne. lin.blind j);
          alike =
              ap (λ at. core (rest at k.state)) (sym e)
              ∙ subst (λ (o : Option ℕ). Alike (settled o k.cpus k.state) (replay k.history s0))
                  (owner-inside e) lin.alike;
          answered =
              update_rule (λ j d. promised d.point d.results s ≡ answers j k.history s0) i d k.cpus
                (promised-outside at d.results s outside
                  ∙ ap (λ at. promised at (k.cpus i).results k.state) (sym e)
                  ∙ lin.answered i)
                (λ j ne. promised-others s e j ne ∙ lin.answered j);
        }

    idle-IsLinear :
        (b : Bool)
        → (k.cpus i).point ≡ idle
        → IsLinear programs s0 (move i (if b then entering k.state.depth else spinning) k.state k)
    idle-IsLinear true e = outside-IsLinear _ k.state (ap is_inside e) refl refl
    idle-IsLinear false e = outside-IsLinear _ k.state (ap is_inside e) refl refl

    spinning-IsLinear :
        (c : Call) (cs : List Call) (o : Option ℕ)
        → k.owner ≡ o
        → (k.cpus i).point ≡ spinning
        → (k.cpus i).calls ≡ c ∷ cs
        → IsLinear programs s0 (take i c cs o k)
    spinning-IsLinear c cs none free e next = take-IsLinear programs s0 i k lin c cs free e next
    spinning-IsLinear c cs (some j) busy e next = lin

    IsBlind-inside : {c : Call} {b : Code W} → (k.cpus i).point ≡ inside c b → IsBlind b
    IsBlind-inside e = subst PointIsBlind e (lin.blind i)

    turn_at-IsLinear :
        (at : Point W) (cs : List Call)
        → (k.cpus i).point ≡ at
        → (k.cpus i).calls ≡ cs
        → IsLinear programs s0 (turn_at i at cs k)
    unfolding turn_at finish
    turn_at-IsLinear idle [] e next = lin
    turn_at-IsLinear idle (c ∷ cs) e next = idle-IsLinear (traced c) e
    turn_at-IsLinear (entering d) cs e next = outside-IsLinear spinning _ (ap is_inside e) refl refl
    turn_at-IsLinear spinning [] e next = lin
    turn_at-IsLinear spinning (c ∷ cs) e next = spinning-IsLinear c cs k.owner refl e next
    turn_at-IsLinear (inside c (done v)) cs e next = give-IsLinear c v e
    turn_at-IsLinear (inside c (access m f)) cs e next =
        inside-IsLinear c (access m f) _ _ e ((IsBlind-inside e).1 _) refl
    turn_at-IsLinear (inside c (bump f b)) cs e next =
        inside-IsLinear c (bump f b) _ _ e (IsBlind-inside e) refl
    turn_at-IsLinear (inside c (store_depth d b)) cs e next =
        inside-IsLinear c (store_depth d b) _ _ e (IsBlind-inside e) refl
    turn_at-IsLinear (inside c (spent b)) cs e next = lin
    turn_at-IsLinear leaving cs e next =
        outside-IsLinear (left k.state.depth) k.state (ap is_inside e) refl refl
    turn_at-IsLinear (left d) cs e next = outside-IsLinear idle _ (ap is_inside e) refl refl

    pub turn-IsLinear : IsLinear programs s0 (turn i k)
    turn-IsLinear = turn_at-IsLinear (k.cpus i).point (k.cpus i).calls refl refl
