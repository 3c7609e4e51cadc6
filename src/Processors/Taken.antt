-- ===== src/Processors/Taken.antt =====
-- A processor takes the lock: its call is the next in the order in which they got it.
use nugpgpu.Prelude.{ℕ, ◌≡◌, ◌∙◌, sym, ap, arith, false, List, ◌∷◌, Option, none, some}
use mathlib.Core.Path.{subst}
use nugpgpu.Platform.{Platform}
use nugpgpu.Machine.{State, spin_lock, spin_unlock}
use nugpgpu.Regrw.Clients.{Call}
use nugpgpu.Processors.{spinning, inside, Cpu, System, update, finish, body, take}
use nugpgpu.Processors.Alike.{core, Alike, finish-Alike, body-IsBlind}
use nugpgpu.Processors.Bodies.{returned, body_lem}
use nugpgpu.Processors.History.{
  calls_of, rev_onto, owns, is_inside, rest, promised, PointIsBlind, replay, answers, settled,
  IsLinear,
}
use nugpgpu.Processors.Rules.{
  owns-other, calls_of_self, calls_of_other, answers_self, answers_other, update_rule, update_self,
  promised-outside,
}

module _ {W : Type 0} ⦃p : Platform W⦄ where
  module _ (programs : ℕ → List Call) (s0 : State W) (i : ℕ) (k : System W)
      (lin : IsLinear programs s0 k) (c : Call) (cs : List Call) where
    -- Processor `i` behind the lock, with the code of the call before it.
    abbrev taker : Cpu W
    taker = record (k.cpus i) { calls = cs; point = inside c (body c) }

    abbrev locked_state : State W
    locked_state = (spin_lock k.state).1

    abbrev at_history : State W
    at_history = replay k.history s0

    take-ordered :
        (k.cpus i).calls ≡ c ∷ cs
        → (j : ℕ)
        → rev_onto (calls_of j ((i, c) ∷ k.history)) (update i taker k.cpus j).calls ≡ programs j
    take-ordered next =
        update_rule (λ j d. rev_onto (calls_of j ((i, c) ∷ k.history)) d.calls ≡ programs j) i taker
          k.cpus
          (ap (λ l. rev_onto l cs) (calls_of_self i c k.history)
            ∙ ap (λ l. rev_onto (calls_of i k.history) l) (sym next)
            ∙ lin.ordered i)
          (λ j ne.
            ap (λ l. rev_onto l (k.cpus j).calls) (calls_of_other i j c k.history ne)
            ∙ lin.ordered j)

    take-answered :
        ((j : ℕ) → is_inside (k.cpus j).point ≡ false)
        → (finish (body c) locked_state).0 ≡ returned c at_history
        → (j : ℕ)
        → promised (update i taker k.cpus j).point (update i taker k.cpus j).results locked_state
          ≡ answers j ((i, c) ∷ k.history) s0
    take-answered outside value =
        update_rule
          (λ j d. promised d.point d.results locked_state ≡ answers j ((i, c) ∷ k.history) s0) i
          taker k.cpus
          (ap (λ v. v ∷ (k.cpus i).results) value
            ∙ ap (λ vs. returned c at_history ∷ vs)
                (sym (promised-outside (k.cpus i).point (k.cpus i).results k.state (outside i))
                  ∙ lin.answered i)
            ∙ sym (answers_self i c k.history s0))
          (λ j ne.
            promised-outside (k.cpus j).point (k.cpus j).results locked_state (outside j)
            ∙ sym (promised-outside (k.cpus j).point (k.cpus j).results k.state (outside j))
            ∙ lin.answered j
            ∙ sym (answers_other i j c k.history s0 ne))

    -- The lock is free, and processor `i` takes it.
    pub take-IsLinear :
        k.owner ≡ none
        → (k.cpus i).point ≡ spinning
        → (k.cpus i).calls ≡ c ∷ cs
        → IsLinear programs s0 (take i c cs none k)
    take-IsLinear free e next =
        let outside : (j : ℕ) → is_inside (k.cpus j).point ≡ false =
          λ j. lin.exclusive j ∙ ap (owns j) free in
        let now : Alike k.state at_history =
          subst (λ (o : Option ℕ). Alike (settled o k.cpus k.state) at_history) free lin.alike in
        let (value, after) =
          finish-Alike (body c) locked_state (spin_lock at_history).1 (body-IsBlind W c)
            (ap (λ (u : State W). (spin_lock u).1) now) in
        let (alone, returns) = body_lem c at_history in
        record {
          ordered = take-ordered next;
          exclusive =
              update_rule (λ j d. is_inside d.point ≡ owns j (some i)) i taker k.cpus (ground arith)
                (λ j ne. outside j ∙ sym (owns-other i j ne));
          blind =
              update_rule (λ j d. PointIsBlind d.point) i taker k.cpus (body-IsBlind W c)
                (λ j ne. lin.blind j);
          alike =
              ap (λ (x : Cpu W). core (rest x.point locked_state)) (update_self i taker k.cpus)
              ∙ ap (λ (u : State W). (spin_unlock u).1) after
              ∙ alone;
          answered = take-answered outside (value ∙ returns);
        }
