-- ===== src/Processors/Holders.antt =====
-- Who holds the hardware awake, when each processor gives up only what it has taken.
use nugpgpu.Prelude.{
  ℕ, zero, suc, ◌+◌, ◌-◌, ◌^◌, ◌<◌, ◌≤◌, ◌≡◌, ◌≢◌, ◌∙◌, refl, sym, ap, arith, List, [], ◌∷◌, Option,
  none, some, length, ◌==◌, ==_iff, Bool-cases, inl, inr,
}
use mathlib.Core.Path.{subst}
use native.Mathlib.Decide.{dec_lt}
use nugpgpu.Platform.{Platform}
use nugpgpu.Machine.{State}
use nugpgpu.Regrw.Power.{IsPowered}
use nugpgpu.Regrw.Clients.{Call, holders, holders_after, holders-cons, run_call-holders}
use nugpgpu.Processors.{run, start}
use nugpgpu.Processors.Alike.{core, Alike}
use nugpgpu.Processors.History.{calls_of, rev_onto, replay}
use nugpgpu.Processors.Rules.{calls_of_self, calls_of_other}
use nugpgpu.Processors.Runs.{run-replay}

-- How often the calls, the newest first, have left the hardware held; `none` where they give up more
-- than they took.
abbrev pub held : List Call → Option ℕ
held [] = some 0
held (c ∷ cs) = elim (held cs) [ none ↦ none | some n ↦ holders_after c n ]

abbrev pub or_zero : Option ℕ → ℕ
or_zero none = 0
or_zero (some n) = n

-- The sum over the processors below `n`.
abbrev pub total : ℕ → (ℕ → ℕ) → ℕ
total zero f = 0
total (suc n) f = total n f + f n

total-same : (n : ℕ) (f g : ℕ → ℕ) → ((j : ℕ) → j < n → f j ≡ g j) → total n f ≡ total n g
total-same zero f g same = refl
total-same (suc n) f g same =
    omega (arith, total-same n f g (λ j low. same j (omega arith)), same n (omega arith))

-- Two counts that differ at one processor only.
total_changed :
    (n i : ℕ) (f g : ℕ → ℕ)
    → i < n
    → ((j : ℕ) → j ≢ i → f j ≡ g j)
    → total n f + g i ≡ total n g + f i
total_changed zero i f g low same = elim low [ ]
total_changed (suc n) i f g low same = elim (Bool-cases (i == n)) [
  | inl e ↦
      let at = (==_iff i n).0 e in
      let below = total-same n f g (λ j lt. same j (ground arith)) in
      omega (arith, below, ap f at, ap g at)
  | inr e ↦ omega (arith, total_changed n i f g (ground arith) same, same n (ground arith))
]

rev_onto-nil : (xs ys : List Call) → rev_onto xs ys ≡ [] → xs ≡ []
rev_onto-nil [] ys e = refl
rev_onto-nil (x ∷ xs) ys e =
    let none_left = rev_onto-nil xs (x ∷ ys) e in
    let last : x ∷ ys ≡ [] = subst (λ l. rev_onto l (x ∷ ys) ≡ []) none_left e in cc

-- If all the calls of a program can be made, so can those that have been.
held_so_far :
    (past next : List Call) (end : ℕ)
    → holders (rev_onto past next) 0 ≡ some end
    → (n : ℕ) × (held past ≡ some n) × (holders next n ≡ some end)
held_so_far [] next end e = (0, refl, e)
held_so_far (c ∷ past) next end e =
    let (m, before, after) = held_so_far past (c ∷ next) end e in
    let (n, here, rest) = holders-cons next (holders_after c m) end after in
    (n, ap (λ o. elim o [ none ↦ none | some k ↦ holders_after c k ]) before ∙ here, rest)

held_before :
    (c : Call) (o : Option ℕ) (m : ℕ)
    → (elim o [ none ↦ none | some k ↦ holders_after c k ]) ≡ some m
    → (k : ℕ) × (o ≡ some k) × (holders_after c k ≡ some m)
held_before c none m e = cc
held_before c (some k) m e = (k, refl, e)

-- What a processor may call when it holds `k` it may call when all together hold more.
holders_after-more :
    (c : Call) (k m n : ℕ)
    → holders_after c k ≡ some m
    → k ≤ n
    → n + 1 < 2 ^ 32
    → (holders_after c n ≡ some (n + m - k)) × (m ≤ k + 1)
holders_after-more Call.get k m n e le room = ground arith
holders_after-more Call.put k m n e le room = ground arith
holders_after-more Call.work k m n e le room = ground arith
holders_after-more (Call.read w reg) k m n e le room = ground arith
holders_after-more (Call.write w reg val) k m n e le room = ground arith

total_zero : (n : ℕ) → total n (λ _. 0) ≡ 0
total_zero zero = refl
total_zero (suc n) = omega (arith, total_zero n)

le-total : (n i : ℕ) (f : ℕ → ℕ) → i < n → f i ≤ total n f
le-total zero i f low = elim low [ ]
le-total (suc n) i f low = elim (Bool-cases (i == n)) [
  | inl e ↦ omega (arith, ap f ((==_iff i n).0 e))
  | inr e ↦ omega (arith, le-total n i f (ground arith))
]

-- How much processor `i` holds after the history.
abbrev pub holding : List (ℕ × Call) → ℕ → ℕ
holding h i = or_zero (held (calls_of i h))

-- Every processor has given up no more than it took.
abbrev IsDisciplined : List (ℕ × Call) → Type 0
IsDisciplined h = (i : ℕ) → (m : ℕ) × (held (calls_of i h) ≡ some m)

-- Only the first `n` processors have made calls.
abbrev IsBelow : ℕ → List (ℕ × Call) → Type 0
IsBelow n h = (i : ℕ) → n ≤ i → calls_of i h ≡ []

module _ (i : ℕ) (c : Call) (h : List (ℕ × Call)) where
  below_head : (n : ℕ) → IsBelow n ((i, c) ∷ h) → i < n
  below_head n below = elim (dec_lt i n) [
    | yes low ↦ low
    | no high ↦ let e = sym (calls_of_self i c h) ∙ below i (omega arith) in cc
  ]

  IsBelow-tail : (n : ℕ) → IsBelow n ((i, c) ∷ h) → IsBelow n h
  IsBelow-tail n below j le =
      let low = below_head n below in
      sym (calls_of_other i j c h (λ e. absurd (omega (arith, e)))) ∙ below j le

  last_held :
      IsDisciplined ((i, c) ∷ h)
      → (k m : ℕ) × (held (calls_of i h) ≡ some k)
        × (held (calls_of i ((i, c) ∷ h)) ≡ some m)
        × (holders_after c k ≡ some m)
  last_held good =
      let (m, e) = good i in
      let (k, before, after) =
        held_before c (held (calls_of i h)) m (ap held (sym (calls_of_self i c h)) ∙ e) in
      (k, m, before, e, after)

  IsDisciplined-tail : IsDisciplined ((i, c) ∷ h) → IsDisciplined h
  IsDisciplined-tail good j = elim (Bool-cases (j == i)) [
    | inl e ↦
        let (k, m, before, last, after) = last_held good in
        subst (λ n. (m : ℕ) × (held (calls_of n h) ≡ some m)) (sym ((==_iff j i).0 e)) (k, before)
    | inr e ↦
        let (m, last) = good j in (m, ap held (sym (calls_of_other i j c h (ground arith))) ∙ last)
  ]

  holding_other : (j : ℕ) → j ≢ i → holding ((i, c) ∷ h) j ≡ holding h j
  holding_other j ne = ap (λ cs. or_zero (held cs)) (calls_of_other i j c h ne)

module _ {W : Type 0} ⦃p : Platform W⦄ where
  replay-holders :
      (n : ℕ) (h : List (ℕ × Call)) (s : State W)
      → IsBelow n h
      → IsDisciplined h
      → length h < 2 ^ 32
      → IsPowered s
      → s.forcewake_count ≡ 0
      → let t = replay h s in
        IsPowered t × (t.forcewake_count ≡ total n (holding h)) × (t.forcewake_count ≤ length h)
  replay-holders n [] s below good few v none_held =
      (v, none_held ∙ sym (total_zero n), omega arith)
  replay-holders n ((i, c) ∷ h) s below good few v none_held =
      let (v', counted, low) =
        replay-holders n h s (IsBelow-tail i c h n below) (IsDisciplined-tail i c h good)
          (omega arith) v none_held in
      let t = replay h s in
      let (k, m, before, last, after) = last_held i c h good in
      let head = below_head i c h n below in
      let had : holding h i ≡ k = ap or_zero before in
      let has : holding ((i, c) ∷ h) i ≡ m = ap or_zero last in
      let part : k ≤ t.forcewake_count = omega (arith, le-total n i (holding h) head) in
      let (next, step) = holders_after-more c k m t.forcewake_count after part (omega arith) in
      let (powered, count) = run_call-holders c t (t.forcewake_count + m - k) v' next in
      (
        powered,
        omega (
          arith,
          count,
          total_changed n i (holding ((i, c) ∷ h)) (holding h) head (holding_other i c h),
        ),
        omega (arith, count),
      )

  IsPowered-Alike : (s t : State W) → Alike s t → IsPowered t → IsPowered s
  IsPowered-Alike s t e v =
      let at_core : IsPowered (core s) =
        subst IsPowered (sym e)
          (record { counted = v.counted; unlocked = v.unlocked; small = v.small }) in
      record { counted = at_core.counted; unlocked = at_core.unlocked; small = at_core.small }

  -- Let `n` processors run programs each of which, taken alone, never gives up the hardware without
  -- holding it and does not write FORCEWAKE_MT, from a state in which nobody holds the hardware, it
  -- sleeps and the lock is free. Whatever the order of their steps: whenever the lock is free and
  -- fewer than 2 ^ 32 calls have had it, the hardware is awake exactly while the count is above
  -- zero, and the count is the sum of what the processors hold, each of whom holds its gets less its
  -- puts.
  pub run-IsPowered :
      (n : ℕ) (programs : ℕ → List Call) (ends : ℕ → ℕ) (s : State W) (schedule : List ℕ)
      → ((i : ℕ) → n ≤ i → programs i ≡ [])
      → ((i : ℕ) → holders (programs i) 0 ≡ some (ends i))
      → IsPowered s
      → s.forcewake_count ≡ 0
      → (run schedule (start programs s)).owner ≡ none
      → length (run schedule (start programs s)).history < 2 ^ 32
      → let k = run schedule (start programs s) in
        IsPowered k.state × (k.state.forcewake_count ≡ total n (holding k.history))
  run-IsPowered n programs ends s schedule few_programs apart v none_held free few =
      let k = run schedule (start programs s) in
      let (alike, results, ordered) = run-replay programs s schedule free in
      let good : IsDisciplined k.history = λ i.
        let (m, past, next) =
          held_so_far (calls_of i k.history) (k.cpus i).calls (ends i)
            (ap (λ cs. holders cs 0) (ordered i) ∙ apart i) in
        (m, past) in
      let below : IsBelow n k.history = λ i le.
        rev_onto-nil (calls_of i k.history) (k.cpus i).calls (ordered i ∙ few_programs i le) in
      let (powered, count, low) = replay-holders n k.history s below good few v none_held in
      (
        IsPowered-Alike k.state (replay k.history s) alike powered,
        ap (λ (t : State W). t.forcewake_count) alike ∙ count,
      )
