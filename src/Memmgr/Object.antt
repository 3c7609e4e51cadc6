-- ===== src/Memmgr/Object.antt =====
-- `allocate_object`: what it takes from the page allocator, and what it makes of it.
use mathlib.Core.List.{reverse, reverse-reverse, append_assoc, append-nil}
use mathlib.Core.Path.{subst}
use nugpgpu.Prelude.{
  ℕ, zero, suc, ◌+◌, ◌*◌, ◌^◌, ◌<◌, ◌≤◌, ◌≡◌, ◌∙◌, refl, sym, ap, Bool, true, false, arith, ◌==◌,
  List, [], ◌∷◌, ◌++◌, length, length-append, length-reverse, Option, none, some, Bool-cases, inl,
  inr, if◌then◌else◌,
}
use nugpgpu.Platform.{Platform}
use nugpgpu.Services.{Services, SgTable}
use nugpgpu.Machine.{
  State, Obj, Event, KernelCall, call, rd, wr, load, store, acquire, release, lock_init, Status,
  success,
}
use nugpgpu.Gtt.{page_size, ask}
use nugpgpu.Memmgr.{
  Building, add_page, pages_loop, map_result, map_object, fill_table, alloc_table, allocate_object,
}
use nugpgpu.Memmgr.Pages.{IsBuilt, IsLast, IsRuns, add_page-IsBuilt, frames_of, frames_of-reverse}

-- The page that a call took, if it took one.
abbrev pub page_taken : KernelCall → Option ℕ
page_taken (KernelCall.alloc_pages page) = if page == 0 then none else some page
page_taken _ = none

module _ (page_to_pfn : ℕ → ℕ) where
  -- The frames of the pages that `alloc_pages` has given, the newest first.
  abbrev pub frames_taken : List Event → List ℕ
  frames_taken [] = []
  frames_taken (call c ∷ l) =
      let rest = frames_taken l in
      elim (page_taken c) [ none ↦ rest | some page ↦ page_to_pfn page ∷ rest ]
  frames_taken (rd w a v ∷ l) = frames_taken l
  frames_taken (wr w a v ∷ l) = frames_taken l
  frames_taken (load a v ∷ l) = frames_taken l
  frames_taken (store a v ∷ l) = frames_taken l
  frames_taken (acquire ∷ l) = frames_taken l
  frames_taken (release ∷ l) = frames_taken l
  frames_taken (lock_init ∷ l) = frames_taken l

  frames_taken-none :
      (page : ℕ) (l : List Event)
      → (page == 0) ≡ true
      → frames_taken (call (KernelCall.alloc_pages page) ∷ l) ≡ frames_taken l
  frames_taken-none page l e =
      let no_page : page_taken (KernelCall.alloc_pages page) ≡ none = rw e in
      ap (λ o. elim o [ none ↦ frames_taken l | some q ↦ page_to_pfn q ∷ frames_taken l ]) no_page

  frames_taken-some :
      (page : ℕ) (l : List Event)
      → (page == 0) ≡ false
      → frames_taken (call (KernelCall.alloc_pages page) ∷ l) ≡ page_to_pfn page ∷ frames_taken l
  frames_taken-some page l e =
      let a_page : page_taken (KernelCall.alloc_pages page) ≡ some page = rw e in
      ap (λ o. elim o [ none ↦ frames_taken l | some q ↦ page_to_pfn q ∷ frames_taken l ]) a_page

module _ {W : Type 0} ⦃p : Platform W⦄ ⦃k : Services W⦄ where
  -- What the loop has done with `left` pages to go: taken them all and built their entries, or
  -- fewer.
  abbrev LoopDone : ℕ → List ℕ → State W → Option Building × State W → Type 0
  LoopDone left pfns s r = elim r.0 [
    | none ↦
        (ps : List ℕ) × (frames_taken k.page_to_pfn r.1.log
          ≡ ps ++ frames_taken k.page_to_pfn s.log)
        × (length ps < left)
    | some b ↦
        (ps : List ℕ) × (frames_taken k.page_to_pfn r.1.log
          ≡ ps ++ frames_taken k.page_to_pfn s.log)
        × (length ps ≡ left)
        × IsBuilt (ps ++ pfns) b
  ]

  LoopDone-suc :
      (left pfn : ℕ) (pfns : List ℕ) (s t : State W) (r : Option Building × State W)
      → frames_taken k.page_to_pfn t.log ≡ pfn ∷ frames_taken k.page_to_pfn s.log
      → LoopDone left (pfn ∷ pfns) t r
      → LoopDone (suc left) pfns s r
  LoopDone-suc left pfn pfns s t (none, u) e (ps, taken, few) = (
    ps ++ (pfn ∷ []),
    taken
        ∙ ap (λ l. ps ++ l) e
        ∙ sym (append_assoc ps (pfn ∷ []) (frames_taken k.page_to_pfn s.log)),
    omega (arith, length-append {0} ps (pfn ∷ []), few),
  )
  LoopDone-suc left pfn pfns s t (some b, u) e (ps, taken, all, built) = (
    ps ++ (pfn ∷ []),
    taken
        ∙ ap (λ l. ps ++ l) e
        ∙ sym (append_assoc ps (pfn ∷ []) (frames_taken k.page_to_pfn s.log)),
    omega (arith, length-append {0} ps (pfn ∷ []), all),
    subst (λ l. IsBuilt l b) (sym (append_assoc ps (pfn ∷ []) pfns)) built,
  )

  pages_loop-LoopDone :
      ((page : ℕ) → k.page_to_pfn page + 1 < 2 ^ 64)
      → (left i : ℕ) (pfns : List ℕ) (b : Building) (s : State W) → length pfns ≡ i
      → (i + left) * page_size < 2 ^ 32
      → b.last_pfn + 1 < 2 ^ 64
      → IsBuilt pfns b
      → IsLast b.entries b.last_pfn i
      → LoopDone left pfns s (pages_loop left i b s)
  unfolding pages_loop
  pages_loop-LoopDone fits zero i pfns b s at_i small last_fits built end = ([], refl, refl, built)
  pages_loop-LoopDone fits (suc left) i pfns b s at_i small last_fits built end =
      let page = (k.alloc_pages s.world).0 in
      let t = (ask k.alloc_pages KernelCall.alloc_pages s).1 in
      elim (Bool-cases (page == 0)) [
        | inl e ↦ rw (e, pages_loop) ([], frames_taken-none k.page_to_pfn page s.log e, omega arith)
        | inr e ↦
            rw (e, pages_loop)
              (LoopDone-suc left (k.page_to_pfn page) pfns s t
                (pages_loop left (i + 1) (add_page i (k.page_to_pfn page) b) t)
                (frames_taken-some k.page_to_pfn page s.log e)
                (let (built', end', last') =
                    add_page-IsBuilt i (k.page_to_pfn page) b.nents b.last_pfn pfns at_i
                      (omega arith) last_fits b.entries built end in
                  pages_loop-LoopDone fits left (i + 1) (k.page_to_pfn page ∷ pfns)
                    (add_page i (k.page_to_pfn page) b) t (omega arith) (omega arith)
                    (rw last' (fits page)) built' end'))
      ]

  -- What success of `allocate_object` means for `num` pages.
  abbrev pub IsAllocated : State W → ℕ → (Status × Obj) × State W → Type 0
  IsAllocated s num r =
      (st : SgTable) × (r.0.1.pg_list ≡ some st)
      × ((ps : List ℕ) × (frames_taken k.page_to_pfn r.1.log
            ≡ ps ++ frames_taken k.page_to_pfn s.log)
          × (length ps ≡ num)
          × (frames_of st.sgl ≡ reverse ps))
      × IsRuns (reverse st.sgl)
      × (st.nents ≡ length st.sgl)
      × (st.nents ≤ num)

  LoopDone-same :
      (num : ℕ) (s t : State W) (r : Option Building × State W)
      → frames_taken k.page_to_pfn t.log ≡ frames_taken k.page_to_pfn s.log
      → LoopDone num [] t r
      → LoopDone num [] s r
  LoopDone-same num s t (none, u) same (ps, taken, few) = (ps, taken ∙ ap (λ l. ps ++ l) same, few)
  LoopDone-same num s t (some b, u) same (ps, taken, all, built) =
      (ps, taken ∙ ap (λ l. ps ++ l) same, all, built)

  map_result-IsAllocated :
      (obj : Obj) (st : SgTable) (failed : Bool) (num : ℕ) (s t : State W) (ps : List ℕ)
      → (map_result obj st failed t).0.0 ≡ success
      → frames_taken k.page_to_pfn t.log ≡ ps ++ frames_taken k.page_to_pfn s.log
      → length ps ≡ num
      → frames_of st.sgl ≡ reverse ps
      → IsRuns (reverse st.sgl) × (st.nents ≡ length st.sgl) × (st.nents ≤ num)
      → IsAllocated s num (map_result obj st failed t)
  unfolding map_result
  map_result-IsAllocated obj st true num s t ps done taken all frames (runs, counted, few) = cc
  map_result-IsAllocated obj st false num s t ps done taken all frames (runs, counted, few) =
      (st, refl, (ps, taken, all, frames), runs, counted, few)

  map_object-IsAllocated :
      (obj : Obj) (num : ℕ) (s t : State W) (built : Option Building)
      → LoopDone num [] s (built, t)
      → (map_object obj built t).0.0 ≡ success
      → IsAllocated s num (map_object obj built t)
  unfolding map_object
  map_object-IsAllocated obj num s t none loop done = cc
  map_object-IsAllocated obj num s t (some b) (ps, taken, all, built) done =
      let st : SgTable = record { sgl = reverse b.entries; nents = b.nents } in
      let whole : ps ++ [] ≡ ps = append-nil ps in
      map_result-IsAllocated obj st _ num s _ ps done taken all
        (frames_of-reverse b.entries ∙ ap reverse (built.frames ∙ whole))
        (
          rw reverse-reverse built.runs,
          built.counted ∙ sym (length-reverse b.entries),
          omega (arith, built.counted, built.few, ap length whole, all),
        )

  fill_table-IsAllocated :
      ((page : ℕ) → k.page_to_pfn page + 1 < 2 ^ 64)
      → (obj : Obj) (num : ℕ) (refused : Bool) (s t : State W) → num * page_size < 2 ^ 32
      → frames_taken k.page_to_pfn t.log ≡ frames_taken k.page_to_pfn s.log
      → (fill_table obj num refused t).0.0 ≡ success
      → IsAllocated s num (fill_table obj num refused t)
  unfolding fill_table
  fill_table-IsAllocated fits obj num true s t small same done = cc
  fill_table-IsAllocated fits obj num false s t small same done =
      let b : Building = record { entries = []; nents = 0; last_pfn = 0 } in
      let loop : LoopDone num [] t (pages_loop num 0 b t) =
        pages_loop-LoopDone fits num 0 [] b t refl (omega arith) (omega arith)
          (record { frames = refl; runs = tt; counted = refl; few = omega arith }) refl in
      map_object-IsAllocated obj num s _ _ (LoopDone-same num s t (pages_loop num 0 b t) same loop)
        done

  alloc_table-IsAllocated :
      ((page : ℕ) → k.page_to_pfn page + 1 < 2 ^ 64)
      → (obj : Obj) (num : ℕ) (failed : Bool) (s t : State W) → num * page_size < 2 ^ 32
      → frames_taken k.page_to_pfn t.log ≡ frames_taken k.page_to_pfn s.log
      → (alloc_table obj num failed t).0.0 ≡ success
      → IsAllocated s num (alloc_table obj num failed t)
  unfolding alloc_table
  alloc_table-IsAllocated fits obj num true s t small same done = cc
  alloc_table-IsAllocated fits obj num false s t small same done =
      fill_table-IsAllocated fits obj num _ s _ small same done

  -- If frame numbers fit an `unsigned long` and `num` pages fit the `unsigned` length of an entry,
  -- then `allocate_object`, when it succeeds, has taken exactly `num` pages from the allocator, and
  -- the object's scatterlist lists their frames in the order in which they were taken. Its entries
  -- are whole runs of pages, none beginning where the entry before it ends; `nents` is their number
  -- and at most `num`.
  pub allocate_object-IsAllocated :
      (obj : Obj) (num : ℕ) (s : State W)
      → ((page : ℕ) → k.page_to_pfn page + 1 < 2 ^ 64)
      → num * page_size < 2 ^ 32
      → (allocate_object obj num s).0.0 ≡ success
      → IsAllocated s num (allocate_object obj num s)
  unfolding allocate_object
  allocate_object-IsAllocated obj num s fits small done =
      alloc_table-IsAllocated fits obj num _ s _ small refl done
