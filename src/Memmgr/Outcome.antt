-- ===== src/Memmgr/Outcome.antt =====
-- `allocate_object`: the outcomes, and what `depth` is after each.
use nugpgpu.Prelude.{
  ℕ, zero, suc, ◌+◌, ◌-◌, ◌%◌, ◌^◌, ◌<◌, ◌≡◌, ◌∙◌, refl, ap, Bool, true, false, arith, ◌==◌, Option,
  none, some, Bool-cases, inl, inr, ◌⊎◌,
}
use nugpgpu.Platform.{Platform}
use nugpgpu.Services.{Services, SgTable}
use nugpgpu.Machine.{State, Obj, KernelCall, Status, success, enomem, enospc}
use nugpgpu.Gtt.{ask}
use nugpgpu.Memmgr.{
  Building, add_page, pages_loop, map_result, map_object, fill_table, alloc_table, allocate_object,
}

module _ {W : Type 0} ⦃p : Platform W⦄ ⦃k : Services W⦄ where
  depth-pages_loop :
      (left i : ℕ) (b : Building) (s : State W) → (pages_loop left i b s).1.depth ≡ s.depth
  unfolding pages_loop
  depth-pages_loop zero i b s = refl
  depth-pages_loop (suc left) i b s =
      let page = (k.alloc_pages s.world).0 in
      elim (Bool-cases (page == 0)) [
        | inl e ↦ rw (e, pages_loop)
        | inr e ↦
            rw (e, pages_loop)
              (depth-pages_loop left (i + 1) (add_page i (k.page_to_pfn page) b)
                (ask k.alloc_pages KernelCall.alloc_pages s).1)
      ]

  -- What `allocate_object` returns, given what its loop returned.
  abbrev Returned : State W → Obj → (Status × Obj) × State W → Type 0
  Returned s obj r =
      ((r.0.0 ≡ success) × (r.1.depth ≡ ((s.depth + 1) % 2 ^ 32 + 2 ^ 32 - 1) % 2 ^ 32))
      ⊎ (((r.0.0 ≡ enomem) ⊎ (r.0.0 ≡ enospc))
          × (r.0.1 ≡ obj)
          × (r.1.depth ≡ (s.depth + 1) % 2 ^ 32))

  map_result-Returned :
      (obj : Obj) (st : SgTable) (failed : Bool) (s t : State W)
      → t.depth ≡ (s.depth + 1) % 2 ^ 32
      → Returned s obj (map_result obj st failed t)
  unfolding map_result
  map_result-Returned obj st true s t e = inr (inr refl, refl, e)
  map_result-Returned obj st false s t e = inl (refl, ap (λ (d : ℕ). (d + 2 ^ 32 - 1) % 2 ^ 32) e)

  map_object-Returned :
      (obj : Obj) (built : Option Building) (s t : State W)
      → t.depth ≡ (s.depth + 1) % 2 ^ 32
      → Returned s obj (map_object obj built t)
  unfolding map_object
  map_object-Returned obj none s t e = inr (inl refl, refl, e)
  map_object-Returned obj (some b) s t e = map_result-Returned obj _ _ s _ e

  fill_table-Returned :
      (obj : Obj) (num : ℕ) (refused : Bool) (s t : State W)
      → t.depth ≡ (s.depth + 1) % 2 ^ 32
      → Returned s obj (fill_table obj num refused t)
  unfolding fill_table
  fill_table-Returned obj num true s t e = inr (inl refl, refl, e)
  fill_table-Returned obj num false s t e =
      map_object-Returned obj _ s _ (depth-pages_loop num 0 _ t ∙ e)

  alloc_table-Returned :
      (obj : Obj) (num : ℕ) (failed : Bool) (s t : State W)
      → t.depth ≡ (s.depth + 1) % 2 ^ 32
      → Returned s obj (alloc_table obj num failed t)
  unfolding alloc_table
  alloc_table-Returned obj num true s t e = inr (inl refl, refl, e)
  alloc_table-Returned obj num false s t e = fill_table-Returned obj num _ s _ e

  -- `allocate_object` either succeeds, with `depth` as it was; or returns ENOMEM or ENOSPC, and then
  -- leaves the object as it was and `depth` one too high, for want of a TRACE_OUT.
  pub allocate_object-Returned :
      (obj : Obj) (num : ℕ) (s : State W)
      → s.depth < 2 ^ 32
      → let ((ret, obj'), t) = allocate_object obj num s in
        ((ret ≡ success) × (t.depth ≡ s.depth))
        ⊎ (((ret ≡ enomem) ⊎ (ret ≡ enospc)) × (obj' ≡ obj) × (t.depth ≡ (s.depth + 1) % 2 ^ 32))
  unfolding allocate_object
  allocate_object-Returned obj num s small =
      let returned : Returned s obj (allocate_object obj num s) =
        alloc_table-Returned obj num _ s _ refl in
      elim returned [ inl (ret, depth) ↦ inl (ret, depth ∙ omega arith) | inr failed ↦ inr failed ]
