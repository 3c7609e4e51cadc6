-- ===== src/Memmgr/Fields.antt =====
-- `allocate_object` of nugpgpu_memmgr.c leaves the page table and the ring alone, and stores nothing.
use nugpgpu.Prelude.{
  ℕ, zero, suc, ◌+◌, ◌≡◌, refl, Bool, true, false, ◌==◌, Bool-cases, inl, inr, Option, none, some,
}
use nugpgpu.Platform.{Platform}
use nugpgpu.Services.{Services, SgTable}
use nugpgpu.Machine.{State, Obj}
use nugpgpu.Gtt.Table.{last_store}
use nugpgpu.Memmgr.{
  Building, add_page, pages_loop, map_result, map_object, fill_table, alloc_table, allocate_object,
}

-- Neither the page table, nor its cursor, nor the ring has changed, and nothing has been stored.
abbrev pub SameFields : {W : Type 0} → State W → State W → Type 0
SameFields s t =
    (t.gtt ≡ s.gtt)
    × (t.gtt_entry ≡ s.gtt_entry)
    × (t.ring ≡ s.ring)
    × ((a : ℕ) → last_store a t.log ≡ last_store a s.log)

module _ {W : Type 0} ⦃p : Platform W⦄ ⦃k : Services W⦄ (s : State W) where
  pages_loop-SameFields :
      (left i : ℕ) (b : Building) (t : State W)
      → SameFields s t
      → SameFields s (pages_loop left i b t).1
  unfolding pages_loop
  pages_loop-SameFields zero i b t h = h
  pages_loop-SameFields (suc left) i b t h = elim (Bool-cases ((k.alloc_pages t.world).0 == 0)) [
    | inl e ↦ rw (e, pages_loop) h
    | inr e ↦
        rw (e, pages_loop)
          (pages_loop-SameFields left (i + 1)
            (add_page i (k.page_to_pfn (k.alloc_pages t.world).0) b) _ h)
  ]

  map_result-SameFields :
      (obj : Obj) (st : SgTable) (failed : Bool) (t : State W)
      → SameFields s t
      → SameFields s (map_result obj st failed t).1
  unfolding map_result
  map_result-SameFields obj st true t h = h
  map_result-SameFields obj st false t h = h

  map_object-SameFields :
      (obj : Obj) (built : Option Building) (t : State W)
      → SameFields s t
      → SameFields s (map_object obj built t).1
  unfolding map_object
  map_object-SameFields obj none t h = h
  map_object-SameFields obj (some b) t h = map_result-SameFields obj _ _ _ h

  fill_table-SameFields :
      (obj : Obj) (num : ℕ) (refused : Bool) (t : State W)
      → SameFields s t
      → SameFields s (fill_table obj num refused t).1
  unfolding fill_table
  fill_table-SameFields obj num true t h = h
  fill_table-SameFields obj num false t h =
      map_object-SameFields obj _ _ (pages_loop-SameFields num 0 _ t h)

  alloc_table-SameFields :
      (obj : Obj) (num : ℕ) (failed : Bool) (t : State W)
      → SameFields s t
      → SameFields s (alloc_table obj num failed t).1
  unfolding alloc_table
  alloc_table-SameFields obj num true t h = h
  alloc_table-SameFields obj num false t h = fill_table-SameFields obj num _ _ h

module _ {W : Type 0} ⦃p : Platform W⦄ ⦃k : Services W⦄ where
  pub allocate_object-SameFields :
      (obj : Obj) (num : ℕ) (s : State W) → SameFields s (allocate_object obj num s).1
  unfolding allocate_object
  allocate_object-SameFields obj num s =
      alloc_table-SameFields s obj num _ _ (refl, refl, refl, λ a. refl)
