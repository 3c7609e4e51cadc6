-- ===== src/Gtt/Sequence.antt =====
-- Tables that are entered in the page table one after the other, as the status page, the ring and
-- the batch of the self-test are: nugpgpu_gtt_insert of nugpgpu_gtt.c, many times.
use mathlib.Core.Option
use mathlib.Core.Path.{subst}
use nugpgpu.Prelude.{
  ℕ, zero, suc, ◌+◌, ◌*◌, ◌/◌, ◌%◌, ◌^◌, ◌<◌, ◌≤◌, ◌≡◌, ◌∙◌, refl, ap, arith, List, [], ◌∷◌, length,
  get_elem?, some, inl,
}
use nugpgpu.Platform.{Platform}
use nugpgpu.Services.{Services, SgTable}
use nugpgpu.Machine.{State, GpuGtt, Event}
use nugpgpu.Gtt.{page_size, nugpgpu_gtt_insert}
use nugpgpu.Gtt.Pte.{read_entry}
use nugpgpu.Gtt.Table.{entry_at, translate}
use nugpgpu.Gtt.Insert.{insert_va, gtt_insert-Touches, gtt_insert-translate, gtt_insert-keeps}

module _ {W : Type 0} ⦃p : Platform W⦄ ⦃k : Services W⦄ where
  -- A client that enters tables in order, and the addresses that it is given.
  abbrev pub insert_all : ℕ → List SgTable → State W → List ℕ × State W
  insert_all level [] s = ([], s)
  insert_all level (st ∷ rest) s =
      let (va, t) = nugpgpu_gtt_insert st level s in
      let (vas, u) = insert_all level rest t in (va ∷ vas, u)

length-get_elem? : (l : List ℕ) (j a : ℕ) → get_elem? l j ≡ some a → j < length l
length-get_elem? [] j a e = absurd cc
length-get_elem? (x ∷ l) zero a e = omega arith
length-get_elem? (x ∷ l) (suc j) a e = omega (arith, length-get_elem? l j a e)

module _ (pages : SgTable → List ℕ) where
  abbrev pub total_pages : List SgTable → ℕ
  total_pages [] = 0
  total_pages (st ∷ rest) = length (pages st) + total_pages rest

  -- The addresses of tables that are entered from the entry `first` on.
  abbrev pub addresses_from : ℕ → List SgTable → List ℕ
  addresses_from first [] = []
  addresses_from first (st ∷ rest) =
      first * page_size ∷ addresses_from (first + length (pages st)) rest

  -- Every byte of every page of a table that a page table entry can hold is found by the GPU where
  -- the table was entered, from the entry `first` on.
  abbrev pub IsMapped : ℕ → List Event → ℕ → SgTable → Type 0
  IsMapped gsm l first st =
      (j a offset : ℕ)
      → get_elem? (pages st) j ≡ some a
      → a % page_size ≡ 0
      → a < 2 ^ 39
      → offset < page_size
      → translate gsm l (first * page_size + page_size * j + offset) ≡ some (a + offset)

  abbrev pub AllMapped : ℕ → List Event → ℕ → List SgTable → Type 0
  AllMapped gsm l first [] = Unit {0}
  AllMapped gsm l first (st ∷ rest) =
      IsMapped gsm l first st × AllMapped gsm l (first + length (pages st)) rest

  -- What is mapped stays so in a log that agrees on the entries.
  pub IsMapped-entries :
      (gsm first : ℕ) (l m : List Event) (st : SgTable)
      → ((index : ℕ)
          → index < first + length (pages st)
          → entry_at gsm index m ≡ entry_at gsm index l)
      → IsMapped gsm l first st
      → IsMapped gsm m first st
  IsMapped-entries gsm first l m st same h j a offset at_j aligned low within =
      let va = first * page_size + page_size * j + offset in
      ap (Option.map (λ pte. (read_entry pte).address + va % page_size))
        (same (va / page_size) (omega (arith, length-get_elem? (pages st) j a at_j)))
      ∙ h j a offset at_j aligned low within

module _ {W : Type 0} ⦃p : Platform W⦄ ⦃k : Services W⦄ (pages : SgTable → List ℕ) (level : ℕ) where
  -- One table, whose DMA addresses do not depend on when they are read.
  pub inserted :
      (st : SgTable) (s : State W)
      → ((w : W) → k.sg_page_dma_addresses st w ≡ pages st)
      → s.gtt_entry + length (pages st) < 2 ^ 20
      → let (va, t) = nugpgpu_gtt_insert st level s in
        (va ≡ s.gtt_entry * page_size)
        × (t.gtt_entry ≡ s.gtt_entry + length (pages st))
        × (t.gtt.gsm ≡ s.gtt.gsm)
        × ((index : ℕ)
            → index < s.gtt_entry
            → entry_at s.gtt.gsm index t.log ≡ entry_at s.gtt.gsm index s.log)
        × IsMapped pages s.gtt.gsm t.log s.gtt_entry st
  inserted st s fixed room =
      let count : length (k.sg_page_dma_addresses st s.world) ≡ length (pages st) =
        ap length (fixed s.world) in
      let inside : s.gtt_entry < 2 ^ 20 = omega arith in
      let fits : s.gtt_entry + length (k.sg_page_dma_addresses st s.world) ≤ 2 ^ 20 =
        omega (arith, count) in
      let (before, after, error, touched, _) =
        gtt_insert-Touches st level s (omega (arith, count)) in
      let va = insert_va st level s inside (omega (arith, count)) in
      (
        va,
        omega (arith, touched.gtt_entry, count),
        ap (λ (g : GpuGtt). g.gsm) touched.gtt,
        λ index low. (gtt_insert-keeps st level s inside fits index (inl low)).2,
        λ j a offset at_j aligned low within.
            subst
              (λ x.
                translate s.gtt.gsm (nugpgpu_gtt_insert st level s).1.log
                  (x + page_size * j + offset)
                ≡ some (a + offset))
              va
              (gtt_insert-translate st level s inside fits j a offset
                (ap (λ l. get_elem? l j) (fixed s.world) ∙ at_j) aligned low within),
      )

module _ {W : Type 0} ⦃p : Platform W⦄ ⦃k : Services W⦄ (pages : SgTable → List ℕ)
    (fixed : (st : SgTable) (w : W) → k.sg_page_dma_addresses st w ≡ pages st) (level : ℕ) where
  module _ (gsm : ℕ) where
    -- The entries below the first of the tables stay.
    insert_all-entries :
        (tables : List SgTable) (s : State W)
        → s.gtt.gsm ≡ gsm
        → s.gtt_entry + total_pages pages tables < 2 ^ 20
        → (index : ℕ) → index < s.gtt_entry
        → entry_at gsm index (insert_all level tables s).1.log ≡ entry_at gsm index s.log
    insert_all-entries [] s e room index low = refl
    insert_all-entries (st ∷ rest) s e room index low =
        let t = (nugpgpu_gtt_insert st level s).1 in
        let (va, next, same, keeps, mapped) = inserted pages level st s (fixed st) (omega arith) in
        insert_all-entries rest t (same ∙ e) (omega (arith, next)) index (omega (arith, next))
        ∙ subst (λ g. entry_at g index t.log ≡ entry_at g index s.log) e (keeps index low)

    insert_all-Mapped :
        (tables : List SgTable) (s : State W)
        → s.gtt.gsm ≡ gsm
        → s.gtt_entry + total_pages pages tables < 2 ^ 20
        → let (vas, t) = insert_all level tables s in
          (vas ≡ addresses_from pages s.gtt_entry tables)
          × (t.gtt_entry ≡ s.gtt_entry + total_pages pages tables)
          × AllMapped pages gsm t.log s.gtt_entry tables
    insert_all-Mapped [] s e room = (refl, omega arith, tt)
    insert_all-Mapped (st ∷ rest) s e room =
        let t = (nugpgpu_gtt_insert st level s).1 in
        let u = (insert_all level rest t).1 in
        let (va, next, same, keeps, mapped) = inserted pages level st s (fixed st) (omega arith) in
        let (vas, last, others) = insert_all-Mapped rest t (same ∙ e) (omega (arith, next)) in
        let stays =
          IsMapped-entries pages gsm s.gtt_entry t.log u.log st
            (λ index low.
              insert_all-entries rest t (same ∙ e) (omega (arith, next)) index
                (omega (arith, next)))
            (subst (λ g. IsMapped pages g t.log s.gtt_entry st) e mapped) in
        (
          (λ i. va i ∷ (vas ∙ ap (λ n. addresses_from pages n rest) next) i),
          omega (arith, last, next),
          (stays, subst (λ n. AllMapped pages gsm u.log n rest) next others),
        )

  -- If the DMA addresses of a table do not depend on when they are read, and the entries from
  -- `gtt_entry` on have room for all pages of the tables and one more, then `nugpgpu_gtt_insert` of
  -- the tables one after the other gives them addresses that follow one another, and afterwards the
  -- GPU finds every byte of every page of every table where the table was entered, if the page's
  -- DMA address is aligned and below 2 ^ 39; and the entries before the first are as they were.
  pub insert_all-AllMapped :
      (tables : List SgTable) (s : State W)
      → s.gtt_entry + total_pages pages tables < 2 ^ 20
      → let (vas, t) = insert_all level tables s in
        (vas ≡ addresses_from pages s.gtt_entry tables)
        × (t.gtt_entry ≡ s.gtt_entry + total_pages pages tables)
        × AllMapped pages s.gtt.gsm t.log s.gtt_entry tables
        × ((index : ℕ)
            → index < s.gtt_entry
            → entry_at s.gtt.gsm index t.log ≡ entry_at s.gtt.gsm index s.log)
  insert_all-AllMapped tables s room =
      let (vas, next, mapped) = insert_all-Mapped s.gtt.gsm tables s refl room in
      (vas, next, mapped, insert_all-entries s.gtt.gsm tables s refl room)
