-- ===== src/Memmgr/Pages.antt =====
-- The scatterlist that the loop builds: its entries are the pages in their order, each entry a
-- longest run of neighbours.
use mathlib.Core.List.{reverse, reverse-cons, reverse-append, append_assoc, append-nil}
use native.Mathlib.Nat.{add-zero}
use nugpgpu.Prelude.{
  ℕ, zero, suc, ◌+◌, ◌*◌, ◌/◌, ◌%◌, ◌^◌, ◌<◌, ◌≤◌, ◌≡◌, ◌≢◌, ◌∙◌, refl, sym, ap, true, arith, ◌==◌,
  List, [], ◌∷◌, ◌++◌, length, Bool-cases, inl, inr, ==_iff, ◌||◌, not,
}
use nugpgpu.Services.{ScatterEntry}
use nugpgpu.Gtt.{page_size}
use nugpgpu.Memmgr.{Building, add_page, grow_last}

-- The `n` frames from `pfn` on, the last first; and the frames of entries, from the newest back.
abbrev pub run_back : ℕ → ℕ → List ℕ
run_back pfn zero = []
run_back pfn (suc n) = (pfn + n) ∷ run_back pfn n

abbrev pub pages_in : ScatterEntry → ℕ
pages_in e = e.length / page_size

abbrev pub frames_back : List ScatterEntry → List ℕ
frames_back [] = []
frames_back (e ∷ rest) = run_back e.pfn (pages_in e) ++ frames_back rest

-- Each entry has pages, whole ones, and no entry begins where the one before it ends.
abbrev pub IsRuns : List ScatterEntry → Type 0
IsRuns [] = Unit
IsRuns (e ∷ []) = (0 < pages_in e) × (e.length % page_size ≡ 0)
IsRuns (e ∷ f ∷ rest) =
    (0 < pages_in e) × (e.length % page_size ≡ 0) × (e.pfn ≢ f.pfn + pages_in f) × IsRuns (f ∷ rest)

-- After the pages `pfns`, the newest first.
pub record IsBuilt (pfns : List ℕ) (b : Building) : Type 0 where
  pub frames : frames_back b.entries ≡ pfns
  pub runs : IsRuns b.entries
  pub counted : b.nents ≡ length b.entries
  pub few : length b.entries ≤ length pfns

abbrev pub IsLast : List ScatterEntry → ℕ → ℕ → Type 0
IsLast [] last n = n ≡ 0
IsLast (e ∷ rest) last n = (e.pfn + pages_in e ≡ last + 1) × (e.length ≤ n * page_size) × (n ≢ 0)

-- A new entry of one page.
new-IsBuilt :
    (pfn n last i : ℕ) (pfns : List ℕ) (es : List ScatterEntry)
    → length pfns ≡ i
    → i + 1 < 2 ^ 32
    → IsBuilt pfns (record { entries = es; nents = n; last_pfn = last })
    → IsLast es last i
    → (i ≢ 0 → pfn ≢ last + 1)
    → IsBuilt (pfn ∷ pfns) (record {
      entries = record { pfn = pfn; length = page_size } ∷ es;
      nents = (n + 1) % 2 ^ 32;
      last_pfn = pfn;
    })
new-IsBuilt pfn n last i pfns [] at_i small built end apart = record {
  frames = ap (λ (f : ℕ). f ∷ []) (add-zero pfn) ∙ ap (λ l. pfn ∷ l) built.frames;
  runs = omega arith;
  counted = omega (arith, built.counted);
  few = omega arith;
}
new-IsBuilt pfn n last i pfns (x ∷ rest) at_i small built end apart = record {
  frames =
      ap (λ (f : ℕ). f ∷ frames_back (x ∷ rest)) (add-zero pfn) ∙ ap (λ l. pfn ∷ l) built.frames;
  runs = (omega arith, omega arith, λ e. apart end.2 (e ∙ end.0), built.runs);
  counted = omega (arith, built.counted, built.few);
  few = omega (arith, built.few);
}

longer-IsRuns :
    (x : ScatterEntry) (length' : ℕ) (rest : List ScatterEntry)
    → length' ≡ x.length + page_size
    → IsRuns (x ∷ rest)
    → IsRuns (record x { length = length' } ∷ rest)
longer-IsRuns x length' [] e h = omega arith
longer-IsRuns x length' (f ∷ rest) e h = (omega arith, omega arith, h.2, h.3)

-- A longer last entry.
grow-IsBuilt :
    (pfn n last i : ℕ) (pfns : List ℕ) (x : ScatterEntry) (rest : List ScatterEntry)
    → (i + 1) * page_size < 2 ^ 32
    → IsBuilt pfns (record { entries = x ∷ rest; nents = n; last_pfn = last })
    → IsLast (x ∷ rest) last i
    → pfn ≡ last + 1
    → IsBuilt (pfn ∷ pfns) (record { entries = grow_last (x ∷ rest); nents = n; last_pfn = pfn })
grow-IsBuilt pfn n last i pfns x rest small built end next =
    let grown : (x.length + page_size) % 2 ^ 32 ≡ x.length + page_size = omega arith in
    let more : (x.length + page_size) % 2 ^ 32 / page_size ≡ suc (pages_in x) = omega arith in
    let first : x.pfn + pages_in x ≡ pfn = omega arith in
    record {
      frames =
          ap (λ (m : ℕ). run_back x.pfn m ++ frames_back rest) more
          ∙ ap (λ (f : ℕ). f ∷ (run_back x.pfn (pages_in x) ++ frames_back rest)) first
          ∙ ap (λ l. pfn ∷ l) built.frames;
      runs = longer-IsRuns x ((x.length + page_size) % 2 ^ 32) rest grown built.runs;
      counted = built.counted;
      few = omega (arith, built.few);
    }

module _ (i pfn n last : ℕ) (pfns : List ℕ) (at_i : length pfns ≡ i)
    (small : (i + 1) * page_size < 2 ^ 32) (fits : last + 1 < 2 ^ 64) where
  pub add_page-IsBuilt :
      (es : List ScatterEntry)
      → IsBuilt pfns (record { entries = es; nents = n; last_pfn = last })
      → IsLast es last i
      → let b = add_page i pfn (record { entries = es; nents = n; last_pfn = last }) in
        IsBuilt (pfn ∷ pfns) b × IsLast b.entries b.last_pfn (i + 1) × (b.last_pfn ≡ pfn)
  unfolding add_page
  add_page-IsBuilt [] built end =
      let first : (i == 0) ≡ true = (==_iff i 0).1 end in
      rw first (
        new-IsBuilt pfn n last i pfns [] at_i (omega arith) built end (λ ne. absurd (ne end)),
        omega arith,
        refl,
      )
  add_page-IsBuilt (x ∷ rest) built end =
      elim (Bool-cases ((i == 0) || not (pfn == (last + 1) % 2 ^ 64))) [
        | inl e ↦ rw e (
          new-IsBuilt pfn n last i pfns (x ∷ rest) at_i (omega arith) built end (ground arith),
          omega arith,
          refl,
        )
        | inr e ↦
            let next : pfn ≡ last + 1 = ground arith in
            rw e (grow-IsBuilt pfn n last i pfns x rest small built end next, omega arith, refl)
      ]

-- The `n` frames from `pfn` on; and the frames of a scatterlist, in order.
abbrev pub run : ℕ → ℕ → List ℕ
run pfn zero = []
run pfn (suc n) = run pfn n ++ ((pfn + n) ∷ [])

abbrev pub frames_of : List ScatterEntry → List ℕ
frames_of [] = []
frames_of (e ∷ rest) = run e.pfn (pages_in e) ++ frames_of rest

reverse-run_back : (pfn n : ℕ) → reverse (run_back pfn n) ≡ run pfn n
reverse-run_back pfn zero = refl
reverse-run_back pfn (suc n) =
    reverse-cons (pfn + n) (run_back pfn n)
    ∙ ap (λ l. l ++ ((pfn + n) ∷ [])) (reverse-run_back pfn n)

frames_of-append : (es fs : List ScatterEntry) → frames_of (es ++ fs) ≡ frames_of es ++ frames_of fs
frames_of-append [] fs = refl
frames_of-append (e ∷ es) fs =
    ap (λ l. run e.pfn (pages_in e) ++ l) (frames_of-append es fs)
    ∙ sym (append_assoc (run e.pfn (pages_in e)) (frames_of es) (frames_of fs))

pub frames_of-reverse : (es : List ScatterEntry) → frames_of (reverse es) ≡ reverse (frames_back es)
frames_of-reverse [] = refl
frames_of-reverse (e ∷ es) =
    ap frames_of (reverse-cons e es)
    ∙ frames_of-append (reverse es) (e ∷ [])
    ∙ ap (λ l. l ++ (run e.pfn (pages_in e) ++ [])) (frames_of-reverse es)
    ∙ ap (λ l. reverse (frames_back es) ++ l)
        (append-nil (run e.pfn (pages_in e)) ∙ sym (reverse-run_back e.pfn (pages_in e)))
    ∙ sym (reverse-append (run_back e.pfn (pages_in e)) (frames_back es))
