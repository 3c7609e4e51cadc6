-- ===== src/Gtt/Table.antt =====
-- The page table as the GPU sees it: the last value stored into each entry, and the address that a
-- graphics address is translated to.
use mathlib.Core.Option
use mathlib.Core.List.{append_assoc}
use nugpgpu.Prelude.{
  ℕ, suc, zero, ◌+◌, ◌*◌, ◌/◌, ◌%◌, ◌<◌, ◌≤◌, ◌≡◌, ◌⊎◌, inl, ◌∙◌, refl, ap, true, arith,
  if◌then◌else◌, ◌==◌, List, [], ◌∷◌, ◌++◌, Option, none, some, length, get_elem?,
}
use nugpgpu.Machine.{Event, rd, wr, load, store, acquire, release, lock_init, call}
use nugpgpu.Machine.Log.{effects}
use nugpgpu.Gtt.{nugpgpu_pte_encode, page_size}
use nugpgpu.Gtt.Pte.{read_entry}

-- The value last stored at an address.
abbrev pub last_store : ℕ → List Event → Option ℕ
last_store a [] = none
last_store a (store b v ∷ l) = let earlier = last_store a l in if b == a then some v else earlier
last_store a (load b v ∷ l) = last_store a l
last_store a (rd w b v ∷ l) = last_store a l
last_store a (wr w b v ∷ l) = last_store a l
last_store a (acquire ∷ l) = last_store a l
last_store a (release ∷ l) = last_store a l
last_store a (lock_init ∷ l) = last_store a l
last_store a (call c ∷ l) = last_store a l

-- The entry `index` of a table mapped at `gsm`.
abbrev pub entry_at : ℕ → ℕ → List Event → Option ℕ
entry_at gsm index l = last_store (gsm + 4 * index) l

-- Where the GPU finds the graphics address `va`.
abbrev pub translate : ℕ → List Event → ℕ → Option ℕ
translate gsm l va =
    Option.map (λ pte. (read_entry pte).address + va % page_size) (entry_at gsm (va / page_size) l)

pub last_store-effects : (a : ℕ) (l : List Event) → last_store a (effects l) ≡ last_store a l
last_store-effects a [] = refl
last_store-effects a (store b v ∷ l) =
    ap (λ o. if b == a then some v else o) (last_store-effects a l)
last_store-effects a (load b v ∷ l) = last_store-effects a l
last_store-effects a (rd w b v ∷ l) = last_store-effects a l
last_store-effects a (wr w b v ∷ l) = last_store-effects a l
last_store-effects a (acquire ∷ l) = last_store-effects a l
last_store-effects a (release ∷ l) = last_store-effects a l
last_store-effects a (lock_init ∷ l) = last_store-effects a l
last_store-effects a (call c ∷ l) = last_store-effects a l

pub last_store-append :
    (a : ℕ) (new l m : List Event)
    → last_store a l ≡ last_store a m
    → last_store a (new ++ l) ≡ last_store a (new ++ m)
last_store-append a [] l m e = e
last_store-append a (store b v ∷ new) l m e =
    ap (λ o. if b == a then some v else o) (last_store-append a new l m e)
last_store-append a (load b v ∷ new) l m e = last_store-append a new l m e
last_store-append a (rd w b v ∷ new) l m e = last_store-append a new l m e
last_store-append a (wr w b v ∷ new) l m e = last_store-append a new l m e
last_store-append a (acquire ∷ new) l m e = last_store-append a new l m e
last_store-append a (release ∷ new) l m e = last_store-append a new l m e
last_store-append a (lock_init ∷ new) l m e = last_store-append a new l m e
last_store-append a (call c ∷ new) l m e = last_store-append a new l m e

-- The stores of `insert_loop` from index `i`, the newest first.
abbrev pub pte_stores : ℕ → ℕ → List ℕ → ℕ → List Event
pte_stores gtt_entries level [] i = []
pte_stores gtt_entries level (a ∷ rest) i =
    pte_stores gtt_entries level rest (i + 1)
    ++ (store (gtt_entries + 4 * i) (nugpgpu_pte_encode a level true) ∷ [])

module _ (gsm entry level : ℕ) where
  pub entry_at-pte_stores_out :
      (addrs : List ℕ) (i index : ℕ) (l : List Event)
      → (index < entry + i) ⊎ (entry + i + length addrs ≤ index)
      → entry_at gsm index (pte_stores (gsm + 4 * entry) level addrs i ++ l) ≡ entry_at gsm index l
  entry_at-pte_stores_out [] i index l out = refl
  entry_at-pte_stores_out (a ∷ rest) i index l out =
      ap (last_store (gsm + 4 * index)) (
        append_assoc (pte_stores (gsm + 4 * entry) level rest (i + 1))
          (store (gsm + 4 * entry + 4 * i) (nugpgpu_pte_encode a level true) ∷ []) l)
      ∙ entry_at-pte_stores_out rest (i + 1) index
          (store (gsm + 4 * entry + 4 * i) (nugpgpu_pte_encode a level true) ∷ l) (omega arith)
      ∙ ground arith

  pub entry_at-pte_stores_in :
      (addrs : List ℕ) (i j a : ℕ) (l : List Event)
      → get_elem? addrs j ≡ some a
      → entry_at gsm (entry + i + j) (pte_stores (gsm + 4 * entry) level addrs i ++ l)
        ≡ some (nugpgpu_pte_encode a level true)
  entry_at-pte_stores_in [] i j a l e = cc
  entry_at-pte_stores_in (b ∷ rest) i zero a l e =
      ap (last_store (gsm + 4 * (entry + i + 0))) (
        append_assoc (pte_stores (gsm + 4 * entry) level rest (i + 1))
          (store (gsm + 4 * entry + 4 * i) (nugpgpu_pte_encode b level true) ∷ []) l)
      ∙ entry_at-pte_stores_out rest (i + 1) (entry + i + 0)
          (store (gsm + 4 * entry + 4 * i) (nugpgpu_pte_encode b level true) ∷ l)
          (inl (omega arith))
      ∙ ground arith
  entry_at-pte_stores_in (b ∷ rest) i (suc j) a l e =
      let same : entry + i + suc j ≡ entry + (i + 1) + j = omega arith in
      ap (last_store (gsm + 4 * (entry + i + suc j))) (
        append_assoc (pte_stores (gsm + 4 * entry) level rest (i + 1))
          (store (gsm + 4 * entry + 4 * i) (nugpgpu_pte_encode b level true) ∷ []) l)
      ∙ ap
          (λ (n : ℕ). entry_at gsm n (
            pte_stores (gsm + 4 * entry) level rest (i + 1)
            ++ (store (gsm + 4 * entry + 4 * i) (nugpgpu_pte_encode b level true) ∷ l)))
          same
      ∙ entry_at-pte_stores_in rest (i + 1) j a
          (store (gsm + 4 * entry + 4 * i) (nugpgpu_pte_encode b level true) ∷ l) e
