-- ===== src/Files/Names.antt =====
-- The names of the files that file_dump_page of nugpgpu_fileops.c writes.
use nugpgpu.Prelude.{
  ℕ, zero, suc, ◌+◌, ◌*◌, ◌-◌, ◌/◌, ◌%◌, ◌^◌, ◌≤◌, ◌<◌, ◌≡◌, ◌∙◌, ap, arith, List, [], ◌∷◌, ◌==◌,
  Bool-cases, inl, inr, length,
}
use nugpgpu.Files.{digits, sprintf_u, page_file_name}

-- The number that decimal digits are read as, after `n`.
abbrev pub value_from : ℕ → List ℕ → ℕ
value_from n [] = n
value_from n (c ∷ rest) = value_from (n * 10 + (c - b'0')) rest

-- The number at the end of a name, past as many characters as `dump_file_name` has.
abbrev pub page_named : List ℕ → ℕ
page_named (c0 ∷ c1 ∷ c2 ∷ c3 ∷ c4 ∷ c5 ∷ c6 ∷ c7 ∷ c8 ∷ c9 ∷ rest) = value_from 0 rest
page_named _ = 0

value_from-digits :
    (fuel n : ℕ) (out : List ℕ)
    → n < 10 ^ fuel
    → value_from 0 (digits fuel n out) ≡ value_from n out
unfolding digits
value_from-digits zero n out h = ap (λ m. value_from m out) (omega arith)
value_from-digits (suc fuel) n out h = elim (Bool-cases (n == 0)) [
  | inl e ↦ rw e (ap (λ m. value_from m out) (ground arith))
  | inr e ↦ rw e (
      value_from-digits fuel (n / 10) ((b'0' + n % 10) ∷ out) (omega arith)
      ∙ ap (λ m. value_from m out) (omega arith))
]

length-digits : (fuel n : ℕ) (out : List ℕ) → length (digits fuel n out) ≤ fuel + length out
unfolding digits
length-digits zero n out = omega arith
length-digits (suc fuel) n out = elim (Bool-cases (n == 0)) [
  | inl e ↦ rw e (omega arith)
  | inr e ↦ rw e (omega (arith, length-digits fuel (n / 10) ((b'0' + n % 10) ∷ out)))
]

value_from-sprintf_u : (n : ℕ) → n < 2 ^ 32 → value_from 0 (sprintf_u n) ≡ n
unfolding sprintf_u
value_from-sprintf_u n h = elim (Bool-cases (n == 0)) [
  | inl e ↦ rw e (ground arith)
  | inr e ↦ rw e (value_from-digits 10 n [] (omega arith))
]

length-sprintf_u : (n : ℕ) → length (sprintf_u n) ≤ 10
unfolding sprintf_u
length-sprintf_u n = elim (Bool-cases (n == 0)) [
  | inl e ↦ rw e (omega arith)
  | inr e ↦ rw e (omega (arith, length-digits 10 n []))
]

-- For each `unsigned` offset the digits, and the name that `file_dump_page` makes of it, fit with
-- their final zeros in its buffers of 100 characters, and the offset can be read back from the
-- name, so different offsets have different names.
pub page_named-file_name :
    (offset : ℕ)
    → offset < 2 ^ 32
    → (page_named (page_file_name offset) ≡ offset)
      × (length (sprintf_u offset) + 1 ≤ 100)
      × (length (page_file_name offset) + 1 ≤ 100)
unfolding page_file_name
page_named-file_name offset h = (
  value_from-sprintf_u offset h,
  omega (arith, length-sprintf_u offset),
  omega (arith, length-sprintf_u offset),
)
