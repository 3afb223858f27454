-- ===== src/Pipeline/Readers/Kept.antt =====
-- The rows that the readers of pipeline/readers.py keep, and the content that they go by.
use data_effi.Prelude.{
  ℕ, suc, ◌+◌, ◌<◌, Bool, true, false, String, List, [], ◌∷◌, ◌++◌, ◌≡◌, refl, sym, ◌∙◌, ap, arith,
  is_empty, all, if◌then◌else◌, Bool-cases, inl, inr, length, ◌==◌, ◌-◌, ==_iff,
}
use mathlib.Core.List.{append-nil, append_assoc}
use data_effi.Pipeline.Normalize.Runtime.{Runtime}
use data_effi.Pipeline.Readers.Bytes.{
  Bytes, Format, sniff_format, begins, first_bytes, lstrip_bytes, lower_bytes, is_blank_byte,
  looks_like_html,
}
use data_effi.Pipeline.Readers.Tables.{
  Table, Cells, no_table, take_row, take_rows, is_blank_row, header_texts,
}

-- The rows of a sheet that are not blank.
unfoldable pub kept : Runtime → List Cells → List Cells
kept r [] = []
kept r (row ∷ rows) = let rest = kept r rows in if is_blank_row r row then rest else row ∷ rest

-- The first of them is the headers.
unfoldable pub table_of : Runtime → List Cells → Table
unfolding header_texts
table_of r [] = no_table
table_of r (row ∷ rows) = record { headers = header_texts r row; rows = rows }

header_texts-not_empty :
    (r : Runtime) (row : Cells) → is_blank_row r row ≡ false → is_empty (header_texts r row) ≡ false
unfolding is_blank_row header_texts
header_texts-not_empty r [] h = cc
header_texts-not_empty r (c ∷ cs) h = refl

take_rows-after :
    (r : Runtime) (rows : List Cells) (t : Table)
    → is_empty t.headers ≡ false
    → take_rows r rows t ≡ record t { rows = t.rows ++ kept r rows }
unfolding take_rows kept take_row
take_rows-after r [] t h = λ i. record t { rows = sym (append-nil t.rows) i }
take_rows-after r (row ∷ rows) t h = elim (Bool-cases (is_blank_row r row)) [
  | inl blank ↦ rw blank (take_rows-after r rows t h)
  | inr full ↦
      rw (full, h)
        (take_rows-after r rows (record t { rows = t.rows ++ row ∷ [] }) h
          ∙ (λ i. record t { rows = append_assoc t.rows (row ∷ []) (kept r rows) i }))
]

-- The loop of the readers of CSV and Excel returns the first row that is not blank as the headers,
-- and all others that are not blank as the rows, in their order; with no such row it returns
-- neither.
pub take_rows-kept :
    (r : Runtime) (rows : List Cells) → take_rows r rows no_table ≡ table_of r (kept r rows)
unfolding take_rows kept take_row table_of
take_rows-kept r [] = refl
take_rows-kept r (row ∷ rows) = elim (Bool-cases (is_blank_row r row)) [
  | inl blank ↦ rw blank (take_rows-kept r rows)
  | inr full ↦ rw full (
      take_rows-after r rows (record { headers = header_texts r row; rows = [] })
        (header_texts-not_empty r row full))
]

bit : true ≡ false → ⊥
bit h = cc

-- A blank byte is not one that is not blank.
blank_ne : (c d : ℕ) → is_blank_byte c ≡ true → is_blank_byte d ≡ false → (c == d) ≡ false
blank_ne c d hc hd = elim (Bool-cases (c == d)) [
  | inl same ↦ absurd (bit (sym hc ∙ ap is_blank_byte ((==_iff c d).0 same) ∙ hd))
  | inr other ↦ other
]

begins-blank :
    (blanks rest magic : Bytes) (d : ℕ)
    → all is_blank_byte blanks ≡ true
    → is_blank_byte d ≡ false
    → (60 == d) ≡ false
    → begins (blanks ++ 60 ∷ rest) (d ∷ magic) ≡ false
unfolding begins
begins-blank [] rest magic d hb hd ht = rw ht refl
begins-blank (b ∷ blanks) rest magic d hb hd ht = elim (Bool-cases (is_blank_byte b)) [
  | inl blank ↦ rw (blank_ne b d blank hd) refl
  | inr full ↦ absurd (bit (sym hb ∙ rw full refl))
]

lstrip_bytes-blank :
    (blanks rest : Bytes)
    → all is_blank_byte blanks ≡ true
    → lstrip_bytes (blanks ++ 60 ∷ rest) ≡ 60 ∷ rest
unfolding lstrip_bytes
lstrip_bytes-blank [] rest hb = refl
lstrip_bytes-blank (b ∷ blanks) rest hb = elim (Bool-cases (is_blank_byte b)) [
  | inl blank ↦ rw blank (lstrip_bytes-blank blanks rest (rw blank at hb))
  | inr full ↦ absurd (bit (sym hb ∙ rw full refl))
]

first_bytes-append :
    (blanks rest : Bytes) (n : ℕ)
    → first_bytes (length blanks + suc n) (blanks ++ 60 ∷ rest) ≡ blanks ++ 60 ∷ first_bytes n rest
unfolding first_bytes
first_bytes-append [] rest n =
    let e : 0 + suc n ≡ suc n = omega arith in ap (λ k. first_bytes k (60 ∷ rest)) e
first_bytes-append (b ∷ blanks) rest n =
    let e : suc (length blanks) + suc n ≡ suc (length blanks + suc n) = omega arith in
    ap (λ k. first_bytes k (b ∷ blanks ++ 60 ∷ rest)) e
    ∙ ap (λ bs. b ∷ bs) (first_bytes-append blanks rest n)

-- The head of the payload, once its first byte that is not blank is known.
sniff_of_head :
    (blanks rest : Bytes)
    → all is_blank_byte blanks ≡ true
    → looks_like_html (blanks ++ 60 ∷ rest) ≡ true
unfolding looks_like_html begins lstrip_bytes lower_bytes first_bytes
sniff_of_head blanks rest hb = rw (lstrip_bytes-blank blanks rest hb) refl

-- Content that starts with less than 2048 blank bytes and then a `<` is read as HTML, whatever the
-- name of the file is.
pub sniff_format-content :
    (blanks rest : Bytes) (ends_with : String → Bool)
    → all is_blank_byte blanks ≡ true
    → length blanks < 2048
    → sniff_format (blanks ++ 60 ∷ rest) ends_with ≡ Format.html
unfolding sniff_format
sniff_format-content blanks rest ends_with hb hl =
    let n : ℕ = 2047 - length blanks in
    let e : length blanks + suc n ≡ 2048 = omega arith in
    let h : first_bytes 2048 (blanks ++ 60 ∷ rest) ≡ blanks ++ 60 ∷ first_bytes n rest =
      ap (λ k. first_bytes k (blanks ++ 60 ∷ rest)) (sym e) ∙ first_bytes-append blanks rest n in
    rw
      (
        h,
        begins-blank blanks (first_bytes n rest) (0x4b ∷ 0x03 ∷ 0x04 ∷ []) 0x50 hb refl refl,
        begins-blank blanks (first_bytes n rest)
            (0xcf ∷ 0x11 ∷ 0xe0 ∷ 0xa1 ∷ 0xb1 ∷ 0x1a ∷ 0xe1 ∷ []) 0xd0 hb refl refl,
        sniff_of_head blanks (first_bytes n rest) hb,
      )
      refl
