-- ===== src/Import/Prepare.antt =====
-- The rows that `prepareRows` takes: each address once, in its normal form, and each row counted.
use ai_email_broadcast_hw.Base.{
  ℕ, suc, ◌+◌, ◌≡◌, refl, inl, inr, Bool, true, false, not, ◌&&◌, List, [], ◌∷◌, ◌++◌, Text, arith,
  if_cases, length, length-append, text_eq, text_eq_comm, Bool-cases, All, All-append, any-append,
  count_where,
}
use ai_email_broadcast_hw.Address.{normalize_email}
use ai_email_broadcast_hw.Address.Valid.{is_valid_email}
use ai_email_broadcast_hw.Import.{
  ImportRow, ValidRow, Prepared, is_seen, is_blank, address_of, valid_row, prepare_row,
  prepare_from, prepare_rows,
}

-- No two rows have one key.
abbrev pub DistinctRows : List ValidRow → Type 0
DistinctRows [] = Unit
DistinctRows (r ∷ rs) = (is_seen r.email_normalized rs ≡ false) × DistinctRows rs

-- The address is one that `isValidEmail` accepts, and the key is its normal form.
abbrev pub IsAccepted : (Text → Text) → ValidRow → Type 0
IsAccepted lower r =
    (is_valid_email r.email ≡ true) × (r.email_normalized ≡ normalize_email lower r.email)

-- A row without an address, which is passed over and not counted.
abbrev pub has_no_address : ImportRow → Bool
has_no_address row = not (is_valid_email (address_of row)) && is_blank (address_of row)

DistinctRows-append :
    (rs : List ValidRow) (r : ValidRow)
    → DistinctRows rs
    → is_seen r.email_normalized rs ≡ false
    → DistinctRows (rs ++ r ∷ [])
DistinctRows-append [] r d h = (refl, tt)
DistinctRows-append (x ∷ rs) r (d, ds) h = (
  ground (
    arith,
    any-append (λ (v : ValidRow). text_eq v.email_normalized x.email_normalized) rs (r ∷ []),
    text_eq_comm r.email_normalized x.email_normalized,
  ),
  DistinctRows-append rs r ds (ground arith),
)

pub record IsSound (lower : Text → Text) (p : Prepared) : Type 0 where
  pub distinct : DistinctRows p.valid
  pub accepted : All (IsAccepted lower) p.valid

abbrev pub counted : Prepared → ℕ
counted p = length p.valid + length p.invalid + p.duplicates_in_input

module _ (lower : Text → Text) where
  prepare_row-IsSound :
      (p : Prepared) (row : ImportRow) → IsSound lower p → IsSound lower (prepare_row lower p row)
  unfolding prepare_row
  prepare_row-IsSound p row v = elim (Bool-cases (is_valid_email (address_of row))) [
    | inr e ↦ rw e (
        if_cases (IsSound lower) (is_blank (address_of row)) (λ b. v)
          (λ b. record { distinct = v.distinct; accepted = v.accepted }))
    | inl e ↦ rw e (elim (Bool-cases (is_seen (normalize_email lower (address_of row)) p.valid)) [
      | inl h ↦ rw h (record { distinct = v.distinct; accepted = v.accepted })
      | inr h ↦ rw h (record {
        distinct = DistinctRows-append p.valid (valid_row lower row) v.distinct h;
        accepted = All-append (IsAccepted lower) p.valid _ v.accepted ((e, refl), tt);
      })
    ])
  ]

  prepare_from-IsSound :
      (p : Prepared) (rows : List ImportRow)
      → IsSound lower p
      → IsSound lower (prepare_from lower p rows)
  unfolding prepare_from
  prepare_from-IsSound p [] v = v
  prepare_from-IsSound p (row ∷ rows) v =
      prepare_from-IsSound (prepare_row lower p row) rows (prepare_row-IsSound p row v)

  counted-prepare_row :
      (p : Prepared) (row : ImportRow)
      → counted (prepare_row lower p row) + count_where has_no_address (row ∷ []) ≡ suc (counted p)
  unfolding prepare_row
  counted-prepare_row p row = ground (
    arith,
    length-append p.valid (valid_row lower row ∷ []),
    length-append p.invalid (address_of row ∷ []),
  )

  counted-prepare_from :
      (p : Prepared) (rows : List ImportRow)
      → counted (prepare_from lower p rows) + count_where has_no_address rows
        ≡ counted p + length rows
  unfolding prepare_from
  counted-prepare_from p [] = omega arith
  counted-prepare_from p (row ∷ rows) =
      ground (arith, counted-prepare_row p row, counted-prepare_from (prepare_row lower p row) rows)

  -- Every row that is taken has an address that `isValidEmail` accepts, under the normal form of it,
  -- and no two have one normal form, so that the upsert meets no row twice; and each row of the
  -- input is counted once, as taken, invalid or a duplicate, unless it has no address.
  pub prepare_rows-IsSound :
      (rows : List ImportRow)
      → IsSound lower (prepare_rows lower rows)
        × (counted (prepare_rows lower rows) + count_where has_no_address rows ≡ length rows)
  unfolding prepare_rows
  prepare_rows-IsSound rows = (
    prepare_from-IsSound _ rows (record { distinct = tt; accepted = tt }),
    omega (
      arith,
      counted-prepare_from (record { valid = []; invalid = []; duplicates_in_input = 0 }) rows,
    ),
  )
