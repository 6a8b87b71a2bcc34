-- ===== src/Controls/Hourly.antt =====
-- `MaxTransactionCount` of controls/clientcontrols.py. A time counts microseconds.
use flumine.Prelude.{
  ℕ, ◌+◌, ◌*◌, ◌/◌, ◌≤◌, ◌≡◌, refl, ap, subst, leb→le, Bool-cases, inl, inr, Bool, true, Option,
  none, some, arith, ltb, leb, if◌then◌else◌,
}
use flumine.Controls.{ControlError}

pub record TransactionCount : Type 0 where
  pub next_hour : Option ℕ
  pub current_transaction_count : ℕ
  pub current_failed_transaction_count : ℕ
  pub transaction_count : ℕ
  pub failed_transaction_count : ℕ

-- `MaxTransactionCount.__init__`
abbrev pub new_count : TransactionCount
new_count = record {
  next_hour = none;
  current_transaction_count = 0;
  current_failed_transaction_count = 0;
  transaction_count = 0;
  failed_transaction_count = 0;
}

abbrev pub hour : ℕ
hour = 3_600_000_000

-- `add_transaction`
unfoldable pub add_transaction : ℕ → Bool → TransactionCount → TransactionCount
add_transaction count failed c =
    if failed
    then record c {
      failed_transaction_count = c.failed_transaction_count + count;
      current_failed_transaction_count = c.current_failed_transaction_count + count;
    }
    else record c {
      transaction_count = c.transaction_count + count;
      current_transaction_count = c.current_transaction_count + count;
    }

-- `_set_next_hour`: an hour from now, with the minutes and what is smaller set to 0
unfoldable pub set_next_hour : ℕ → TransactionCount → TransactionCount
set_next_hour now c = record c {
  next_hour = some ((now + hour) / hour * hour);
  current_transaction_count = 0;
  current_failed_transaction_count = 0;
}

-- `_check_hour`
unfoldable pub check_hour : ℕ → TransactionCount → TransactionCount
check_hour now c = elim c.next_hour [
  | none ↦ set_next_hour now c
  | some next ↦ if ltb next now then set_next_hour now c else c
]

abbrev pub current_total : TransactionCount → ℕ
current_total c = c.current_transaction_count + c.current_failed_transaction_count

-- `safe`
unfoldable pub safe : Option ℕ → TransactionCount → Bool
safe none c = true
safe (some transaction_limit) c = leb (current_total c) transaction_limit

-- `_validate`
unfoldable pub validate_count :
    Option ℕ → ℕ → TransactionCount → Option ControlError × TransactionCount
validate_count transaction_limit now c =
    let c' = check_hour now c in
    (if safe transaction_limit c' then none else some ControlError.transaction_count, c')

-- An hour that is set begins no later than an hour from now.
abbrev pub IsSoon : ℕ → Option ℕ → Type 0
IsSoon now none = Unit
IsSoon now (some next) = next ≤ now + hour

-- The counts of the hour are part of the totals, and the hour is soon.
pub record IsCounted (now : ℕ) (c : TransactionCount) : Type 0 where
  pub part : c.current_transaction_count ≤ c.transaction_count
  pub failed_part : c.current_failed_transaction_count ≤ c.failed_transaction_count
  pub soon : IsSoon now c.next_hour

-- What a check of the hour keeps.
abbrev pub IsWithin : ℕ → ℕ → ℕ → TransactionCount → TransactionCount → Type 0
IsWithin limit now next c c' =
    IsCounted now c'
    × (current_total c' ≤ limit)
    × (current_total c' ≡ (if ltb next now then 0 else current_total c))
    × (c'.transaction_count ≡ c.transaction_count)
    × (c'.failed_transaction_count ≡ c.failed_transaction_count)

check_hour-IsWithin :
    (limit now next : ℕ) (c : TransactionCount)
    → IsCounted now c
    → c.next_hour ≡ some next
    → leb (current_total (check_hour now c)) limit ≡ true
    → IsWithin limit now next c (check_hour now c)
unfolding check_hour set_next_hour
check_hour-IsWithin limit now next c counted known fits = elim (Bool-cases (ltb next now)) [
  | inl passed ↦
      rw (known, passed)
        (
          record { part = omega arith; failed_part = omega arith; soon = omega arith },
          omega arith,
          refl,
          refl,
          refl,
        )
  | inr ahead ↦
      rw (known, ahead)
        (
          record {
            part = counted.part;
            failed_part = counted.failed_part;
            soon = rw known at counted.soon;
          },
          leb→le (current_total c) limit (rw (known, ahead) at fits),
          refl,
          refl,
          refl,
        )
]

-- An order that the control lets through with a limit, in an hour that had been set: the counts stay
-- part of the totals, the hour's count is within the limit and is what it was, or 0 where the hour
-- has passed, and the totals are kept.
pub validate_count_lem :
    (limit now next : ℕ) (c c' : TransactionCount)
    → IsCounted now c
    → c.next_hour ≡ some next
    → validate_count (some limit) now c ≡ (none, c')
    → IsWithin limit now next c c'
unfolding validate_count
validate_count_lem limit now next c c' counted known passes =
    let error_eq : (if safe (some limit) (check_hour now c)
          then none
          else some ControlError.transaction_count)
        ≡ none =
      ap (λ r. r.0) passes in
    subst (IsWithin limit now next c) (ap (λ r. r.1) passes)
      (check_hour-IsWithin limit now next c counted known (unfold safe in ground arith))
