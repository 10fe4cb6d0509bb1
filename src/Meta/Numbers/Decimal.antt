-- ===== src/Meta/Numbers/Decimal.antt =====
-- `str_to_num` against the decimal texts that SQLite prints.
use ece566_project.Prelude.{
  ℕ, zero, suc, ◌+◌, ◌-◌, ◌*◌, ◌/◌, ◌%◌, ◌^◌, ◌<◌, ◌≡◌, ◌≢◌, refl, ap, ◌∙◌, true, some, [], ◌∷◌,
  ◌++◌, arith, ltb, if◌then◌else◌, Name, All,
}
use ece566_project.Prelude.Int.{word}
use ece566_project.Meta.Numbers.{
  is_digit, skip_spaces, scan_digits, number_of, signed_number, str_to_num,
}
use native.Mathlib.Nat.{div-add-mod, mod-lt}

-- The last digits of a number, as many as the fuel.
unfoldable digits : ℕ → ℕ → Name
digits zero n = []
digits (suc fuel) n =
    let rest = digits fuel (n / 10) in
    if ltb n 10 then (b'0' + n) ∷ [] else rest ++ ((b'0' + n % 10) ∷ [])

-- A number below 2 ^ 64 has at most 20 digits.
unfoldable pub decimal : ℕ → Name
unfolding digits
decimal n = digits 20 n

abbrev AllDigits : Name → Type 0
AllDigits = All (λ c. is_digit c ≡ true)

scan_last :
    (acc d : ℕ) (str : Name)
    → d < 10
    → AllDigits str
    → scan_digits acc (str ++ ((b'0' + d) ∷ [])) ≡ scan_digits acc str * 10 + d
unfolding scan_digits
scan_last acc d [] h a = ground arith
scan_last acc d (c ∷ str) h a = ground (arith, scan_last (acc * 10 + (c - b'0')) d str h a.1)

append-AllDigits :
    (str : Name) (d : ℕ) → d < 10 → AllDigits str → AllDigits (str ++ ((b'0' + d) ∷ []))
append-AllDigits [] d h a = ground arith
append-AllDigits (c ∷ str) d h a = ground (arith, append-AllDigits str d h a.1)

digits-AllDigits : (fuel n : ℕ) → AllDigits (digits fuel n)
unfolding digits
digits-AllDigits zero n = tt
digits-AllDigits (suc fuel) n = ground (
  arith,
  append-AllDigits (digits fuel (n / 10)) (n % 10) (mod-lt n (omega arith))
      (digits-AllDigits fuel (n / 10)),
)

fewer_digits : (fuel n : ℕ) → n < 10 ^ suc fuel → n / 10 < 10 ^ fuel
fewer_digits fuel n h = omega arith

append-nonempty : (str : Name) (c : ℕ) → str ++ (c ∷ []) ≢ []
append-nonempty [] c = ground arith
append-nonempty (d ∷ str) c = ground arith

scan-digits : (fuel n : ℕ) → n < 10 ^ fuel → scan_digits 0 (digits fuel n) ≡ n
unfolding digits scan_digits
scan-digits zero n h = omega arith
scan-digits (suc fuel) n h = ground (
  arith,
  scan_last 0 (n % 10) (digits fuel (n / 10)) (mod-lt n (omega arith))
      (digits-AllDigits fuel (n / 10)),
  scan-digits fuel (n / 10) (fewer_digits fuel n h),
  div-add-mod n 10,
)

digits-nonempty : (fuel n : ℕ) → digits (suc fuel) n ≢ []
unfolding digits
digits-nonempty fuel n = ground (arith, append-nonempty (digits fuel (n / 10)) (b'0' + n % 10))

str_to_num-AllDigits :
    (str : Name)
    → str ≢ []
    → AllDigits str
    → scan_digits 0 str < word
    → str_to_num str ≡ some (scan_digits 0 str)
unfolding str_to_num signed_number number_of skip_spaces
str_to_num-AllDigits [] ne a h = absurd (ne refl)
str_to_num-AllDigits (c ∷ str) ne a h = ground arith

-- The decimal text of a number below 2 ^ 64 is read back.
pub str_to_num-decimal : (n : ℕ) → n < word → str_to_num (decimal n) ≡ some n
unfolding decimal
str_to_num-decimal n h =
    let scanned = scan-digits 20 n (omega arith) in
    str_to_num-AllDigits (decimal n) (digits-nonempty 19 n) (digits-AllDigits 20 n)
      (omega (arith, scanned))
    ∙ ap some scanned
