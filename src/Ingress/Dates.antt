-- ===== src/Ingress/Dates.antt =====
-- crates/domain/src/event.rs: `is_json_schema_date_time`, the check of a date-time's bytes.
use Prim.Native.Char.{code}
use Prim.Native.Nat.{◌/◌, ◌%◌}
use aivtuber.Common.{
  ℕ, zero, suc, ◌+◌, ◌*◌, ◌-◌, ◌≤◌, ◌<◌, ◌≡◌, ◌≢◌, ◌↔◌, ◌⊎◌, refl, String, Bool, true, false, ◌&&◌,
  ◌||◌, Option, none, some, List, [], ◌∷◌, ◌++◌, length, get_elem?, ltb, leb, eqb, if◌then◌else◌,
  Bool-cases, arith, inl, inr,
}

-- The UTF-8 bytes of a code point.
abbrev utf8 : ℕ → List ℕ
utf8 c =
    if ltb c 0x80
    then c ∷ []
    else if ltb c 0x800
    then (0xc0 + c / 0x40) ∷ (0x80 + c % 0x40) ∷ []
    else if ltb c 0x10000
    then (0xe0 + c / 0x1000) ∷ (0x80 + c / 0x40 % 0x40) ∷ (0x80 + c % 0x40) ∷ []
    else (0xf0 + c / 0x40000)
      ∷ (0x80 + c / 0x1000 % 0x40)
      ∷ (0x80 + c / 0x40 % 0x40)
      ∷ (0x80 + c % 0x40)
      ∷ []

-- `str::as_bytes`
unfoldable pub as_bytes : String → List ℕ
as_bytes String.[] = []
as_bytes (String.◌∷◌ c s) = utf8 (code c) ++ as_bytes s

abbrev pub is_digit : ℕ → Bool
is_digit b = leb 0x30 b && leb b 0x39

abbrev pub u32_max : ℕ
u32_max = 4294967295

-- `value.checked_mul(10)?.checked_add(digit)` on 32 bits.
abbrev pub push_digit : ℕ → ℕ → Option ℕ
push_digit value b =
    if ltb u32_max (value * 10)
    then none
    else if ltb u32_max (value * 10 + (b - 0x30))
    then none
    else some (value * 10 + (b - 0x30))

-- `bytes.get(start..start + len)?`, whether all are digits, and the fold.
unfoldable pub parse_from : List ℕ → ℕ → ℕ → Option ℕ
parse_from bytes zero value = some value
parse_from [] (suc len) value = none
parse_from (b ∷ bytes) (suc len) value =
    if is_digit b
    then elim (push_digit value b) [ none ↦ none | some next ↦ parse_from bytes len next ]
    else none

unfoldable pub skip : ℕ → List ℕ → List ℕ
skip zero bytes = bytes
skip (suc n) [] = []
skip (suc n) (b ∷ bytes) = skip n bytes

unfoldable pub parse_digits : List ℕ → ℕ → ℕ → Option ℕ
unfolding parse_from skip
parse_digits bytes start len = parse_from (skip start bytes) len 0

unfoldable pub is_leap_year : ℕ → Bool
is_leap_year year =
    eqb (year % 4) 0 && ((if eqb (year % 100) 0 then false else true) || eqb (year % 400) 0)

unfoldable pub days_in_month : ℕ → ℕ → ℕ
unfolding is_leap_year
days_in_month year month =
    if eqb month 1
      || eqb month 3
      || eqb month 5
      || eqb month 7
      || eqb month 8
      || eqb month 10
      || eqb month 12
    then 31
    else if eqb month 4 || eqb month 6 || eqb month 9 || eqb month 11
    then 30
    else if eqb month 2
    then (if is_leap_year year then 29 else 28)
    else 0

-- The turns of `while bytes.get(index).is_some_and(is_ascii_digit)`.
unfoldable pub digit_run : List ℕ → ℕ
digit_run [] = 0
digit_run (b ∷ bytes) = let more = digit_run bytes in if is_digit b then suc more else 0

-- The byte at an index, compared.
abbrev pub has_byte : List ℕ → ℕ → ℕ → Bool
has_byte bytes index b = elim (get_elem? bytes index) [ none ↦ false | some x ↦ eqb x b ]

-- The zone at the end: `Z`, or an offset.
unfoldable pub zone_fits : List ℕ → ℕ → Bool
unfolding parse_digits
zone_fits bytes index =
    if has_byte bytes index 0x5a || has_byte bytes index 0x7a
    then eqb (index + 1) (length bytes)
    else if has_byte bytes index 0x2b || has_byte bytes index 0x2d
    then (if eqb (index + 6) (length bytes) && has_byte bytes (index + 3) 0x3a
        then elim (parse_digits bytes (index + 1) 2) [
          | none ↦ false
          | some offset_hour ↦ elim (parse_digits bytes (index + 4) 2) [
            | none ↦ false
            | some offset_minute ↦ leb offset_hour 23 && leb offset_minute 59
          ]
        ]
        else false)
    else false

-- The ranges of the fields.
unfoldable pub fields_fit : ℕ → ℕ → ℕ → ℕ → ℕ → ℕ → Bool
unfolding days_in_month
fields_fit year month day hour minute second =
    leb 1 month
    && leb month 12
    && leb 1 day
    && leb day (days_in_month year month)
    && leb hour 23
    && leb minute 59
    && leb second 59

-- The optional fraction of a second, and the zone.
unfoldable pub tail_fits : List ℕ → Bool
unfolding digit_run zone_fits skip
tail_fits bytes =
    if has_byte bytes 19 0x2e
    then (let run = digit_run (skip 20 bytes) in
        if eqb run 0 then false else zone_fits bytes (20 + run))
    else zone_fits bytes 19

unfoldable pub is_json_schema_date_time : String → Bool
unfolding as_bytes parse_digits fields_fit tail_fits
is_json_schema_date_time value =
    let bytes = as_bytes value in
    if leb 20 (length bytes)
      && has_byte bytes 4 0x2d
      && has_byte bytes 7 0x2d
      && (has_byte bytes 10 0x54 || has_byte bytes 10 0x74)
      && has_byte bytes 13 0x3a
      && has_byte bytes 16 0x3a
    then elim (parse_digits bytes 0 4) [
      | none ↦ false
      | some year ↦ elim (parse_digits bytes 5 2) [
        | none ↦ false
        | some month ↦ elim (parse_digits bytes 8 2) [
          | none ↦ false
          | some day ↦ elim (parse_digits bytes 11 2) [
            | none ↦ false
            | some hour ↦ elim (parse_digits bytes 14 2) [
              | none ↦ false
              | some minute ↦ elim (parse_digits bytes 17 2) [
                | none ↦ false
                | some second ↦ fields_fit year month day hour minute second && tail_fits bytes
              ]
            ]
          ]
        ]
      ]
    ]
    else false

accepts : is_json_schema_date_time "2026-09-20T10:00:00Z" ≡ true
unfolding is_json_schema_date_time
accepts = refl

rejects : is_json_schema_date_time "2026-02-29T10:00:00.5+01:00" ≡ false
unfolding is_json_schema_date_time
rejects = refl

accepts_offset : is_json_schema_date_time "2024-02-29t10:00:00.50+01:00" ≡ true
unfolding is_json_schema_date_time
accepts_offset = refl

-- `n` is a multiple of `d`.
abbrev pub Divides : ℕ → ℕ → Type 0
Divides d n = (k : ℕ) × (n ≡ k * d)

-- The Gregorian rule.
abbrev pub IsLeap : ℕ → Type 0
IsLeap year = Divides 4 year × (¬ Divides 100 year ⊎ Divides 400 year)

unfoldable pub days_in_year : ℕ → ℕ
unfolding days_in_month
days_in_year year =
    days_in_month year 1
    + days_in_month year 2
    + days_in_month year 3
    + days_in_month year 4
    + days_in_month year 5
    + days_in_month year 6
    + days_in_month year 7
    + days_in_month year 8
    + days_in_month year 9
    + days_in_month year 10
    + days_in_month year 11
    + days_in_month year 12

is_leap_year-IsLeap : (year : ℕ) → is_leap_year year ≡ true → IsLeap year
unfolding is_leap_year
is_leap_year-IsLeap year h =
    let by_four : year % 4 ≡ 0 = ground arith in
    let multiple : Divides 4 year = (year / 4, omega arith) in
    elim (Bool-cases (eqb (year % 100) 0)) [
      | inl t ↦
          let by_four_hundred : year % 400 ≡ 0 = ground arith in
          (multiple, inr (year / 400, omega arith))
      | inr f ↦
          let rest : year % 100 ≢ 0 = ground arith in (multiple, inl (λ (k, e). rest (omega arith)))
    ]

is_leap_year-not_IsLeap : (year : ℕ) → is_leap_year year ≡ false → ¬ IsLeap year
unfolding is_leap_year
is_leap_year-not_IsLeap year h ((k, e), leap) =
    let by_four : year % 4 ≡ 0 = omega arith in
    elim leap [
      | inl odd ↦
          let by_hundred : year % 100 ≡ 0 = ground arith in absurd (odd (year / 100, omega arith))
      | inr (m, q) ↦ let by_four_hundred : year % 400 ≡ 0 = omega arith in ground arith
    ]

-- The lengths of the twelve months add up to 366 days exactly if the year is a leap year, which is a
-- multiple of four that is either no multiple of a hundred or a multiple of four hundred, and to 365
-- days exactly if it is no leap year; and a month has days exactly if it is one of the twelve.
pub days_in_month_lem :
    (year : ℕ)
    → ((days_in_year year ≡ 366) ↔ IsLeap year)
      × ((days_in_year year ≡ 365) ↔ (¬ IsLeap year))
      × ((month : ℕ) → (0 < days_in_month year month) ↔ ((0 < month) × (month ≤ 12)))
unfolding days_in_year
days_in_month_lem year = elim (Bool-cases (is_leap_year year)) [
  | inl t ↦
      let leap = is_leap_year-IsLeap year t in
      rw t (
        ((λ e. leap), (λ l. refl)),
        ((λ e. omega arith), (λ n. absurd (n leap))),
        (λ month. ground arith),
      )
  | inr f ↦
      let common = is_leap_year-not_IsLeap year f in
      rw f (
        ((λ e. absurd (omega arith)), (λ l. absurd (common l))),
        ((λ e. common), (λ n. refl)),
        (λ month. ground arith),
      )
]
