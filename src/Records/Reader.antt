-- ===== src/Records/Reader.antt =====
-- crates/app/src/raw_ingress.rs: the bounded reader of newline-delimited records, over the buffers
-- that its input hands out.
use aivtuber.Common.{
  ℕ, ◌+◌, ◌-◌, ◌≢◌, Bool, true, false, ◌||◌, Option, none, some, List, [], ◌∷◌, ◌++◌, length, ltb,
  eqb, if◌then◌else◌,
}
use aivtuber.Common.Word.{saturating_add}
use aivtuber.Common.Each.{Each}

pub data BoundedRecord : Type 0 where
  eof oversized : BoundedRecord
  record_of : List ℕ → BoundedRecord

-- `b'\n'` and `b'\r'`
abbrev pub newline : ℕ
newline = 10

abbrev pub carriage_return : ℕ
carriage_return = 13

-- `buffer.iter().position(|byte| *byte == b'\n')`: the bytes before a newline, and the ones after it.
unfoldable pub split_line : List ℕ → List ℕ × Option (List ℕ)
split_line [] = ([], none)
split_line (b ∷ bs) =
    let (line, after) = split_line bs in if eqb b newline then ([], some bs) else (b ∷ line, after)

-- `retained.last() == Some(&b'\r')`
unfoldable pub ends_with_cr : List ℕ → Bool
ends_with_cr [] = false
ends_with_cr (b ∷ []) = eqb b carriage_return
ends_with_cr (b ∷ c ∷ bs) = ends_with_cr (c ∷ bs)

-- `pop`
unfoldable pub pop_last : List ℕ → List ℕ
pop_last [] = []
pop_last (b ∷ []) = []
pop_last (b ∷ c ∷ bs) = b ∷ pop_last (c ∷ bs)

unfoldable pub finish_record : List ℕ → ℕ → ℕ → Bool → BoundedRecord
unfolding ends_with_cr pop_last
finish_record retained total_bytes max_record_bytes definitely_oversized =
    let had_cr = ends_with_cr retained in
    let kept = if had_cr then pop_last retained else retained in
    let logical_bytes = total_bytes - (if had_cr then 1 else 0) in
    if definitely_oversized
    then oversized
    else if ltb max_record_bytes logical_bytes || ltb max_record_bytes (length kept)
    then oversized
    else record_of kept

-- `&buffer[..copy_len]`
unfoldable pub take_bytes : ℕ → List ℕ → List ℕ
take_bytes n [] = []
take_bytes n (b ∷ bs) = let rest = take_bytes (n - 1) bs in if eqb n 0 then [] else b ∷ rest

-- `consume`: the buffer's rest is handed out next, unless it is empty.
abbrev pub unread : List ℕ → List (List ℕ) → List (List ℕ)
unread [] later = later
unread (b ∷ bs) later = (b ∷ bs) ∷ later

-- The loop of `read_bounded_record`. The input is the list of the buffers to come, none of them
-- empty; reading does not fail.
unfoldable pub read_loop :
    ℕ → List (List ℕ) → List ℕ → ℕ → Bool → Bool → BoundedRecord × List (List ℕ)
unfolding split_line finish_record take_bytes saturating_add
read_loop max_bytes [] retained total saw_input over =
    ((if saw_input then finish_record retained total max_bytes over else eof), [])
read_loop max_bytes (buffer ∷ later) retained total saw_input over =
    let (line, after) = split_line buffer in
    let sum = saturating_add total (length line) in
    let kept =
      if over then retained else retained ++ take_bytes (max_bytes + 1 - length retained) line in
    let too_long = if over then true else ltb (max_bytes + 1) sum in
    let rest = read_loop max_bytes later kept sum true too_long in
    elim after [
      | none ↦ rest
      | some tail ↦ (finish_record kept sum max_bytes too_long, unread tail later)
    ]

unfoldable pub read_bounded_record : ℕ → List (List ℕ) → BoundedRecord × List (List ℕ)
unfolding read_loop
read_bounded_record max_bytes input = read_loop max_bytes input [] 0 false false

-- The bytes that the buffers hold.
abbrev pub bytes_of : List (List ℕ) → List ℕ
bytes_of [] = []
bytes_of (buffer ∷ later) = buffer ++ bytes_of later

abbrev pub HasNoNewline : List ℕ → Type 0
HasNoNewline bytes = Each (λ b. b ≢ newline) bytes
