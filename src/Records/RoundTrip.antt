-- ===== src/Records/RoundTrip.antt =====
-- crates/app/src/raw_ingress.rs: a line is read back as it was written, however the buffers cut it.
use aivtuber.Common.{
  ℕ, ◌+◌, ◌-◌, ◌≤◌, ◌<◌, ◌≡◌, ◌≢◌, refl, sym, ap, ◌∙◌, subst, Bool, true, false, none, some, List,
  [], ◌∷◌, ◌++◌, length, length-append, ltb, arith,
}
use aivtuber.Common.Word.{saturating_add, u64_max}
use aivtuber.Records.Reader.{
  BoundedRecord, record_of, newline, carriage_return, split_line, ends_with_cr, pop_last,
  finish_record, take_bytes, unread, read_loop, read_bounded_record, bytes_of, HasNoNewline,
}

cons-head : (x y : ℕ) (xs ys : List ℕ) → x ∷ xs ≡ y ∷ ys → x ≡ y
cons-head x y xs ys e = cc e

cons-tail : (x y : ℕ) (xs ys : List ℕ) → x ∷ xs ≡ y ∷ ys → xs ≡ ys
cons-tail x y xs ys e = cc e

-- A buffer of a text holds a part of the line, or the line's end with its newline.
data Part (buffer later r rest : List ℕ) : Type 0 where
  inside :
      (more : List ℕ)
      → split_line buffer ≡ (buffer, none)
      → r ≡ buffer ++ more
      → later ≡ more ++ newline ∷ rest
      → Part buffer later r rest
  across :
      (tail : List ℕ)
      → split_line buffer ≡ (r, some tail)
      → rest ≡ tail ++ later
      → Part buffer later r rest

part :
    (buffer later r rest : List ℕ)
    → HasNoNewline r
    → buffer ++ later ≡ r ++ newline ∷ rest
    → Part buffer later r rest
unfolding split_line
part [] later r rest clean e = inside r refl refl e
part (b ∷ bs) later [] rest clean e =
    let same : b ≡ newline = cons-head b newline (bs ++ later) rest e in
    across bs (ground arith) (sym (cons-tail b newline (bs ++ later) rest e))
part (b ∷ bs) later (c ∷ r) rest (first, clean) e =
    let same : b ≡ c = cons-head b c (bs ++ later) (r ++ newline ∷ rest) e in
    elim (part bs later r rest clean (cons-tail b c (bs ++ later) (r ++ newline ∷ rest) e)) [
      | inside more s p q ↦ inside more (ground arith) (ground arith) q
      | across tail s q ↦ across tail (ground arith) q
    ]

take_bytes_all : (n : ℕ) (bs : List ℕ) → length bs ≤ n → take_bytes n bs ≡ bs
unfolding take_bytes
take_bytes_all n [] h = refl
take_bytes_all n (b ∷ bs) h = ground (arith, take_bytes_all (n - 1) bs)

append-empty : (xs : List ℕ) → xs ++ [] ≡ xs
append-empty [] = refl
append-empty (x ∷ xs) = ap (λ ys. x ∷ ys) (append-empty xs)

append-append : (xs ys zs : List ℕ) → (xs ++ ys) ++ zs ≡ xs ++ (ys ++ zs)
append-append [] ys zs = refl
append-append (x ∷ xs) ys zs = ap (λ rest. x ∷ rest) (append-append xs ys zs)

bytes_of-unread :
    (tail : List ℕ) (later : List (List ℕ)) → bytes_of (unread tail later) ≡ tail ++ bytes_of later
bytes_of-unread [] later = refl
bytes_of-unread (b ∷ bs) later = refl

not_end : (r rest : List ℕ) → [] ≢ r ++ newline ∷ rest
not_end [] rest e = cc e
not_end (b ∷ r) rest e = cc e

-- What is kept of a buffer's part of the line, while the line fits.
keep_part :
    (max_bytes : ℕ) (retained line : List ℕ)
    → length (retained ++ line) ≤ max_bytes + 1
    → retained ++ take_bytes (max_bytes + 1 - length retained) line ≡ retained ++ line
keep_part max_bytes retained line h =
    ap (λ bs. retained ++ bs)
      (take_bytes_all (max_bytes + 1 - length retained) line
        (omega (arith, length-append retained line)))

sum_part :
    (max_bytes : ℕ) (retained line : List ℕ)
    → length (retained ++ line) ≤ max_bytes + 1
    → max_bytes < u64_max
    → saturating_add (length retained) (length line) ≡ length (retained ++ line)
unfolding saturating_add
sum_part max_bytes retained line h bound = omega (arith, length-append retained line)

-- What one buffer adds, while the line fits.
read_inside :
    (max_bytes : ℕ) (buffer retained : List ℕ) (later : List (List ℕ)) (saw_input : Bool)
    → max_bytes < u64_max
    → length (retained ++ buffer) ≤ max_bytes + 1
    → split_line buffer ≡ (buffer, none)
    → read_loop max_bytes (buffer ∷ later) retained (length retained) saw_input false
      ≡ read_loop max_bytes later (retained ++ buffer) (length (retained ++ buffer)) true false
unfolding read_loop
read_inside max_bytes buffer retained later saw_input bound fits s =
    let within : ltb (max_bytes + 1) (length (retained ++ buffer)) ≡ false = ground arith in
    simp (
      read_loop,
      s,
      sum_part max_bytes retained buffer fits bound,
      keep_part max_bytes retained buffer fits,
      within,
    )

read_across :
    (max_bytes : ℕ) (buffer retained r tail : List ℕ) (later : List (List ℕ)) (saw_input : Bool)
    → max_bytes < u64_max
    → length (retained ++ r) ≤ max_bytes + 1
    → split_line buffer ≡ (r, some tail)
    → read_loop max_bytes (buffer ∷ later) retained (length retained) saw_input false
      ≡ (finish_record (retained ++ r) (length (retained ++ r)) max_bytes false, unread tail later)
unfolding read_loop
read_across max_bytes buffer retained r tail later saw_input bound fits s =
    let within : ltb (max_bytes + 1) (length (retained ++ r)) ≡ false = ground arith in
    simp (
      read_loop,
      s,
      sum_part max_bytes retained r fits bound,
      keep_part max_bytes retained r fits,
      within,
    )

no_newline_later : (xs ys : List ℕ) → HasNoNewline (xs ++ ys) → HasNoNewline ys
no_newline_later [] ys h = h
no_newline_later (x ∷ xs) ys (p, h) = no_newline_later xs ys h

-- `out` is what reading the bytes of `r` gives, with `rest` left to read.
abbrev Reads : ℕ → List ℕ → List ℕ → BoundedRecord × List (List ℕ) → Type 0
Reads max_bytes r rest out =
    (out.0 ≡ finish_record r (length r) max_bytes false) × (bytes_of out.1 ≡ rest)

-- A line that fits is read whole, however the buffers cut it, and the text after it is left.
read_loop_line :
    (max_bytes : ℕ) (input : List (List ℕ)) (retained r rest : List ℕ) (saw_input : Bool)
    → max_bytes < u64_max
    → HasNoNewline r
    → length (retained ++ r) ≤ max_bytes + 1
    → bytes_of input ≡ r ++ newline ∷ rest
    → Reads max_bytes
        (retained ++ r)
        rest
        (read_loop max_bytes input retained (length retained) saw_input false)
read_loop_line max_bytes [] retained r rest saw_input bound clean fits e =
    elim (not_end r rest e) [ ]
read_loop_line max_bytes (buffer ∷ later) retained r rest saw_input bound clean fits e =
    elim (part buffer (bytes_of later) r rest clean e) [
      | inside more s p q ↦
          let regroup : (retained ++ (buffer ++ more)) ≡ (retained ++ r) =
            ap (λ bs. retained ++ bs) (sym p) in
          let whole : ((retained ++ buffer) ++ more) ≡ (retained ++ r) =
            append-append retained buffer more ∙ regroup in
          let fits_next : length ((retained ++ buffer) ++ more) ≤ max_bytes + 1 =
            subst (λ bs. length bs ≤ max_bytes + 1) (sym whole) fits in
          let fits_now : length (retained ++ buffer) ≤ max_bytes + 1 =
            omega (arith, fits_next, length-append (retained ++ buffer) more) in
          let held =
            read_loop_line max_bytes later (retained ++ buffer) more rest true bound
              (no_newline_later buffer more (subst HasNoNewline p clean)) fits_next q in
          subst (Reads max_bytes (retained ++ r) rest)
            (sym (read_inside max_bytes buffer retained later saw_input bound fits_now s))
            (subst
              (λ bs. Reads max_bytes bs rest (
                read_loop max_bytes later (retained ++ buffer) (length (retained ++ buffer)) true
                  false))
              whole held)
      | across tail s q ↦
          subst (Reads max_bytes (retained ++ r) rest)
            (sym (read_across max_bytes buffer retained r tail later saw_input bound fits s))
            (refl, bytes_of-unread tail later ∙ sym q)
    ]

-- How a line is written: with `\n`, or with `\r\n` when `crlf`.
abbrev pub line_end : Bool → List ℕ
line_end false = []
line_end true = carriage_return ∷ []

ends_with_cr_push : (r : List ℕ) → ends_with_cr (r ++ carriage_return ∷ []) ≡ true
unfolding ends_with_cr
ends_with_cr_push [] = refl
ends_with_cr_push (b ∷ []) = refl
ends_with_cr_push (b ∷ c ∷ r) = ends_with_cr_push (c ∷ r)

pop_last_push : (r : List ℕ) → pop_last (r ++ carriage_return ∷ []) ≡ r
unfolding pop_last
pop_last_push [] = refl
pop_last_push (b ∷ []) = refl
pop_last_push (b ∷ c ∷ r) = ap (λ bs. b ∷ bs) (pop_last_push (c ∷ r))

finish_line :
    (max_bytes : ℕ) (r : List ℕ) (crlf : Bool)
    → ends_with_cr r ≡ false
    → length r ≤ max_bytes
    → finish_record (r ++ line_end crlf) (length (r ++ line_end crlf)) max_bytes false ≡ record_of r
unfolding finish_record
finish_line max_bytes r false plain fits = rw (append-empty r) (ground (arith, plain))
finish_line max_bytes r true plain fits =
    let size : length (r ++ carriage_return ∷ []) - 1 ≡ length r =
      omega (arith, length-append r (carriage_return ∷ [])) in
    let within : ltb max_bytes (length r) ≡ false = ground arith in
    simp (ends_with_cr_push r, pop_last_push r, size, within)

no_newline_end : (r : List ℕ) (crlf : Bool) → HasNoNewline r → HasNoNewline (r ++ line_end crlf)
no_newline_end [] false clean = tt
no_newline_end [] true clean = (ground arith, tt)
no_newline_end (b ∷ r) crlf (p, clean) = (p, no_newline_end r crlf clean)

length-line_end : (r : List ℕ) (crlf : Bool) → length (r ++ line_end crlf) ≤ length r + 1
length-line_end r false = omega (arith, length-append r [])
length-line_end r true = omega (arith, length-append r (carriage_return ∷ []))

-- Take a record of at most `max_bytes` bytes, none of them a newline and the last not a carriage
-- return, written with `\n` or `\r\n` and followed by any bytes. However the input's buffers cut
-- these bytes, `read_bounded_record` gives the record back, and what it leaves to read is exactly
-- the bytes that follow. The bound is below the largest `usize`.
pub read_bounded_record-line :
    (max_bytes : ℕ) (input : List (List ℕ)) (r rest : List ℕ) (crlf : Bool)
    → max_bytes < u64_max
    → HasNoNewline r
    → ends_with_cr r ≡ false
    → length r ≤ max_bytes
    → bytes_of input ≡ (r ++ line_end crlf) ++ newline ∷ rest
    → ((read_bounded_record max_bytes input).0 ≡ record_of r)
      × (bytes_of (read_bounded_record max_bytes input).1 ≡ rest)
unfolding read_bounded_record
read_bounded_record-line max_bytes input r rest crlf bound clean plain fits e =
    let held =
      read_loop_line max_bytes input [] (r ++ line_end crlf) rest false bound
        (no_newline_end r crlf clean) (omega (arith, length-line_end r crlf)) e in
    (held.0 ∙ finish_line max_bytes r crlf plain fits, held.1)
