-- ===== src/Records/Examples.antt =====
-- crates/app/src/raw_ingress.rs: a record that two buffers share, one that is too long, and the
-- end of the input.
use aivtuber.Common.{ℕ, ◌≡◌, refl, true, List, [], ◌∷◌, arith}
use aivtuber.Records.Reader.{
  eof, oversized, record_of, newline, carriage_return, read_bounded_record, bytes_of,
}
use aivtuber.Records.RoundTrip.{read_bounded_record-line}

-- `ab`, `\r\n` and `c`, cut within the record.
abbrev two_buffers : List (List ℕ)
two_buffers = (97 ∷ []) ∷ (98 ∷ carriage_return ∷ newline ∷ 99 ∷ []) ∷ []

read_bounded_record-line_example :
    ((read_bounded_record 2 two_buffers).0 ≡ record_of (97 ∷ 98 ∷ []))
    × (bytes_of (read_bounded_record 2 two_buffers).1 ≡ 99 ∷ [])
unfolding read_bounded_record
read_bounded_record-line_example =
    read_bounded_record-line 2 two_buffers (97 ∷ 98 ∷ []) (99 ∷ []) true (ground arith)
      (ground arith, (ground arith, tt)) refl (ground arith) refl

drains_too_long :
    read_bounded_record 1 ((97 ∷ 98 ∷ []) ∷ (99 ∷ newline ∷ 100 ∷ []) ∷ [])
    ≡ (oversized, (100 ∷ []) ∷ [])
unfolding read_bounded_record
drains_too_long = refl

ends : read_bounded_record 1 [] ≡ (eof, [])
unfolding read_bounded_record
ends = refl
