-- ===== src/Journal/File/Growing.antt =====
-- A journal that grows at its end: what is read of it is what was read before, and then the new bytes.
use mcp_guard.Base.{
  ℕ, ◌≡◌, false, List, [], is_empty, zero, suc, ◌<◌, refl, inl, inr, true, Option, some, ◌∷◌, ◌++◌,
  arith, length, Bool-cases, length-append,
}
use mcp_guard.Journal.{Calendar}
use mcp_guard.Journal.File.{read_record, continue_with, read_records}
use mcp_guard.Json.{Fields}
use mcp_guard.Jsonl.{read_line, Coding, ends_line}
use mcp_guard.Result.{ok, raise_if-eq-ok, Result, err}
use mcp_guard.Journal.File.Reading.{read_records_fuel, shorter}
use mcp_guard.Jsonl.Lines.{read_line_end, read_line-append}
use mcp_guard.Runtime.Session.{after}

is_empty-eq : (bs : List ℕ) → is_empty bs ≡ true → bs ≡ []
is_empty-eq [] h = refl
is_empty-eq (b ∷ bs) h = cc

module _ (cal : Calendar) (c : Coding) (limit : ℕ) where
  -- The lines of the bytes are read one after another, and each is accepted.
  pub data Reads : List ℕ → List Fields → List Fields → Type 0 where
    at_end : (records : List Fields) → Reads [] records records
    line :
        (bytes : List ℕ) (before after : List Fields) {records : List Fields}
        → is_empty (read_line limit bytes).raw ≡ false
        → read_record cal c (read_line limit bytes).raw before ≡ ok after
        → Reads (read_line limit bytes).rest after records
        → Reads bytes before records

  continue_with-eq-ok :
      (r : Result (List Fields)) (f : List Fields → Option (Result (List Fields)))
      {records : List Fields}
      → continue_with r f ≡ some (ok records)
      → (after : List Fields) × (r ≡ ok after) × (f after ≡ some (ok records))
  unfolding continue_with
  continue_with-eq-ok (err e) f h = cc
  continue_with-eq-ok (ok after) f h = (after, refl, h)

  -- A loop that returns has read every byte.
  pub read_records-Reads :
      (fuel : ℕ) (bytes : List ℕ) (before : List Fields) {records : List Fields}
      → 0 < limit
      → read_records cal c limit fuel bytes before ≡ some (ok records)
      → Reads bytes before records
  unfolding read_records
  read_records-Reads zero bytes before l h = cc
  read_records-Reads (suc n) bytes before {records} l h =
      elim (Bool-cases (is_empty (read_line limit bytes).raw)) [
        | inl last ↦
            let nothing =
              read_line_end limit bytes l (is_empty-eq (read_line limit bytes).raw last) in
            let same : before ≡ records = cc (rw last at h) in rw (nothing, same) (at_end records)
        | inr more ↦
            let (after, accepted, rest) = continue_with-eq-ok _ _ (rw more at h) in
            line bytes before after more accepted
              (read_records-Reads n (read_line limit bytes).rest after l rest)
      ]

  read_record-ends_line :
      (raw : List ℕ) (before : List Fields) {after : List Fields}
      → read_record cal c raw before ≡ ok after
      → ends_line raw ≡ true
  unfolding read_record
  read_record-ends_line raw before h =
      let (_, h1) = raise_if-eq-ok _ _ _ h in
      let (complete, h2) = raise_if-eq-ok _ _ _ h1 in ground arith

  -- Behind lines that are read, the loop goes on with the new bytes.
  pub read_records-append :
      {bytes : List ℕ} {before records : List Fields} (m n : ℕ) (more : List ℕ)
      → Reads bytes before records
      → length (bytes ++ more) < m
      → length more < n
      → read_records cal c limit m (bytes ++ more) before ≡ read_records cal c limit n more records
  unfolding read_records
  read_records-append m n more (at_end records) h k =
      read_records_fuel cal c limit m n more records h k
  read_records-append zero n more (line bytes before after {records} l e r) h k =
      absurd (omega arith)
  read_records-append (suc m) n more (line bytes before after {records} l e r) h k =
      let whole =
        read_line-append limit bytes more
          (read_record-ends_line (read_line limit bytes).raw before e) in
      let fewer : length ((read_line limit bytes).rest ++ more) < m = omega (
        arith,
        shorter cal c limit bytes l,
        length-append (read_line limit bytes).rest more,
        length-append bytes more,
      ) in
      rw (whole, l, e) (read_records-append m n more r fewer k)
