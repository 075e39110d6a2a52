-- ===== src/Journal/File/Reading.antt =====
-- The loop of load_journal: the fuel that it needs, and the lines that it reads.
use mcp_guard.Base.{
  ℕ, zero, suc, ◌+◌, ◌<◌, ◌≡◌, refl, inl, inr, false, Option, some, List, [], ◌∷◌, arith, length,
  Bool-cases, is_empty, ◌∙◌,
}
use mcp_guard.Journal.{Calendar, max_journal_line_bytes}
use mcp_guard.Journal.File.{read_record, continue_with, read_records, finished, read_bytes}
use mcp_guard.Json.{Fields}
use mcp_guard.Jsonl.{read_line, Coding}
use mcp_guard.Jsonl.Lines.{length-read_line}
use mcp_guard.Result.{Result, err, ok}

module _ (cal : Calendar) (c : Coding) (limit : ℕ) where
  -- A line that is not empty leaves less to read.
  pub shorter :
      (bytes : List ℕ)
      → is_empty (read_line limit bytes).raw ≡ false
      → length (read_line limit bytes).rest < length bytes
  shorter bytes h = shorten (read_line limit bytes).raw (length-read_line limit bytes) h
    where
      shorten :
          (raw : List ℕ)
          → length raw + length (read_line limit bytes).rest ≡ length bytes
          → is_empty raw ≡ false
          → length (read_line limit bytes).rest < length bytes
      shorten [] e h = cc
      shorten (b ∷ bs) e h = omega arith

  -- The result of one round does not depend on how the rest is computed.
  continue_with-congr :
      (r : Result (List Fields)) (f g : List Fields → Option (Result (List Fields)))
      → ((records : List Fields) → f records ≡ g records)
      → continue_with r f ≡ continue_with r g
  unfolding continue_with
  continue_with-congr (err e) f g h = refl
  continue_with-congr (ok records) f g h = h records

  -- Any fuel above the number of bytes gives the same result.
  pub read_records_fuel :
      (m n : ℕ) (bytes : List ℕ) (records : List Fields)
      → length bytes < m
      → length bytes < n
      → read_records cal c limit m bytes records ≡ read_records cal c limit n bytes records
  unfolding read_records
  read_records_fuel zero n bytes records h k = absurd (omega arith)
  read_records_fuel (suc m) zero bytes records h k = absurd (omega arith)
  read_records_fuel (suc m) (suc n) bytes records h k =
      elim (Bool-cases (is_empty (read_line limit bytes).raw)) [
        | inl last ↦ rw last
        | inr more ↦
            let less = shorter bytes more in
            rw (
              more,
              continue_with-congr (read_record cal c (read_line limit bytes).raw records)
                  (read_records cal c limit m (read_line limit bytes).rest)
                  (read_records cal c limit n (read_line limit bytes).rest)
                  (λ rs.
                    read_records_fuel m n (read_line limit bytes).rest rs (omega (arith, less))
                      (omega (arith, less))),
            )
      ]

  continue_with-ends :
      (r : Result (List Fields)) (f : List Fields → Option (Result (List Fields)))
      → ((records : List Fields) → (x : Result (List Fields)) × (f records ≡ some x))
      → (x : Result (List Fields)) × (continue_with r f ≡ some x)
  unfolding continue_with
  continue_with-ends (err e) f h = (err e, refl)
  continue_with-ends (ok records) f h = h records

  pub read_records_total :
      (fuel : ℕ) (bytes : List ℕ) (records : List Fields)
      → length bytes < fuel
      → (r : Result (List Fields)) × (read_records cal c limit fuel bytes records ≡ some r)
  unfolding read_records
  read_records_total zero bytes records h = absurd (omega arith)
  read_records_total (suc m) bytes records h =
      elim (Bool-cases (is_empty (read_line limit bytes).raw)) [
        | inl last ↦ (ok records, rw last)
        | inr more ↦ rw more (
            continue_with-ends (read_record cal c (read_line limit bytes).raw records)
              (read_records cal c limit m (read_line limit bytes).rest)
              (λ rs.
                read_records_total m (read_line limit bytes).rest rs
                  (omega (arith, shorter bytes more))))
      ]

-- The loop that reads the lines of a journal ends for every fuel above the number of bytes, always with
-- the result of read_bytes.
pub read_records-read_bytes :
    (cal : Calendar) (c : Coding) (fuel : ℕ) (bytes : List ℕ)
    → length bytes < fuel
    → read_records cal c (max_journal_line_bytes + 1) fuel bytes [] ≡ some (read_bytes cal c bytes)
unfolding read_bytes finished
read_records-read_bytes cal c fuel bytes h =
    let (r, e) =
      read_records_total cal c (max_journal_line_bytes + 1) (length bytes + 1) bytes []
        (omega arith) in
    read_records_fuel cal c (max_journal_line_bytes + 1) fuel (length bytes + 1) bytes [] h
      (omega arith)
    ∙ rw e
