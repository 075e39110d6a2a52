-- ===== src/Jsonl/Lines.antt =====
-- Laws of `read_line`.
use mcp_guard.Jsonl.{read_line, ends_line}
use mcp_guard.Base.{
  ℕ, zero, suc, ◌+◌, ◌≤◌, ◌<◌, ◌≡◌, refl, sym, ap, ◌∙◌, Bool, true, false, not, List, [], ◌∷◌, ◌++◌,
  arith, length, length-append, nat_eq, all, inl, inr, Bool-cases,
}

-- A line and what follows it are the bytes.
pub read_line_split : (n : ℕ) (bs : List ℕ) → (read_line n bs).raw ++ (read_line n bs).rest ≡ bs
unfolding read_line
read_line_split zero bs = refl
read_line_split (suc n) [] = refl
read_line_split (suc n) (b ∷ bs) = ground (arith, read_line_split n bs)

-- Only the end of the file gives an empty line.
pub read_line_end : (n : ℕ) (bs : List ℕ) → 0 < n → (read_line n bs).raw ≡ [] → bs ≡ []
unfolding read_line
read_line_end zero bs h e = absurd (omega arith)
read_line_end (suc n) [] h e = refl
read_line_end (suc n) (b ∷ bs) h e = ground arith

pub length-read_line :
    (n : ℕ) (bs : List ℕ) → length (read_line n bs).raw + length (read_line n bs).rest ≡ length bs
length-read_line n bs =
    sym (length-append (read_line n bs).raw (read_line n bs).rest)
    ∙ ap length (read_line_split n bs)

ends_line_tail :
    (b : ℕ) (bs : List ℕ) → nat_eq b b'\n' ≡ false → ends_line (b ∷ bs) ≡ true → ends_line bs ≡ true
unfolding ends_line
ends_line_tail b [] e h = cc
ends_line_tail b (c ∷ bs) e h = h

-- A complete line is read alike whatever stands behind it.
pub read_line-append :
    (n : ℕ) (bs more : List ℕ)
    → ends_line (read_line n bs).raw ≡ true
    → read_line n (bs ++ more)
      ≡ record { raw = (read_line n bs).raw; rest = (read_line n bs).rest ++ more }
unfolding read_line ends_line
read_line-append zero bs more h = cc
read_line-append (suc n) [] more h = cc
read_line-append (suc n) (b ∷ bs) more h = elim (Bool-cases (nat_eq b b'\n')) [
  | inl feed ↦ rw feed
  | inr inside ↦
      let tail = ends_line_tail b (read_line n bs).raw inside (rw inside at h) in
      rw (inside, read_line-append n bs more tail)
]

-- Bytes without a line feed.
abbrev pub no_feed : List ℕ → Bool
no_feed bs = all (λ b. not (nat_eq b b'\n')) bs

-- An encoded record and its line feed are one line.
pub read_line-feed :
    (n : ℕ) (bs more : List ℕ)
    → no_feed bs ≡ true
    → length bs < n
    → read_line n (bs ++ b'\n' ∷ more) ≡ record { raw = bs ++ b'\n' ∷ []; rest = more }
unfolding read_line
read_line-feed zero bs more h l = absurd (omega arith)
read_line-feed (suc n) [] more h l = refl
read_line-feed (suc n) (b ∷ bs) more h l = ground (arith, read_line-feed n bs more)

-- The last bytes, without a line feed, are read as they are.
pub read_line_tail :
    (n : ℕ) (bs : List ℕ)
    → no_feed bs ≡ true
    → length bs ≤ n
    → read_line n bs ≡ record { raw = bs; rest = [] }
unfolding read_line
read_line_tail zero [] h l = refl
read_line_tail zero (b ∷ bs) h l = absurd (omega arith)
read_line_tail (suc n) [] h l = refl
read_line_tail (suc n) (b ∷ bs) h l = ground (arith, read_line_tail n bs)

pub ends_line-no_feed : (bs : List ℕ) → no_feed bs ≡ true → ends_line bs ≡ false
unfolding ends_line
ends_line-no_feed [] h = refl
ends_line-no_feed (b ∷ []) h = ground arith
ends_line-no_feed (b ∷ c ∷ bs) h = ground (arith, ends_line-no_feed (c ∷ bs))

pub ends_line-feed : (bs : List ℕ) → ends_line (bs ++ b'\n' ∷ []) ≡ true
unfolding ends_line
ends_line-feed [] = refl
ends_line-feed (b ∷ []) = refl
ends_line-feed (b ∷ c ∷ bs) = ends_line-feed (c ∷ bs)
