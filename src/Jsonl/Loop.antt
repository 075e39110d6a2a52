-- ===== src/Jsonl/Loop.antt =====
-- The loop over `handle.readline(limit)`, on fuel, and what is true of every such loop.
use mcp_guard.Base.{
  ℕ, zero, suc, ◌+◌, ◌<◌, ◌≡◌, refl, inl, inr, true, false, Option, none, some, List, [], ◌∷◌,
  arith, length, if◌then◌else◌, Bool-cases, is_empty,
}
use mcp_guard.Jsonl.{read_line}
use mcp_guard.Jsonl.Lines.{length-read_line}
use mcp_guard.Result.{Result, err, ok}
use mathlib.Core.Path.{subst}

module _ {S : Type 0} (limit : ℕ) (body : List ℕ → S → Result S) where
  -- The rest of the loop, unless the body raised.
  unfoldable pub next_round : Result S → (S → Option (Result S)) → Option (Result S)
  next_round (err e) loop = some (err e)
  next_round (ok state) loop = loop state

  -- while True: raw = handle.readline(limit); if not raw: break; body
  unfoldable pub each_line : ℕ → List ℕ → S → Option (Result S)
  unfolding next_round
  each_line zero bytes state = none
  each_line (suc fuel) bytes state =
      let next =
        next_round (body (read_line limit bytes).raw state)
          (λ more. each_line fuel (read_line limit bytes).rest more) in
      if is_empty (read_line limit bytes).raw then some (ok state) else next

  shorter :
      (bytes : List ℕ)
      → is_empty (read_line limit bytes).raw ≡ false
      → length (read_line limit bytes).rest < length bytes
  shorter bytes h = shorten (read_line limit bytes).raw (length-read_line limit bytes) h
    where
      shorten :
          (raw : List ℕ)
          → length raw + length (read_line limit bytes).rest ≡ length bytes
          → is_empty raw ≡ false
          → length (read_line limit bytes).rest < length bytes
      shorten [] e h = cc
      shorten (b ∷ bs) e h = omega arith

  next_round-ends :
      (r : Result S) (f : S → Option (Result S))
      → ((state : S) → (x : Result S) × (f state ≡ some x))
      → (x : Result S) × (next_round r f ≡ some x)
  unfolding next_round
  next_round-ends (err e) f h = (err e, refl)
  next_round-ends (ok state) f h = h state

  -- More fuel than bytes is enough.
  pub each_line_total :
      (fuel : ℕ) (bytes : List ℕ) (state : S)
      → length bytes < fuel
      → (r : Result S) × (each_line fuel bytes state ≡ some r)
  unfolding each_line
  each_line_total zero bytes state h = absurd (omega arith)
  each_line_total (suc m) bytes state h = elim (Bool-cases (is_empty (read_line limit bytes).raw)) [
    | inl last ↦ (ok state, rw last)
    | inr more ↦ rw more (
        next_round-ends (body (read_line limit bytes).raw state)
          (each_line m (read_line limit bytes).rest)
          (λ s.
            each_line_total m (read_line limit bytes).rest s (omega (arith, shorter bytes more))))
  ]

  -- What the body keeps, given the bytes that are read and those that are left, holds at the end.
  pub each_line-keeps :
      (P : List ℕ → S → Type 0)
      → ((bytes : List ℕ) (state next : S)
          → is_empty (read_line limit bytes).raw ≡ false
          → P bytes state
          → body (read_line limit bytes).raw state ≡ ok next
          → P (read_line limit bytes).rest next)
      → (fuel : ℕ) (bytes : List ℕ) (state : S) {last : S} → P bytes state
      → each_line fuel bytes state ≡ some (ok last)
      → (left : List ℕ) × P left last × (is_empty (read_line limit left).raw ≡ true)
  unfolding each_line
  each_line-keeps P body_keeps zero bytes state p h = cc
  each_line-keeps P body_keeps (suc fuel) bytes state {last} p h =
      elim (Bool-cases (is_empty (read_line limit bytes).raw)) [
        | inl ended ↦
            let same : state ≡ last = cc (rw ended at h) in (bytes, subst (P bytes) same p, ended)
        | inr more ↦
            through
              (λ next q k. each_line-keeps P body_keeps fuel (read_line limit bytes).rest next q k)
              (body (read_line limit bytes).raw state) refl more (rw more at h)
      ]
    where
      through :
          ((next : S)
            → P (read_line limit bytes).rest next
            → each_line fuel (read_line limit bytes).rest next ≡ some (ok last)
            → (left : List ℕ) × P left last × (is_empty (read_line limit left).raw ≡ true))
          → (r : Result S) → body (read_line limit bytes).raw state ≡ r
          → is_empty (read_line limit bytes).raw ≡ false
          → next_round r (each_line fuel (read_line limit bytes).rest) ≡ some (ok last)
          → (left : List ℕ) × P left last × (is_empty (read_line limit left).raw ≡ true)
      through recur (err e) b full k = cc
      through recur (ok next) b full k = recur next (body_keeps bytes state next full p b) k
