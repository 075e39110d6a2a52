-- ===== src/Runtime/Ids/Lines.antt =====
-- The request ids of the lines that `run_stdio_gateway` of policylatch/runtime_gateway.py writes to the
-- server.
use mcp_guard.Gateway.{RequestId, no_id}
use mcp_guard.Json.{Fields}
use mcp_guard.Base.{ℕ, ◌≡◌, sym, ap, ◌∙◌, true, false, List, [], ◌∷◌, Unicode}
use mcp_guard.Result.{ok-injective, ok}
use mcp_guard.Runtime.Ids.Seen.{has_seen-first, has_seen-∷}
use mcp_guard.Runtime.Turn.{Gateway}
use mcp_guard.Runtime.Wire.{parse_json_line, request_id_of, has_seen}
use mathlib.Core.Path.{subst}
use mathlib.Core.Bool.{false≢true}

-- The line is a message with this request id, which is not null.
pub record Carries ⦃u : Unicode⦄ (g : Gateway) (wire : List ℕ) (i : RequestId) : Type 0 where
  pub message : Fields
  pub parsed : parse_json_line g.codec wire "Client request" ≡ ok message
  pub found : request_id_of message ≡ ok i
  pub not_null : ¬ (i ≡ no_id)

module _ ⦃u : Unicode⦄ (g : Gateway) where
  abbrev pub Without : RequestId → List (List ℕ) → Type 0
  Without i [] = Unit
  Without i (wire ∷ wires) = ¬ (Carries g wire i) × Without i wires

  -- No two of the lines carry one request id.
  abbrev pub OnceEach : List (List ℕ) → Type 0
  OnceEach [] = Unit
  OnceEach (wire ∷ wires) = ((i : RequestId) → Carries g wire i → Without i wires) × OnceEach wires

  -- The ids of the lines are all among those seen.
  abbrev pub Covered : List RequestId → List (List ℕ) → Type 0
  Covered seen [] = Unit
  Covered seen (wire ∷ wires) =
      ((i : RequestId) → Carries g wire i → has_seen seen i ≡ true) × Covered seen wires

  pub record Once (seen : List RequestId) (wires : List (List ℕ)) : Type 0 where
    pub each : OnceEach wires
    pub covered : Covered seen wires

  pub Covered-∷ :
      (i : RequestId) (seen : List RequestId) (wires : List (List ℕ))
      → Covered seen wires
      → Covered (i ∷ seen) wires
  Covered-∷ i seen [] h = tt
  Covered-∷ i seen (wire ∷ wires) (h, rest) =
      (λ j c. has_seen-∷ i j seen (h j c), Covered-∷ i seen wires rest)

  unseen-Without :
      (i : RequestId) (seen : List RequestId) (wires : List (List ℕ))
      → Covered seen wires
      → has_seen seen i ≡ false
      → Without i wires
  unseen-Without i seen [] h unseen = tt
  unseen-Without i seen (wire ∷ wires) (h, rest) unseen =
      (λ c. false≢true (sym unseen ∙ h i c), unseen-Without i seen wires rest unseen)

  Carries-unique :
      (wire : List ℕ) (m : Fields) (i j : RequestId)
      → parse_json_line g.codec wire "Client request" ≡ ok m
      → request_id_of m ≡ ok i
      → Carries g wire j
      → i ≡ j
  Carries-unique wire m i j parsed found c =
      let same = ok-injective (sym parsed ∙ c.parsed) in
      ok-injective (sym found ∙ ap request_id_of same ∙ c.found)

  -- A line whose id is new.
  pub new-Once :
      (wire : List ℕ) (m : Fields) (i : RequestId) (seen : List RequestId) (wires : List (List ℕ))
      → parse_json_line g.codec wire "Client request" ≡ ok m
      → request_id_of m ≡ ok i
      → has_seen seen i ≡ false
      → Once seen wires
      → Once (i ∷ seen) (wire ∷ wires)
  new-Once wire m i seen wires parsed found unseen before = record {
    each = (
      λ j c.
          subst (λ k. Without k wires) (Carries-unique wire m i j parsed found c)
            (unseen-Without i seen wires before.covered unseen),
      before.each,
    );
    covered = (
      λ j c.
          subst (λ k. has_seen (i ∷ seen) k ≡ true) (Carries-unique wire m i j parsed found c)
            (has_seen-first i seen),
      Covered-∷ i seen wires before.covered,
    );
  }

  -- A line whose id is null.
  pub null-Once :
      (wire : List ℕ) (m : Fields) (seen : List RequestId) (wires : List (List ℕ))
      → parse_json_line g.codec wire "Client request" ≡ ok m
      → request_id_of m ≡ ok no_id
      → Once seen wires
      → Once seen (wire ∷ wires)
  null-Once wire m seen wires parsed found before = record {
    each = (
      λ j c. absurd (c.not_null (sym (Carries-unique wire m no_id j parsed found c))),
      before.each,
    );
    covered = (
      λ j c. absurd (c.not_null (sym (Carries-unique wire m no_id j parsed found c))),
      before.covered,
    );
  }
