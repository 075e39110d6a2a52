-- ===== src/Journal/Duplicates/Latest.antt =====
-- _prior_duplicate finds the latest record of the same request in the window.
use mcp_guard.Base.{
  String, ℕ, ◌≤◌, ◌≡◌, true, Option, none, some, List, Any, All, ◌<◌, refl, sym, ◌∙◌, inl, inr,
  Bool, false, ◌&&◌, [], ◌∷◌, arith, ltb, leb, Bool-cases, All-map, ◌-◌, ◌*◌, any, Any-pass,
  Any-All, Any-map, Any-take,
}
use mcp_guard.Journal.{timestamp, Calendar, Stamp}
use mcp_guard.Journal.Duplicates.{
  concerns, add_match, matches_of, latest, latest_match, earliest_time, prior_duplicate,
}
use mcp_guard.Json.{get, Fields, Value}
use mcp_guard.Result.{ok, >>=-eq-ok, ok-injective, raise_if-eq-ok}
use native.Mathlib.Nat.{le_refl, le_trans}
use mathlib.Core.Path.{subst}
use mcp_guard.Matching.{starts}

ltb-lt : (a b : ℕ) → ltb a b ≡ true → a < b
ltb-lt a b h = ground arith

not-ltb-le : (a b : ℕ) → ltb a b ≡ false → b ≤ a
not-ltb-le a b h = ground arith

-- A value of a list that is as late as every other.
record IsLatest (m : ℕ × Fields) (ms : List (ℕ × Fields)) (l : ℕ × Fields) : Type 0 where
  listed : Any (λ x. x ≡ l) (m ∷ ms)
  first_le : m.0 ≤ l.0
  rest_le : All (λ x. x.0 ≤ l.0) ms

latest-IsLatest : (m : ℕ × Fields) (ms : List (ℕ × Fields)) → IsLatest m ms (latest m ms)
unfolding latest
latest-IsLatest m [] = record { listed = inl refl; first_le = le_refl m.0; rest_le = tt }
latest-IsLatest m (x ∷ xs) = elim (Bool-cases (ltb m.0 x.0)) [
  | inl later ↦
      let step : latest x xs ≡ latest m (x ∷ xs) = rw later in
      let ih = latest-IsLatest x xs in
      let more : IsLatest m (x ∷ xs) (latest x xs) = record {
        listed = inr ih.listed;
        first_le = omega (arith, ih.first_le, ltb-lt m.0 x.0 later);
        rest_le = (ih.first_le, ih.rest_le);
      } in
      subst (IsLatest m (x ∷ xs)) step more
  | inr not_later ↦
      let step : latest m xs ≡ latest m (x ∷ xs) = rw not_later in
      let ih = latest-IsLatest m xs in
      let more : IsLatest m (x ∷ xs) (latest m xs) = record {
        listed = Any-pass _ m x xs ih.listed;
        first_le = ih.first_le;
        rest_le = (omega (arith, ih.first_le, not-ltb-le m.0 x.0 not_later), ih.rest_le);
      } in
      subst (IsLatest m (x ∷ xs)) step more
]

-- The entry was recorded between the two times, for the request.
pub record IsMatch (cal : Calendar) (request_id : String) (fingerprint : Option Value)
    (earliest at : ℕ) (entry : Fields) : Type 0 where
  pub stamp : Stamp
  pub stamps : timestamp cal (get "recorded_at" entry) ≡ ok stamp
  pub after : earliest ≤ stamp.parsed
  pub before : stamp.parsed ≤ at
  pub same : concerns request_id fingerprint entry ≡ true

-- The entry was recorded at a time up to the bound.
pub record RecordedBy (cal : Calendar) (bound : ℕ) (entry : Fields) : Type 0 where
  pub stamp : Stamp
  pub stamps : timestamp cal (get "recorded_at" entry) ≡ ok stamp
  pub early : stamp.parsed ≤ bound

module _ (cal : Calendar) (request_id : String) (fingerprint : Option Value) (earliest at : ℕ) where
  -- A match that is as late as every other, or none where there is none.
  unfoldable pub Prior : List Fields → Option Fields → Type 0
  Prior records none = All (λ e. ¬ IsMatch cal request_id fingerprint earliest at e) records
  Prior records (some prior) =
      Any (λ e. (e ≡ prior) × IsMatch cal request_id fingerprint earliest at e) records
      × ((stamp : Stamp) × (timestamp cal (get "recorded_at" prior) ≡ ok stamp)
          × All
              (λ e.
                IsMatch cal request_id fingerprint earliest at e → RecordedBy cal stamp.parsed e)
              records)

  -- The match was made of a record at this time.
  abbrev pub MatchAt : ℕ → Fields → Type 0
  MatchAt time e = (i : IsMatch cal request_id fingerprint earliest at e) × (i.stamp.parsed ≡ time)

  abbrev pub MadeOf : List Fields → ℕ × Fields → Type 0
  MadeOf records m = Any (λ e. (e ≡ m.1) × MatchAt m.0 e) records

  -- The entry is among the matches, at its time.
  abbrev pub IsFound : List (ℕ × Fields) → Fields → Type 0
  IsFound found e =
      IsMatch cal request_id fingerprint earliest at e → Any (λ m. RecordedBy cal m.0 e) found

  add_match-MadeOf :
      (test : Bool) (e : Fields) (es : List Fields) (stamp : Stamp) (found : List (ℕ × Fields))
      → timestamp cal (get "recorded_at" e) ≡ ok stamp
      → test
        ≡ ((leb earliest stamp.parsed && leb stamp.parsed at) && concerns request_id fingerprint e)
      → All (MadeOf es) found
      → All (MadeOf (e ∷ es)) (add_match test stamp.parsed e found)
  unfolding add_match
  add_match-MadeOf true e es stamp found stamps tested made =
      let matched : IsMatch cal request_id fingerprint earliest at e = record {
        stamp = stamp;
        stamps = stamps;
        after = ground arith;
        before = ground arith;
        same = ground arith;
      } in
      (inl (refl, (matched, refl)), All-map (λ m h. inr h) found made)
  add_match-MadeOf false e es stamp found stamps tested made = All-map (λ m h. inr h) found made

  add_match-IsFound :
      (test : Bool) (e : Fields) (stamp : Stamp) (found : List (ℕ × Fields))
      → timestamp cal (get "recorded_at" e) ≡ ok stamp
      → test
        ≡ ((leb earliest stamp.parsed && leb stamp.parsed at) && concerns request_id fingerprint e)
      → IsFound (add_match test stamp.parsed e found) e
  unfolding add_match
  add_match-IsFound true e stamp found stamps tested i =
      inl (record { stamp = stamp; stamps = stamps; early = le_refl stamp.parsed })
  add_match-IsFound false e stamp found stamps tested i =
      let same : i.stamp ≡ stamp = ok-injective (sym i.stamps ∙ stamps) in
      absurd (ground (arith, i.after, i.before, i.same, same))

  add_match_keeps :
      (test : Bool) (e : Fields) (time : ℕ) (found : List (ℕ × Fields)) (d : Fields)
      → IsFound found d
      → IsFound (add_match test time e found) d
  unfolding add_match
  add_match_keeps true e time found d h i = inr (h i)
  add_match_keeps false e time found d h i = h i

  pub matches_of_lem :
      (records : List Fields) {found : List (ℕ × Fields)}
      → matches_of cal request_id fingerprint earliest at records ≡ ok found
      → All (MadeOf records) found × All (IsFound found) records
  unfolding matches_of
  matches_of_lem [] {found} h = let same : found ≡ [] = sym (ok-injective h) in rw same (tt, tt)
  matches_of_lem (e ∷ es) {found} h =
      let (stamp, stamps, h1) = >>=-eq-ok (timestamp cal (get "recorded_at" e)) _ h in
      let (rest, rest_ok, h2) =
        >>=-eq-ok (matches_of cal request_id fingerprint earliest at es) _ h1 in
      let test : Bool =
        (leb earliest stamp.parsed && leb stamp.parsed at) && concerns request_id fingerprint e in
      let same : add_match test stamp.parsed e rest ≡ found = ok-injective h2 in
      let (made, all_found) = matches_of_lem es rest_ok in
      let parts : All (MadeOf (e ∷ es)) (add_match test stamp.parsed e rest)
          × All (IsFound (add_match test stamp.parsed e rest)) (e ∷ es) =
        (
          add_match-MadeOf test e es stamp rest stamps refl made,
          (
            add_match-IsFound test e stamp rest stamps refl,
            All-map (add_match_keeps test e stamp.parsed rest) es all_found,
          ),
        ) in
      subst (λ f. All (MadeOf (e ∷ es)) f × All (IsFound f) (e ∷ es)) same parts

  -- What is found among matches up to a bound was recorded by the bound.
  found_early :
      (bound : ℕ) (found : List (ℕ × Fields)) (e : Fields)
      → All (λ m. m.0 ≤ bound) found
      → Any (λ m. RecordedBy cal m.0 e) found
      → RecordedBy cal bound e
  found_early bound [] e small any = elim any [ ]
  found_early bound (m ∷ ms) e small (inl r) = record {
    stamp = r.stamp;
    stamps = r.stamps;
    early = le_trans r.early small.0;
  }
  found_early bound (m ∷ ms) e small (inr any) = found_early bound ms e small.1 any

  -- The record of the best match, given that every match is found up to its time.
  Prior-some :
      (records : List Fields) (time : ℕ) (prior : Fields)
      → MadeOf records (time, prior)
      → All (λ e. IsMatch cal request_id fingerprint earliest at e → RecordedBy cal time e) records
      → Prior records (some prior)
  unfolding Prior
  Prior-some records time prior best early =
      let (i, timed) =
        Any-take _ records (λ e (h : (e ≡ prior) × MatchAt time e). subst (MatchAt time) h.0 h.1)
          best in
      (
        Any-map _ _ records (λ e (h : (e ≡ prior) × MatchAt time e). (h.0, h.1.0)) best,
        (
          i.stamp,
          i.stamps,
          subst
              (λ t.
                All (λ d. IsMatch cal request_id fingerprint earliest at d → RecordedBy cal t d)
                  records)
              (sym timed) early,
        ),
      )

  latest_match-Prior :
      (records : List Fields) (found : List (ℕ × Fields))
      → All (MadeOf records) found
      → All (IsFound found) records
      → Prior records (latest_match found)
  unfolding latest_match Prior
  latest_match-Prior records [] made all_found = All-map (λ e h. h) records all_found
  latest_match-Prior records (m ∷ ms) made all_found =
      let l = latest-IsLatest m ms in
      let best : MadeOf records (latest m ms) =
        Any-take _ (m ∷ ms)
          (λ x (h : (x ≡ latest m ms) × MadeOf records x). subst (MadeOf records) h.0 h.1)
          (Any-All _ (MadeOf records) _ (m ∷ ms) (λ x p q. (p, q)) l.listed made) in
      Prior-some records (latest m ms).0 (latest m ms).1 best (
        All-map (λ e f i. found_early (latest m ms).0 (m ∷ ms) e (l.first_le, l.rest_le) (f i))
          records all_found)

-- A search that returns has looked from `window` seconds before the time up to the time. It gives a
-- record of the same request there that is as late as every other, or none where there is none.
pub prior_duplicate-Prior :
    (cal : Calendar) (records : List Fields) (request_id : String) (at window : ℕ)
    (fingerprint : Option Value) {prior : Option Fields}
    → prior_duplicate cal records request_id at window fingerprint ≡ ok prior
    → (window * 1000000 ≤ at)
      × Prior cal request_id fingerprint (at - window * 1000000) at records prior
unfolding prior_duplicate earliest_time
prior_duplicate-Prior cal records request_id at window fingerprint {prior} h =
    let (earliest, starts, h1) = >>=-eq-ok (earliest_time at window) _ h in
    let (reaches, starts1) = raise_if-eq-ok _ _ _ starts in
    let from : at - window * 1000000 ≡ earliest = ok-injective starts1 in
    let (found, found_ok, h2) =
      >>=-eq-ok (matches_of cal request_id fingerprint earliest at records) _ h1 in
    let (made, all_found) =
      matches_of_lem cal request_id fingerprint earliest at records found_ok in
    let same : latest_match found ≡ prior = ok-injective h2 in
    (
      not-ltb-le at (window * 1000000) reaches,
      subst (λ t. Prior cal request_id fingerprint t at records prior) (sym from)
          (subst (Prior cal request_id fingerprint earliest at records) same (
            latest_match-Prior cal request_id fingerprint earliest at records found made
              all_found)),
    )
