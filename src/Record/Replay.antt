-- ===== src/Record/Replay.antt =====
-- dbt_common/record.py: the results that a replay gives to the calls of a recorded function.
use dbt_common.Common.{
  ◌≤◌, String, true, Option, none, some, List, [], ◌∷◌, map, length, take, drop, keep, All,
  if◌then◌else◌, Bool-cases, ◌≡◌, refl, sym, ap, ◌∙◌, inl, inr, arith,
}
use dbt_common.Common.Dict.{lookup, insert, lookup-insert, has}
use dbt_common.Common.Outcome.{Outcome, ok, raise, ◌>>=◌}
use text.Mathlib.TextPositions.{eq_refl}
use dbt_common.Record.Recorder.{
  Record, Library, Recorder, RecorderFault, take_matching, ensure_records_processed,
  pop_matching_record, expect_record, no_record,
}

module _ {P R D : Type 0} (lib : Library P R D) where
  -- Equal parameters have the same equal parameters, as Python's `==` of data classes.
  pub record IsEquality : Type 0 where
    pub own : (p : P) → lib.same p p ≡ true
    pub left : {p q : P} (r : P) → lib.same p q ≡ true → lib.same p r ≡ lib.same q r
    pub right : {p q : P} (r : P) → lib.same p q ≡ true → lib.same r p ≡ lib.same r q

  -- The records of some parameters, the calls with them, and the results given to these calls.
  abbrev pub matching : P → List (Record P R) → List (Record P R)
  matching p recs = keep (λ rec. lib.same rec.params p) recs

  abbrev pub calls_with : P → List P → List P
  calls_with p calls = keep (λ q. lib.same q p) calls

  abbrev pub given_to : P → List (P × Option R) → List (Option R)
  given_to p [] = []
  given_to p ((q, r) ∷ out) = if lib.same q p then r ∷ given_to p out else given_to p out

  -- Calls of recorded functions one after the other, each with its result.
  pub replay : List P → Recorder P R D → Outcome RecorderFault (List (P × Option R))
  unfolding expect_record
  replay [] s = ok []
  replay (p ∷ ps) s = expect_record lib p s >>= λ (r, s'). replay ps s' >>= λ out. ok ((p, r) ∷ out)

  -- The class of parameters c is registered, and these are its records.
  pub record Holds (c : String) (name : String) (recs : List (Record P R)) (s : Recorder P R D)
      : Type 0 where
    pub registered : lookup c s.record_name_by_params_name ≡ some name
    pub held : lookup name s.records_by_type ≡ some recs

  -- The answer of expect_record, by what is found.
  abbrev answered :
      String
      → Option (Record P R) × List (Record P R)
      → Recorder P R D
      → Outcome RecorderFault (Option R × Recorder P R D)
  answered name taken s = elim taken.0 [
    | none ↦ raise no_record
    | some rec ↦
        ok (rec.result, record s { records_by_type = insert name taken.1 s.records_by_type })
  ]

  there :
      (c name : String) (recs : List (Record P R)) (s : Recorder P R D)
      → Holds c name recs s
      → has name s.records_by_type ≡ true
  unfolding has
  there c name recs s h = rw (h.held, has) refl

  expect_record-Holds :
      (c name : String) (recs : List (Record P R)) (s : Recorder P R D) (p : P)
      → lib.class_of p ≡ c
      → Holds c name recs s
      → expect_record lib p s ≡ answered name (take_matching lib.same p recs) s
  unfolding expect_record pop_matching_record ensure_records_processed
  expect_record-Holds c name recs s p k h =
      rw
        (
          expect_record,
          pop_matching_record,
          ensure_records_processed,
          k,
          h.registered,
          there c name recs s h,
          h.held,
        )
        refl

  Holds-insert :
      (c name : String) (recs rest : List (Record P R)) (s : Recorder P R D)
      → Holds c name recs s
      → Holds c name rest (record s { records_by_type = insert name rest s.records_by_type })
  Holds-insert c name recs rest s h = record {
    registered = h.registered;
    held = rw (lookup-insert name name rest s.records_by_type, eq_refl name) refl;
  }

  matching-same :
      IsEquality
      → {p q : P} → lib.same p q ≡ true
      → (recs : List (Record P R)) → matching p recs ≡ matching q recs
  matching-same e k [] = refl
  matching-same e k (rec ∷ recs) = rw (e.right rec.params k, matching-same e k recs) refl

  -- What is taken for p is the first record of p, and only it is gone.
  take_matching-some :
      IsEquality
      → (p : P) (recs : List (Record P R)) (rec : Record P R) (m : List (Record P R))
      → matching p recs ≡ rec ∷ m
      → (rest : List (Record P R)) × (take_matching lib.same p recs ≡ (some rec, rest))
        × ((q : P)
            → matching q rest
              ≡ (if lib.same p q then drop 1 (matching q recs) else matching q recs))
  take_matching-some e p [] rec m h = cc
  take_matching-some e p (r ∷ recs) rec m h = elim (Bool-cases (lib.same r.params p)) [
    | inl equal ↦
        let h' : r ∷ matching p recs ≡ rec ∷ m = rw equal at h in
        let first : r ≡ rec = cc in
        (
          recs,
          rw (equal, first) refl,
          λ q. rw (e.left q equal) (elim (Bool-cases (lib.same p q)) [
            | inl both ↦ rw both refl
            | inr apart ↦ rw apart refl
          ]),
        )
    | inr other ↦
        let (rest, found, f) = take_matching-some e p recs rec m (rw other at h) in
        (
          r ∷ rest,
          rw (other, found) refl,
          λ q. elim (Bool-cases (lib.same p q)) [
            | inl both ↦ rw (both, ← e.right r.params both, other) (rw both at (f q))
            | inr apart ↦
                rw apart (ap (λ t. if lib.same r.params q then r ∷ t else t) (rw apart at (f q)))
          ],
        )
  ]

  -- A call with parameters that have a record left is answered by the first one.
  answer-first :
      (c name : String) (recs : List (Record P R)) (s : Recorder P R D) (p : P) (rec : Record P R)
      (rest : List (Record P R))
      → lib.class_of p ≡ c
      → Holds c name recs s
      → take_matching lib.same p recs ≡ (some rec, rest)
      → expect_record lib p s
        ≡ ok (rec.result, record s { records_by_type = insert name rest s.records_by_type })
  answer-first c name recs s p rec rest k h found =
      expect_record-Holds c name recs s p k h ∙ rw found refl

  -- A list that is not empty.
  first_of : {A : Type 0} (xs : List A) → 1 ≤ length xs → (x : A) × (m : List A) × (xs ≡ x ∷ m)
  first_of [] h = absurd (omega arith)
  first_of (x ∷ xs) h = (x, xs, refl)

  -- Where the records of one class of parameters are loaded, and all calls have parameters of that class, of each at most as many as were recorded, a replay answers every call, and the calls with some parameters get the results that were recorded for them, in their order, whatever calls with other parameters of the class come in between. The comparison of parameters is an equality.
  pub replay-in_order :
      IsEquality
      → (c name : String) (calls : List P) (recs : List (Record P R)) (s : Recorder P R D)
      → All (λ p. lib.class_of p ≡ c) calls
      → Holds c name recs s
      → ((q : P) → length (calls_with q calls) ≤ length (matching q recs))
      → (out : List (P × Option R)) × (replay calls s ≡ ok out)
        × ((q : P)
            → given_to q out
              ≡ take (length (calls_with q calls)) (map (λ rec. rec.result) (matching q recs)))
  unfolding replay
  replay-in_order e c name [] recs s a h n = ([], refl, λ q. refl)
  replay-in_order e c name (p ∷ ps) recs s (k, a) h n =
      let (rec, m, eq) = first_of (matching p recs) (omega (arith, rw (e.own p) at (n p))) in
      let (rest, found, f) = take_matching-some e p recs rec m eq in
      let s' : Recorder P R D = record s { records_by_type = insert name rest s.records_by_type } in
      let seen : (q : P) → lib.same p q ≡ true → matching q recs ≡ rec ∷ m =
        λ q both. sym (matching-same e both recs) ∙ eq in
      let (out, answers, order) =
        replay-in_order e c name ps rest s' a (Holds-insert c name recs rest s h) (λ q.
          elim (Bool-cases (lib.same p q)) [
            | inl both ↦
                rw (f q, both, seen q both) (omega (arith, rw (both, seen q both) at (n q)))
            | inr apart ↦ rw (f q, apart) (rw apart at (n q))
          ]) in
      (
        (p, rec.result) ∷ out,
        rw (answer-first c name recs s p rec rest k h found, answers) refl,
        λ q. elim (Bool-cases (lib.same p q)) [
          | inl both ↦
              rw (both, seen q both)
                (ap (λ t. rec.result ∷ t) (rw (f q, both, seen q both) at (order q)))
          | inr apart ↦ rw apart (rw (f q, apart) at (order q))
        ],
      )
