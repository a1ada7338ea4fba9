-- ===== src/Record/Newest.antt =====
-- dbt_common/record.py: where the newest record stands among the records of a recording.
use dbt_common.Common.{
  ℕ, ◌+◌, ◌<◌, String, true, false, some, List, [], ◌∷◌, ◌++◌, map, any, All, Bool-cases, ◌≡◌, refl,
  sym, ap, ◌∙◌, inl, inr, arith, eq_iff,
}
use text.Mathlib.Text.{◌==◌}
use mathlib.Core.List.{append_assoc}
use dbt_common.Common.Dict.{Dict, lookup, insert}
use dbt_common.Record.Recorder.{
  Record, TaggedDict, Library, or_empty, seq_before, put_by_seq, sort_by_seq, lacks_seq,
  tagged_dict, tagged_records,
}

module _ {D : Type 0} where
  -- A dictionary with a sequence number below a bound.
  abbrev pub Below : ℕ → TaggedDict D → Type 0
  Below n t = (k : ℕ) × (t.seq ≡ some k) × (k < n)

  Below-before :
      (n : ℕ) (t x : TaggedDict D) → x.seq ≡ some n → Below n t → seq_before t.seq x.seq ≡ true
  Below-before n t x e (k, h, l) = rw (h, e) (grind arith)

  Below-after :
      (n : ℕ) (t x : TaggedDict D) → x.seq ≡ some n → Below n t → seq_before x.seq t.seq ≡ false
  Below-after n t x e (k, h, l) = rw (h, e) (grind arith)

  pub Below-later : (n : ℕ) (ts : List (TaggedDict D)) → All (Below n) ts → All (Below (n + 1)) ts
  Below-later n [] a = tt
  Below-later n (t ∷ ts) ((k, h, l), a) = ((k, h, omega arith), Below-later n ts a)

  pub All-between :
      (n : ℕ) (ts : List (TaggedDict D)) (x : TaggedDict D) (us : List (TaggedDict D))
      → Below n x
      → All (Below n) (ts ++ us)
      → All (Below n) (ts ++ x ∷ us)
  All-between n [] x us b a = (b, a)
  All-between n (t ∷ ts) x us b (c, a) = (c, All-between n ts x us b a)

  All-put :
      (n : ℕ) (x : TaggedDict D) (ts : List (TaggedDict D))
      → Below n x
      → All (Below n) ts
      → All (Below n) (put_by_seq x ts)
  All-put n x [] b a = (b, tt)
  All-put n x (t ∷ ts) b (c, a) = elim (Bool-cases (seq_before t.seq x.seq)) [
    | inl sooner ↦ rw sooner (c, All-put n x ts b a)
    | inr later ↦ rw later (b, (c, a))
  ]

  All-sort : (n : ℕ) (ts : List (TaggedDict D)) → All (Below n) ts → All (Below n) (sort_by_seq ts)
  All-sort n [] a = tt
  All-sort n (t ∷ ts) (b, a) = All-put n t (sort_by_seq ts) b (All-sort n ts a)

  put-newest :
      (n : ℕ) (x : TaggedDict D) (ts : List (TaggedDict D))
      → x.seq ≡ some n
      → All (Below n) ts
      → put_by_seq x ts ≡ ts ++ x ∷ []
  put-newest n x [] e a = refl
  put-newest n x (t ∷ ts) e (b, a) =
      rw (Below-before n t x e b) (ap (λ l. t ∷ l) (put-newest n x ts e a))

  put-before_newest :
      (n : ℕ) (x t : TaggedDict D) (ts : List (TaggedDict D))
      → x.seq ≡ some n
      → Below n t
      → put_by_seq t (ts ++ x ∷ []) ≡ put_by_seq t ts ++ x ∷ []
  put-before_newest n x t [] e b = rw (Below-after n t x e b) refl
  put-before_newest n x t (u ∷ ts) e b = elim (Bool-cases (seq_before u.seq t.seq)) [
    | inl sooner ↦ rw sooner (ap (λ l. u ∷ l) (put-before_newest n x t ts e b))
    | inr later ↦ rw later refl
  ]

  -- The newest dictionary comes last, wherever it stands.
  pub sort-newest :
      (n : ℕ) (ts : List (TaggedDict D)) (x : TaggedDict D) (us : List (TaggedDict D))
      → x.seq ≡ some n
      → All (Below n) (ts ++ us)
      → sort_by_seq (ts ++ x ∷ us) ≡ sort_by_seq (ts ++ us) ++ x ∷ []
  sort-newest n [] x us e a = put-newest n x (sort_by_seq us) e (All-sort n us a)
  sort-newest n (t ∷ ts) x us e (b, a) =
      ap (put_by_seq t) (sort-newest n ts x us e a)
      ∙ put-before_newest n x t (sort_by_seq (ts ++ us)) e b

  pub lacks_seq-Below :
      (n : ℕ) (ts : List (TaggedDict D)) → All (Below n) ts → any lacks_seq ts ≡ false
  lacks_seq-Below n [] a = refl
  lacks_seq-Below n (t ∷ ts) ((k, h, l), a) = rw h (lacks_seq-Below n ts a)

module _ {P R D : Type 0} (lib : Library P R D) where
  map-last :
      (name : String) (rs : List (Record P R)) (r : Record P R) (us : List (TaggedDict D))
      → map (tagged_dict lib name) (rs ++ r ∷ []) ++ us
        ≡ map (tagged_dict lib name) rs ++ tagged_dict lib name r ∷ us
  map-last name [] r us = refl
  map-last name (s ∷ rs) r us = ap (λ l. tagged_dict lib name s ∷ l) (map-last name rs r us)

  -- A record that is added to its type stands between other records.
  pub tagged-insert :
      (name : String) (r : Record P R) (d : Dict (List (Record P R))) (before : List (Record P R))
      → or_empty (lookup name d) ≡ before
      → (ts us : List (TaggedDict D)) × (tagged_records lib d ≡ ts ++ us)
        × (tagged_records lib (insert name (before ++ r ∷ []) d)
            ≡ ts ++ tagged_dict lib name r ∷ us)
  unfolding insert lookup
  tagged-insert name r [] before h = ([], [], refl, rw (← h) refl)
  tagged-insert name r ((j, rs) ∷ d) before h = elim (Bool-cases (j == name)) [
    | inl same ↦
        let e : j ≡ name = (eq_iff j name).0 same in
        let e' : rs ≡ before = rw same at h in
        (
          map (tagged_dict lib j) rs,
          tagged_records lib d,
          refl,
          rw (same, e, e') (map-last name before r (tagged_records lib d)),
        )
    | inr other ↦
        let (ts, us, e, e') = tagged-insert name r d before (rw other at h) in
        (
          map (tagged_dict lib j) rs ++ ts,
          us,
          rw e (sym (append_assoc (map (tagged_dict lib j) rs) ts us)),
          rw (other, e')
              (sym (append_assoc (map (tagged_dict lib j) rs) ts (tagged_dict lib name r ∷ us))),
        )
  ]
