-- ===== src/Record/Completion.antt =====
-- Threads that add records at once can always finish (dbt_common/record.py).
use Prim.Native.Nat.{ℕ, zero, suc, ◌<◌}
use Prim.Native.String.{String}
use dbt_common.Common.{
  Bool, true, false, some, List, [], ◌∷◌, ◌++◌, ◌≡◌, refl, sym, ap, ◌∙◌, All, Bool-cases, inl, inr,
  arith, ◌⊎◌,
}
use dbt_common.Record.Recorder.{Record, Dumped, written, broken, Library, tagged_dict}
use dbt_common.Record.Threads.{
  Phase, starting, counting, counted, numbered, writing, dumping, closing, finished, Thread, Shared,
  Step, lock_counter, read_counter, increment, lock_file, write_comma, dump, dump_error,
  unlock_file, opened, at, Reach, here, next,
}
use dbt_common.Record.Tally.{bit, total, total-between, has_counter, has_file, IsOrderly}
use dbt_common.Record.Orderly.{Step-IsOrderly}
use dbt_common.Record.Interleaved.{opened-Reach-IsOrderly}

-- The steps that a thread still has to make.
abbrev steps_left : Phase → ℕ
steps_left starting = 7
steps_left counting = 6
steps_left counted = 5
steps_left numbered = 4
steps_left writing = 3
steps_left dumping = 2
steps_left closing = 1
steps_left finished = 0

-- Whether a thread holds a lock, and whether it is not finished.
abbrev holds_lock : Phase → Bool
holds_lock counting = true
holds_lock counted = true
holds_lock writing = true
holds_lock dumping = true
holds_lock closing = true
holds_lock _ = false

abbrev is_unfinished : Phase → Bool
is_unfinished finished = false
is_unfinished _ = true

module _ {P R : Type 0} where
  -- A thread in a phase that passes the test, or else no thread is in one.
  abbrev Somewhere : (Phase → Bool) → List (Thread P R) → Type 0
  Somewhere test ts =
      (before after : List (Thread P R)) × (t : Thread P R) × (ts ≡ before ++ t ∷ after)
      × (test t.phase ≡ true)

  find :
      (test : Phase → Bool) (ts : List (Thread P R))
      → Somewhere test ts ⊎ All (λ t. test t.phase ≡ false) ts
  find test [] = inr tt
  find test (t ∷ ts) = elim (Bool-cases (test t.phase)) [
    | inl passes ↦ inl ([], ts, t, refl, passes)
    | inr fails ↦ elim (find test ts) [
      | inl (before, after, u, e, passes) ↦ inl (t ∷ before, after, u, ap (λ l. t ∷ l) e, passes)
      | inr a ↦ inr (fails, a)
    ]
  ]

  total-none :
      (f : Phase → ℕ)
      → ((p : Phase) → holds_lock p ≡ false → f p ≡ 0)
      → (ts : List (Thread P R)) → All (λ t. holds_lock t.phase ≡ false) ts
      → total (λ t. f t.phase) ts ≡ 0
  total-none f h [] a = refl
  total-none f h (t ∷ ts) (e, a) = omega (arith, h t.phase e, total-none f h ts a)

  at_the_end :
      (ts : List (Thread P R))
      → All (λ t. is_unfinished t.phase ≡ false) ts
      → All (λ t. t.phase ≡ finished) ts
  at_the_end [] a = tt
  at_the_end (t ∷ ts) (e, a) = (the_end t.phase e, at_the_end ts a)
    where
      the_end : (p : Phase) → is_unfinished p ≡ false → p ≡ finished
      the_end finished q = refl
      the_end _ q = cc q

abbrev pub left : {P R : Type 0} → Thread P R → ℕ
left t = steps_left t.phase

no_counter : (p : Phase) → holds_lock p ≡ false → has_counter p ≡ 0
no_counter counting e = cc e
no_counter counted e = cc e
no_counter _ e = refl

no_file : (p : Phase) → holds_lock p ≡ false → has_file p ≡ 0
no_file writing e = cc e
no_file dumping e = cc e
no_file closing e = cc e
no_file _ e = refl

unlocked : (b : Bool) → bit b ≡ 0 → b ≡ false
unlocked true e = absurd (omega (arith, e))
unlocked false e = refl

module _ {P R D : Type 0} (lib : Library P R D) where
  -- A step that leaves fewer steps to make.
  abbrev Proceeds : Shared P R → Type 0
  Proceeds s = (s' : Shared P R) × Step lib s s' × (total left s'.threads < total left s.threads)

  fewer :
      (s : Shared P R) (before after : List (Thread P R)) (t u : Thread P R)
      → s.threads ≡ before ++ t ∷ after
      → suc (left u) ≡ left t
      → total left (before ++ u ∷ after) < total left s.threads
  fewer s before after t u e h = omega (
    arith,
    h,
    ap (total left) e,
    total-between left before t after,
    total-between left before u after,
  )

  dumps :
      (d : Dumped)
      → ((text : String) × (d ≡ written text)) ⊎ ((text error : String) × (d ≡ broken text error))
  dumps (written text) = inl (text, refl)
  dumps (broken text error) = inr (text, error, refl)

  with_lock :
      (s : Shared P R) (before after : List (Thread P R)) (p : Phase) (r : Record P R)
      → holds_lock p ≡ true
      → s.threads ≡ before ++ at p r ∷ after
      → Proceeds s
  with_lock s before after counting r h e =
      let u : Thread P R = at counted (record r { seq = some s.counter }) in
      (_, read_counter before after r e, fewer s before after (at counting r) u e refl)
  with_lock s before after counted r h e =
      (_, increment before after r e, fewer s before after (at counted r) (at numbered r) e refl)
  with_lock s before after writing r h e =
      (_, write_comma before after r e, fewer s before after (at writing r) (at dumping r) e refl)
  with_lock s before after dumping r h e =
      elim (dumps (lib.json_dump (tagged_dict lib r.class_name r))) [
        | inl (text, w) ↦ (
          _,
          dump before after r text e w,
          fewer s before after (at dumping r) (at closing r) e refl,
        )
        | inr (text, error, w) ↦ (
          _,
          dump_error before after r text error e w,
          fewer s before after (at dumping r) (at closing r) e refl,
        )
      ]
  with_lock s before after closing r h e =
      (_, unlock_file before after r e, fewer s before after (at closing r) (at finished r) e refl)
  with_lock s before after starting r h e = cc h
  with_lock s before after numbered r h e = cc h
  with_lock s before after finished r h e = cc h

  without_lock :
      (s : Shared P R) (before after : List (Thread P R)) (p : Phase) (r : Record P R)
      → s.counter_locked ≡ false
      → s.file_locked ≡ false
      → holds_lock p ≡ false
      → is_unfinished p ≡ true
      → s.threads ≡ before ++ at p r ∷ after
      → Proceeds s
  without_lock s before after starting r c f h u e = (
    _,
    lock_counter before after r e c,
    fewer s before after (at starting r) (at counting r) e refl,
  )
  without_lock s before after numbered r c f h u e =
      (_, lock_file before after r e f, fewer s before after (at numbered r) (at writing r) e refl)
  without_lock s before after finished r c f h u e = cc u
  without_lock s before after _ r c f h u e = cc h

  proceeds :
      (s : Shared P R) → IsOrderly lib s → All (λ t. t.phase ≡ finished) s.threads ⊎ Proceeds s
  proceeds s o = elim (find holds_lock s.threads) [
    | inl (before, after, t, e, h) ↦ inr (with_lock s before after t.phase t.adds h e)
    | inr free ↦ elim (find is_unfinished s.threads) [
      | inl (before, after, t, e, u) ↦
          let c : bit s.counter_locked ≡ 0 =
            sym o.counter ∙ total-none has_counter no_counter s.threads free in
          let f : bit s.file_locked ≡ 0 = sym o.file ∙ total-none has_file no_file s.threads free in
          elim (Bool-cases (holds_lock t.phase)) [
            | inl h ↦ inr (with_lock s before after t.phase t.adds h e)
            | inr h ↦
                inr (without_lock s before after t.phase t.adds (unlocked _ c) (unlocked _ f) h u e)
          ]
      | inr a ↦ inl (at_the_end s.threads a)
    ]
  ]

  behind_step : {s t u : Shared P R} → Step lib s t → Reach lib t u → Reach lib s u
  behind_step step here = next here step
  behind_step step (next r last) = next (behind_step step r) last

  -- The threads can go on until all of them are finished.
  abbrev pub CanFinish : Shared P R → Type 0
  CanFinish s = (u : Shared P R) × Reach lib s u × All (λ t. t.phase ≡ finished) u.threads

  finishes : (n : ℕ) (s : Shared P R) → total left s.threads < n → IsOrderly lib s → CanFinish s
  finishes zero s l o = absurd (omega (arith, l))
  finishes (suc n) s l o = elim (proceeds s o) [
    | inl a ↦ (s, here, a)
    | inr (s', step, less) ↦
        let (u, r, a) = finishes n s' (omega (arith, l, less)) (Step-IsOrderly lib step o) in
        (u, behind_step step r, a)
  ]

  -- From every state that threads can reach, which add records to a new streaming recorder at once, they can go on until all of them are finished: its two locks never leave them stuck, and neither does an exception that `json.dump` raises for a record, with the file locked.
  pub Reach-CanFinish :
      (records : List (Record P R)) (s : Shared P R) → Reach lib (opened records) s → CanFinish s
  Reach-CanFinish records s r =
      finishes (suc (total left s.threads)) s (omega arith) (opened-Reach-IsOrderly lib records r)
