-- ===== src/Record/Interleaved.antt =====
-- What is recorded when threads add records at once (dbt_common/record.py).
use Prim.Native.Nat.{ℕ, ◌+◌}
use mathlib.Core.List.{append-nil}
use dbt_common.Common.{false, List, [], ◌∷◌, ◌++◌, ◌≡◌, refl, sym, ap, ◌∙◌, ltb, All, arith}
use dbt_common.Record.Recorder.{Record, Library}
use dbt_common.Record.Threads.{
  Phase, starting, finished, Thread, Shared, all_starting, opened, at, Reach, here, next,
}
use dbt_common.Record.Tally.{
  IsOrderly, as_number, bit, counter_at, dumping_at, file_at, has_read, is_dumping, numbered_as,
  occurrences, pending, read_at, contents, Entry, entry_eq, entry_of, total, written_as,
}
use dbt_common.Record.Orderly.{Step-IsOrderly}

module _ {P R D : Type 0} (lib : Library P R D) where
  no_thread :
      (f : Thread P R → ℕ)
      → ((r : Record P R) → f (at starting r) ≡ 0)
      → (records : List (Record P R)) → total f (all_starting records) ≡ 0
  no_thread f h [] = refl
  no_thread f h (r ∷ rs) = omega (arith, h r, no_thread f h rs)

  opened-IsOrderly : (records : List (Record P R)) → IsOrderly lib (opened records)
  opened-IsOrderly records = record {
    counter = no_thread counter_at (λ r. refl) records;
    file = no_thread file_at (λ r. refl) records;
    numbers = λ k.
        let none_read : total read_at (all_starting records) ≡ 0 =
          no_thread read_at (λ r. refl) records in
        rw (none_read, no_thread (numbered_as k) (λ r. refl) records) (none_below k);
    entries = record {
      entries = [];
      added = refl;
      file =
          let none_dumps : total dumping_at (all_starting records) ≡ 0 =
            no_thread dumping_at (λ r. refl) records in
          rw none_dumps refl;
      in_file = λ text. sym (no_thread (written_as lib text) (λ r. refl) records);
    };
  }
    where
      none_below : (k : ℕ) → 0 ≡ bit (ltb k (0 + 0))
      none_below k = ground arith

  Reach-IsOrderly : {s t : Shared P R} → Reach lib s t → IsOrderly lib s → IsOrderly lib t
  Reach-IsOrderly here o = o
  Reach-IsOrderly (next r step) o = Step-IsOrderly lib step (Reach-IsOrderly r o)

  pub opened-Reach-IsOrderly :
      (records : List (Record P R)) {t : Shared P R}
      → Reach lib (opened records) t
      → IsOrderly lib t
  opened-Reach-IsOrderly records r = Reach-IsOrderly r (opened-IsOrderly records)

  total-All :
      (f g : Thread P R → ℕ) (p : Phase)
      → ((t : Thread P R) → t.phase ≡ p → f t ≡ g t)
      → (ts : List (Thread P R)) → All (λ t. t.phase ≡ p) ts
      → total f ts ≡ total g ts
  total-All f g p h [] a = refl
  total-All f g p h (t ∷ ts) (e, a) = omega (arith, h t e, total-All f g p h ts a)

  total-zero : (ts : List (Thread P R)) → total (λ t. 0) ts ≡ 0
  total-zero [] = refl
  total-zero (t ∷ ts) = omega (arith, total-zero ts)

  finished-total :
      (f : Phase → ℕ)
      → f finished ≡ 0
      → (ts : List (Thread P R)) → All (λ t. t.phase ≡ finished) ts
      → total (λ t. f t.phase) ts ≡ 0
  finished-total f h ts a =
      total-All (λ t. f t.phase) (λ t. 0) finished (λ t e. ap f e ∙ h) ts a ∙ total-zero ts

  -- A complete recording of some threads: the entries of their records, each as often as threads wrote it, behind a comma if a record before it was kept, and each number below the counter in one record.
  abbrev pub IsRecorded : Shared P R → Type 0
  IsRecorded s =
      (entries : List Entry) × (s.recording_file ≡ "[" ∷ contents false entries)
      × ((e : Entry)
          → occurrences e entries ≡ total (λ t. bit (entry_eq (entry_of lib t.adds) e)) s.threads)
      × ((k : ℕ) → total (λ t. as_number k t.adds.seq) s.threads ≡ bit (ltb k s.counter))

  IsOrderly-IsRecorded :
      (s : Shared P R) → All (λ t. t.phase ≡ finished) s.threads → IsOrderly lib s → IsRecorded s
  IsOrderly-IsRecorded s a o =
      let ts : List Entry = o.entries.entries in
      let d : total dumping_at s.threads ≡ 0 = finished-total is_dumping refl s.threads a in
      let c : total read_at s.threads ≡ 0 = finished-total has_read refl s.threads a in
      let sum : s.counter + total read_at s.threads ≡ s.counter = omega (arith, c) in
      (
        ts,
        o.entries.file
            ∙ ap (λ n. "[" ∷ (contents false ts ++ pending n s.record_added)) d
            ∙ ap (λ l. "[" ∷ l) (append-nil (contents false ts)),
        λ text.
            o.entries.in_file text
            ∙ total-All (written_as lib text) (λ t. bit (entry_eq (entry_of lib t.adds) text))
                finished (λ t e. rw e refl) s.threads a,
        λ k.
            total-All (λ t. as_number k t.adds.seq) (numbered_as k) finished (λ t e. rw e refl)
              s.threads a
            ∙ o.numbers k
            ∙ ap (λ n. bit (ltb k n)) sum,
      )

  -- When threads have added records to a new streaming recorder, in whatever interleaving, with its two locks, and all of them are finished, the file has one entry for each of their records, which is its text or, where `json.dump` raised, what it wrote up to there and the text of the error, each behind a comma if a record before it was written without an exception; and each number below the counter is the number of exactly one record, and no other number of any.
  pub Reach-IsRecorded :
      (records : List (Record P R)) (s : Shared P R)
      → Reach lib (opened records) s
      → All (λ t. t.phase ≡ finished) s.threads
      → IsRecorded s
  Reach-IsRecorded records s r a = IsOrderly-IsRecorded s a (opened-Reach-IsOrderly records r)
