-- ===== src/Record/Orderly.antt =====
-- Every step of a thread keeps the recording orderly (dbt_common/record.py).
use Prim.Native.Nat.{ℕ, suc, ◌+◌, ◌≤◌}
use mathlib.Core.List.{append_assoc, append-nil}
use dbt_common.Common.{
  Bool, true, false, some, List, [], ◌∷◌, ◌++◌, ◌≡◌, refl, sym, ap, ◌∙◌, ◌==◌, ltb, if◌then◌else◌,
  arith,
}
use dbt_common.Record.Recorder.{Record, Library}
use dbt_common.Record.Threads.{
  starting, counting, counted, numbered, writing, dumping, closing, finished, Thread, Shared, Step,
  lock_counter, read_counter, increment, lock_file, write_comma, dump, dump_error, unlock_file, at,
}
use dbt_common.Record.Tally.{
  Entry, kept, lost, piece, then_kept, kept_in, contents, contents-last, kept_in-last, entry_eq,
  entry_of, HasEntries, IsOrderly, bit, comma_if, counter_at, dumping_at, dumping_below, file_at,
  numbered_as, occurrences-last, pending, read_at, read_below, total, written_as,
}
use dbt_common.Record.Others.{
  others, total-now, total-then, unmoved, others-least, same_numbers, same_entries,
}

module _ {P R D : Type 0} (lib : Library P R D) where
  next_number : (c k n : ℕ) → n ≡ bit (ltb k (c + 0)) → bit (c == k) + n ≡ bit (ltb k (c + 1))
  next_number c k n e = ground (arith, e)

  bit_bound : (b : Bool) → bit b ≤ 1
  bit_bound true = omega arith
  bit_bound false = omega arith

  after_read :
      (s : Shared P R) (before after : List (Thread P R)) (r : Record P R)
      → s.threads ≡ before ++ at counting r ∷ after
      → IsOrderly lib s
      → IsOrderly lib
          (record s { threads = before ++ at counted (record r { seq = some s.counter }) ∷ after })
  after_read s before after r e o =
      let t : Thread P R = at counting r in
      let u : Thread P R = at counted (record r { seq = some s.counter }) in
      let alone : others lib s before after t e read_at ≡ 0 = omega (
        arith,
        bit_bound s.counter_locked,
        o.counter,
        total-now lib s before after t e counter_at,
        others-least lib s before after t e read_at counter_at read_below,
      ) in
      let r0 : total read_at s.threads ≡ 0 =
        omega (arith, alone, total-now lib s before after t e read_at) in
      let r1 : total read_at (before ++ u ∷ after) ≡ 1 =
        omega (arith, alone, total-then lib s before after t e read_at u) in
      record {
        counter = unmoved lib s before after t e counter_at u refl ∙ o.counter;
        file = unmoved lib s before after t e file_at u refl ∙ o.file;
        numbers = λ k.
            let n : ℕ = others lib s before after t e (numbered_as k) in
            let now : total (numbered_as k) s.threads ≡ n =
              omega (arith, total-now lib s before after t e (numbered_as k)) in
            rw r1 (
              total-then lib s before after t e (numbered_as k) u
              ∙ next_number s.counter k n
                  (sym now ∙ o.numbers k ∙ ap (λ m. bit (ltb k (s.counter + m))) r0));
        entries = same_entries lib s before after t e _ u refl refl refl refl (λ x. refl) o.entries;
      }

  -- Nobody else is between a comma and its record.
  nobody_dumps :
      (s : Shared P R) (before after : List (Thread P R)) (t : Thread P R)
      (e : s.threads ≡ before ++ t ∷ after)
      → file_at t ≡ 1
      → IsOrderly lib s
      → others lib s before after t e dumping_at ≡ 0
  nobody_dumps s before after t e h o = omega (
    arith,
    h,
    bit_bound s.file_locked,
    o.file,
    total-now lib s before after t e file_at,
    others-least lib s before after t e dumping_at file_at dumping_below,
  )

  after_comma :
      (s : Shared P R) (before after : List (Thread P R)) (r : Record P R)
      → s.threads ≡ before ++ at writing r ∷ after
      → IsOrderly lib s
      → HasEntries lib (record s {
        recording_file = s.recording_file ++ (if s.record_added then "," ∷ [] else []);
        threads = before ++ at dumping r ∷ after;
      })
  after_comma s before after r e o =
      let t : Thread P R = at writing r in
      let u : Thread P R = at dumping r in
      let ts : List Entry = o.entries.entries in
      let alone : others lib s before after t e dumping_at ≡ 0 =
        nobody_dumps s before after t e refl o in
      let d0 : total dumping_at s.threads ≡ 0 =
        omega (arith, alone, total-now lib s before after t e dumping_at) in
      let d1 : total dumping_at (before ++ u ∷ after) ≡ 1 =
        omega (arith, alone, total-then lib s before after t e dumping_at u) in
      record {
        entries = ts;
        added = o.entries.added;
        file =
            ap (λ l. l ++ comma_if s.record_added)
              (o.entries.file
                ∙ ap (λ n. "[" ∷ (contents false ts ++ pending n s.record_added)) d0
                ∙ ap (λ l. "[" ∷ l) (append-nil (contents false ts)))
            ∙ ap (λ n. "[" ∷ (contents false ts ++ pending n s.record_added)) (sym d1);
        in_file = λ text.
            o.entries.in_file text
            ∙ sym (unmoved lib s before after t e (written_as lib text) u refl);
      }

  after_dump :
      (s : Shared P R) (before after : List (Thread P R)) (r : Record P R) (x : Entry)
      → s.threads ≡ before ++ at dumping r ∷ after
      → entry_of lib r ≡ x
      → IsOrderly lib s
      → HasEntries lib (record s {
        recording_file = s.recording_file ++ piece x;
        record_added = then_kept s.record_added x;
        threads = before ++ at closing r ∷ after;
      })
  after_dump s before after r x e w o =
      let t : Thread P R = at dumping r in
      let u : Thread P R = at closing r in
      let ts : List Entry = o.entries.entries in
      let alone : others lib s before after t e dumping_at ≡ 0 =
        nobody_dumps s before after t e refl o in
      let d1 : total dumping_at s.threads ≡ 1 =
        omega (arith, alone, total-now lib s before after t e dumping_at) in
      let d0 : total dumping_at (before ++ u ∷ after) ≡ 0 =
        omega (arith, alone, total-then lib s before after t e dumping_at u) in
      record {
        entries = ts ++ x ∷ [];
        added = ap (λ b. then_kept b x) o.entries.added ∙ sym (kept_in-last false ts x);
        file =
            ap (λ l. l ++ piece x)
              (o.entries.file
                ∙ ap (λ n. "[" ∷ (contents false ts ++ pending n s.record_added)) d1
                ∙ ap (λ b. "[" ∷ (contents false ts ++ comma_if b)) o.entries.added)
            ∙ ap (λ l. "[" ∷ l)
                (append_assoc (contents false ts) (comma_if (kept_in false ts)) (piece x)
                  ∙ sym (contents-last false ts x)
                  ∙ sym (append-nil (contents false (ts ++ x ∷ []))))
            ∙ ap
                (λ n.
                  "[" ∷ (contents false (ts ++ x ∷ []) ++ pending n (then_kept s.record_added x)))
                (sym d0);
        in_file = λ y. omega (
          arith,
          occurrences-last y ts x,
          o.entries.in_file y,
          ap (λ z. bit (entry_eq z y)) w,
          total-now lib s before after t e (written_as lib y),
          total-then lib s before after t e (written_as lib y) u,
        );
      }

  at_dump :
      (s : Shared P R) (before after : List (Thread P R)) (r : Record P R) (x : Entry)
      → s.threads ≡ before ++ at dumping r ∷ after
      → entry_of lib r ≡ x
      → IsOrderly lib s
      → IsOrderly lib (record s {
        recording_file = s.recording_file ++ piece x;
        record_added = then_kept s.record_added x;
        threads = before ++ at closing r ∷ after;
      })
  at_dump s before after r x e w o =
      let t : Thread P R = at dumping r in
      let u : Thread P R = at closing r in
      record {
        counter = unmoved lib s before after t e counter_at u refl ∙ o.counter;
        file = unmoved lib s before after t e file_at u refl ∙ o.file;
        numbers =
            same_numbers lib s before after t e u s.counter (λ k. refl)
              (ap (λ n. s.counter + n) (unmoved lib s before after t e read_at u refl)) o;
        entries = after_dump s before after r x e w o;
      }

  pub Step-IsOrderly : {s s' : Shared P R} → Step lib s s' → IsOrderly lib s → IsOrderly lib s'
  Step-IsOrderly {s} (lock_counter before after r e free) o =
      let u : Thread P R = at counting r in
      let free' : bit s.counter_locked ≡ 0 = ap bit free in
      record {
        counter = omega (
          arith,
          free',
          o.counter,
          total-now lib s before after (at starting r) e counter_at,
          total-then lib s before after (at starting r) e counter_at u,
        );
        file = unmoved lib s before after (at starting r) e file_at u refl ∙ o.file;
        numbers =
            same_numbers lib s before after (at starting r) e u s.counter (λ k. refl)
              (ap (λ n. s.counter + n)
                (unmoved lib s before after (at starting r) e read_at u refl))
              o;
        entries =
            same_entries lib s before after (at starting r) e _ u refl refl refl refl (λ x. refl)
              o.entries;
      }
  Step-IsOrderly {s} (lock_file before after r e free) o =
      let u : Thread P R = at writing r in
      let free' : bit s.file_locked ≡ 0 = ap bit free in
      record {
        counter = unmoved lib s before after (at numbered r) e counter_at u refl ∙ o.counter;
        file = omega (
          arith,
          free',
          o.file,
          total-now lib s before after (at numbered r) e file_at,
          total-then lib s before after (at numbered r) e file_at u,
        );
        numbers =
            same_numbers lib s before after (at numbered r) e u s.counter (λ k. refl)
              (ap (λ n. s.counter + n)
                (unmoved lib s before after (at numbered r) e read_at u refl))
              o;
        entries =
            same_entries lib s before after (at numbered r) e _ u refl refl refl refl (λ x. refl)
              o.entries;
      }
  Step-IsOrderly {s} (unlock_file before after r e) o =
      let u : Thread P R = at finished r in
      record {
        counter = unmoved lib s before after (at closing r) e counter_at u refl ∙ o.counter;
        file = omega (
          arith,
          bit_bound s.file_locked,
          o.file,
          total-now lib s before after (at closing r) e file_at,
          total-then lib s before after (at closing r) e file_at u,
        );
        numbers =
            same_numbers lib s before after (at closing r) e u s.counter (λ k. refl)
              (ap (λ n. s.counter + n) (unmoved lib s before after (at closing r) e read_at u refl))
              o;
        entries =
            same_entries lib s before after (at closing r) e _ u refl refl refl refl (λ x. refl)
              o.entries;
      }
  Step-IsOrderly {s} (read_counter before after r e) o = after_read s before after r e o
  Step-IsOrderly {s} (increment before after r e) o =
      let t : Thread P R = at counted r in
      let u : Thread P R = at numbered r in
      record {
        counter = omega (
          arith,
          bit_bound s.counter_locked,
          o.counter,
          total-now lib s before after t e counter_at,
          total-then lib s before after t e counter_at u,
        );
        file = unmoved lib s before after t e file_at u refl ∙ o.file;
        numbers =
            same_numbers lib s before after t e u (suc s.counter) (λ k. refl)
              (omega (
                arith,
                total-now lib s before after t e read_at,
                total-then lib s before after t e read_at u,
              ))
              o;
        entries = same_entries lib s before after t e _ u refl refl refl refl (λ x. refl) o.entries;
      }
  Step-IsOrderly {s} (write_comma before after r e) o =
      let t : Thread P R = at writing r in
      let u : Thread P R = at dumping r in
      record {
        counter = unmoved lib s before after t e counter_at u refl ∙ o.counter;
        file = unmoved lib s before after t e file_at u refl ∙ o.file;
        numbers =
            same_numbers lib s before after t e u s.counter (λ k. refl)
              (ap (λ n. s.counter + n) (unmoved lib s before after t e read_at u refl)) o;
        entries = after_comma s before after r e o;
      }
  Step-IsOrderly {s} (dump before after r text e w) o =
      at_dump s before after r (kept text) e (rw (w, entry_of) refl) o
  Step-IsOrderly {s} (dump_error before after r text error e w) o =
      at_dump s before after r (lost text (lib.json_dump_error r.class_name error)) e
        (rw (w, entry_of) refl) o
