-- ===== src/Record/Tally.antt =====
-- Counts of the threads of Record.Threads (dbt_common/record.py), and the invariant of a recording that
-- they write.
use Prim.Native.Nat.{ℕ, zero, suc, ◌+◌, ◌≤◌}
use Prim.Native.String.{String}
use text.Mathlib.Text.{◌==◌ as str_eq}
use dbt_common.Common.{
  Bool, true, false, ◌&&◌, Option, sym, ◌∙◌, none, some, List, [], ◌∷◌, ◌++◌, ◌≡◌, refl, ap, ◌==◌,
  ltb, if◌then◌else◌, arith,
}
use dbt_common.Record.Recorder.{Record, written, broken, Library, tagged_dict}
use mathlib.Core.List.{append_assoc, append-nil}
use dbt_common.Record.Threads.{
  Phase, starting, counting, counted, writing, dumping, closing, finished, Thread, Shared,
}

abbrev pub bit : Bool → ℕ
bit true = 1
bit false = 0

abbrev pub has_counter : Phase → ℕ
has_counter counting = 1
has_counter counted = 1
has_counter _ = 0

abbrev pub has_read : Phase → ℕ
has_read counted = 1
has_read _ = 0

abbrev pub has_file : Phase → ℕ
has_file writing = 1
has_file dumping = 1
has_file closing = 1
has_file _ = 0

abbrev pub is_dumping : Phase → ℕ
is_dumping dumping = 1
is_dumping _ = 0

-- Whether a thread has a number, and whether it has written its record.
abbrev pub has_number : Phase → Bool
has_number starting = false
has_number counting = false
has_number _ = true

abbrev has_written : Phase → Bool
has_written closing = true
has_written finished = true
has_written _ = false

abbrev pub as_number : ℕ → Option ℕ → ℕ
as_number k none = 0
as_number k (some j) = bit (j == k)

abbrev pub comma_if : Bool → List String
comma_if added = if added then "," ∷ [] else []

-- What a record leaves in the file: its text, or what `json.dump` had written when it raised, with
-- the text of the error.
pub data Entry : Type 0 where
  kept : String → Entry
  lost : String → String → Entry

abbrev pub piece : Entry → List String
piece (kept text) = text ∷ []
piece (lost text error) = text ∷ error ∷ []

-- Whether a record was kept, up to this entry and up to the end.
abbrev pub then_kept : Bool → Entry → Bool
then_kept added (kept text) = true
then_kept added (lost text error) = added

abbrev pub kept_in : Bool → List Entry → Bool
kept_in added [] = added
kept_in added (e ∷ es) = kept_in (then_kept added e) es

-- The entries, each behind a comma if a record before it was kept.
abbrev pub contents : Bool → List Entry → List String
contents added [] = []
contents added (e ∷ es) = comma_if added ++ (piece e ++ contents (then_kept added e) es)

pub contents-last :
    (added : Bool) (es : List Entry) (e : Entry)
    → contents added (es ++ e ∷ []) ≡ contents added es ++ (comma_if (kept_in added es) ++ piece e)
contents-last added [] e = ap (λ l. comma_if added ++ l) (append-nil (piece e))
contents-last added (d ∷ es) e =
    let more : List String = comma_if (kept_in (then_kept added d) es) ++ piece e in
    ap (λ l. comma_if added ++ (piece d ++ l)) (contents-last (then_kept added d) es e)
    ∙ ap (λ l. comma_if added ++ l)
        (sym (append_assoc (piece d) (contents (then_kept added d) es) more))
    ∙ sym (append_assoc (comma_if added) (piece d ++ contents (then_kept added d) es) more)

pub kept_in-last :
    (added : Bool) (es : List Entry) (e : Entry)
    → kept_in added (es ++ e ∷ []) ≡ then_kept (kept_in added es) e
kept_in-last added [] e = refl
kept_in-last added (d ∷ es) e = kept_in-last (then_kept added d) es e

abbrev pub entry_eq : Entry → Entry → Bool
entry_eq (kept t) (kept u) = str_eq t u
entry_eq (lost t e) (lost u f) = str_eq t u && str_eq e f
entry_eq _ _ = false

-- How often an entry stands in a list.
abbrev pub occurrences : Entry → List Entry → ℕ
occurrences e [] = 0
occurrences e (d ∷ ds) = bit (entry_eq d e) + occurrences e ds

pub occurrences-last :
    (e : Entry) (ds : List Entry) (d : Entry)
    → occurrences e (ds ++ d ∷ []) ≡ occurrences e ds + bit (entry_eq d e)
occurrences-last e [] d = omega arith
occurrences-last e (c ∷ ds) d = omega (arith, occurrences-last e ds d)

-- A comma that is written, with its record to come.
abbrev pub pending : ℕ → Bool → List String
pending zero added = []
pending (suc n) added = comma_if added

module _ {P R : Type 0} where
  abbrev pub total : (Thread P R → ℕ) → List (Thread P R) → ℕ
  total f [] = 0
  total f (t ∷ ts) = f t + total f ts

  total-append :
      (f : Thread P R → ℕ) (ts us : List (Thread P R))
      → total f (ts ++ us) ≡ total f ts + total f us
  total-append f [] us = omega arith
  total-append f (t ∷ ts) us = omega (arith, total-append f ts us)

  -- The total with one thread between others.
  pub total-between :
      (f : Thread P R → ℕ) (ts : List (Thread P R)) (t : Thread P R) (us : List (Thread P R))
      → total f (ts ++ t ∷ us) ≡ f t + (total f ts + total f us)
  total-between f ts t us = omega (arith, total-append f ts (t ∷ us))

  pub total-least :
      (f g : Thread P R → ℕ)
      → ((t : Thread P R) → f t ≤ g t)
      → (ts : List (Thread P R)) → total f ts ≤ total g ts
  total-least f g h [] = omega arith
  total-least f g h (t ∷ ts) = omega (arith, h t, total-least f g h ts)

  abbrev pub counter_at : Thread P R → ℕ
  counter_at t = has_counter t.phase

  abbrev pub read_at : Thread P R → ℕ
  read_at t = has_read t.phase

  abbrev pub file_at : Thread P R → ℕ
  file_at t = has_file t.phase

  abbrev pub dumping_at : Thread P R → ℕ
  dumping_at t = is_dumping t.phase

  -- Whether a thread has the number k.
  abbrev pub numbered_as : ℕ → Thread P R → ℕ
  numbered_as k t = if has_number t.phase then as_number k t.adds.seq else 0

  pub read_below : (t : Thread P R) → read_at t ≤ counter_at t
  read_below t = of_phase t.phase
    where
      of_phase : (p : Phase) → has_read p ≤ has_counter p
      of_phase counted = omega arith
      of_phase _ = omega arith

  pub dumping_below : (t : Thread P R) → dumping_at t ≤ file_at t
  dumping_below t = of_phase t.phase
    where
      of_phase : (p : Phase) → is_dumping p ≤ has_file p
      of_phase dumping = omega arith
      of_phase _ = omega arith

module _ {P R D : Type 0} (lib : Library P R D) where
  abbrev pub entry_of : Record P R → Entry
  entry_of r = elim (lib.json_dump (tagged_dict lib r.class_name r)) [
    | written text ↦ kept text
    | broken text error ↦ lost text (lib.json_dump_error r.class_name error)
  ]

  -- Whether a thread has written its record, as this entry.
  abbrev pub written_as : Entry → Thread P R → ℕ
  written_as e t = if has_written t.phase then bit (entry_eq (entry_of t.adds) e) else 0

  -- The entries in the file.
  pub record HasEntries (s : Shared P R) : Type 0 where
    pub entries : List Entry
    pub added : s.record_added ≡ kept_in false entries
    pub file :
        s.recording_file
        ≡ "[" ∷ (contents false entries ++ pending (total dumping_at s.threads) s.record_added)
    pub in_file : (e : Entry) → occurrences e entries ≡ total (written_as e) s.threads

  -- The invariant: one thread at most has each lock, each number below the counter is a thread's once, and the file has the entries of the threads that have written.
  pub record IsOrderly (s : Shared P R) : Type 0 where
    pub counter : total counter_at s.threads ≡ bit s.counter_locked
    pub file : total file_at s.threads ≡ bit s.file_locked
    pub numbers :
        (k : ℕ)
        → total (numbered_as k) s.threads ≡ bit (ltb k (s.counter + total read_at s.threads))
    pub entries : HasEntries s
