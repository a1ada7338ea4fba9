-- ===== src/Record/Written.antt =====
-- dbt_common/record.py: the recording that a recorder writes.
use dbt_common.Common.{
  ℕ, ◌+◌, String, Bool, true, false, Option, none, some, List, [], ◌∷◌, ◌++◌, ltb, length, All,
  if◌then◌else◌, Bool-cases, ◌≡◌, refl, sym, ap, ◌∙◌, inl, inr, arith,
}
use mathlib.Core.List.{append_assoc, append-nil}
use dbt_common.Common.Dict.{lookup, insert}
use dbt_common.Common.Outcome.{ok}
use dbt_common.Record.Recorder.{
  Record, TaggedDict, Library, written, Recorder, or_empty, sort_by_seq, sort_records, tagged_dict,
  tagged_records, add_record, to_list, stream, clean_up_stream, open_recorder, recording,
}
use dbt_common.Record.Newest.{
  Below, Below-later, All-between, sort-newest, lacks_seq-Below, tagged-insert,
}

module _ {P R D : Type 0} (lib : Library P R D) where
  -- Records added one after the other, and their dictionaries with the numbers from n on.
  abbrev pub add_all : List (Record P R) → Recorder P R D → Recorder P R D
  add_all [] s = s
  add_all (r ∷ rs) s = add_all rs (add_record lib r s)

  abbrev pub numbered : ℕ → List (Record P R) → List (TaggedDict D)
  numbered n [] = []
  numbered n (r ∷ rs) =
      tagged_dict lib r.class_name (record r { seq = some n }) ∷ numbered (n + 1) rs

  -- A recorder in memory, with sequence numbers below its counter.
  record InMemory (s : Recorder P R D) : Type 0 where
    closed : s.recording_file ≡ none
    below : All (Below s.counter) (tagged_records lib s.records_by_type)

  sorted_records : Recorder P R D → List (TaggedDict D)
  sorted_records s = sort_by_seq (tagged_records lib s.records_by_type)

  added-in_memory :
      (r : Record P R) (s : Recorder P R D)
      → s.recording_file ≡ none
      → add_record lib r s ≡ record s {
        counter = s.counter + 1;
        records_by_type =
            insert r.class_name
              (or_empty (lookup r.class_name s.records_by_type)
                ++ (record r { seq = some s.counter }) ∷ [])
              s.records_by_type;
        recording_file = none;
      }
  unfolding add_record
  added-in_memory r s h = rw (h, add_record) (rw h refl)

  -- A record that is added to a recorder in memory is the last one of the recording.
  add_record-InMemory :
      (r : Record P R) (s : Recorder P R D)
      → InMemory s
      → InMemory (add_record lib r s)
        × (sorted_records (add_record lib r s)
            ≡ sorted_records s
              ++ tagged_dict lib r.class_name (record r { seq = some s.counter }) ∷ [])
        × ((add_record lib r s).counter ≡ s.counter + 1)
  unfolding sorted_records
  add_record-InMemory r s m =
      let r' : Record P R = record r { seq = some s.counter } in
      let (ts, us, e, e') =
        tagged-insert lib r.class_name r' s.records_by_type
          (or_empty (lookup r.class_name s.records_by_type)) refl in
      let x : TaggedDict D = tagged_dict lib r.class_name r' in
      let b : All (Below s.counter) (ts ++ us) = rw e at m.below in
      rw (added-in_memory r s m.closed) (
        record {
          closed = refl;
          below = rw e' (
              All-between (s.counter + 1) ts x us (s.counter, refl, omega arith)
                (Below-later s.counter (ts ++ us) b));
        },
        rw (e', e) (sort-newest s.counter ts x us refl b),
        refl,
      )

  sorted-add_all :
      (rs : List (Record P R)) (s : Recorder P R D)
      → InMemory s
      → InMemory (add_all rs s)
        × (sorted_records (add_all rs s) ≡ sorted_records s ++ numbered s.counter rs)
  sorted-add_all [] s m = (m, sym (append-nil (sorted_records s)))
  sorted-add_all (r ∷ rs) s m =
      let (m', e, k) = add_record-InMemory r s m in
      let (m'', e') = sorted-add_all rs (add_record lib r s) m' in
      (
        m'',
        e'
            ∙ rw (e, k)
                (append_assoc (sorted_records s)
                  (tagged_dict lib r.class_name (record r { seq = some s.counter }) ∷ [])
                  (numbered (s.counter + 1) rs)),
      )

  sort_records-Below :
      (n : ℕ) (ts : List (TaggedDict D)) → All (Below n) ts → sort_records ts ≡ ok (sort_by_seq ts)
  sort_records-Below n ts a = elim (Bool-cases (ltb 1 (length ts))) [
    | inl several ↦ rw (several, lacks_seq-Below n ts a) refl
    | inr few ↦ rw few refl
  ]

  -- The records added to an empty recorder in memory are written in the order in which they were added, whatever their types, numbered from 0.
  pub to_list-add_all :
      (rs : List (Record P R)) (s : Recorder P R D)
      → s.recording_file ≡ none
      → s.records_by_type ≡ []
      → s.counter ≡ 0
      → to_list lib (add_all rs s) ≡ ok (numbered 0 rs)
  to_list-add_all rs s f e z =
      let (m, q) = sorted-add_all rs s record { closed = f; below = rw e tt } in
      sort_records-Below (add_all rs s).counter (tagged_records lib (add_all rs s).records_by_type)
        m.below
      ∙ ap ok (unfold sorted_records in q ∙ rw (e, z) refl)

  -- The texts of dictionaries, each but the first behind a comma.
  abbrev pub commas : (TaggedDict D → String) → List (TaggedDict D) → List String
  commas text [] = []
  commas text (t ∷ ts) = "," ∷ text t ∷ commas text ts

  abbrev pub comma_separated : (TaggedDict D → String) → List (TaggedDict D) → List String
  comma_separated text [] = []
  comma_separated text (t ∷ ts) = text t ∷ commas text ts

  stream-written :
      (r : Record P R) (added : Bool) (file : List String) (t : String)
      → lib.json_dump (tagged_dict lib r.class_name r) ≡ written t
      → stream lib r added file ≡ ((if added then file ++ "," ∷ [] else file) ++ t ∷ [], true)
  stream-written r added file t d = rw (stream, d) refl

  added-to_file :
      (r : Record P R) (s : Recorder P R D) (file : List String) (t : String)
      → s.recording_file ≡ some file
      → lib.json_dump (tagged_dict lib r.class_name (record r { seq = some s.counter })) ≡ written t
      → add_record lib r s ≡ record s {
        counter = s.counter + 1;
        recording_file = some ((if s.record_added then file ++ "," ∷ [] else file) ++ t ∷ []);
        record_added = true;
      }
  unfolding add_record
  added-to_file r s file t h d =
      rw (h, add_record)
        (rw (stream-written (record r { seq = some s.counter }) s.record_added file t d) refl)

  streamed-commas :
      (text : TaggedDict D → String) (rs : List (Record P R)) (s : Recorder P R D)
      (file : List String)
      → All (λ t. lib.json_dump t ≡ written (text t)) (numbered s.counter rs)
      → s.recording_file ≡ some file
      → s.record_added ≡ true
      → (add_all rs s).recording_file ≡ some (file ++ commas text (numbered s.counter rs))
  streamed-commas text [] s file a f k = rw (append-nil file) f
  streamed-commas text (r ∷ rs) s file (d, a) f k =
      let t : String = text (tagged_dict lib r.class_name (record r { seq = some s.counter })) in
      let e = added-to_file r s file t f d in
      streamed-commas text rs (add_record lib r s) ((file ++ "," ∷ []) ++ t ∷ []) (rw e a)
        (rw (e, k) refl) (rw e refl)
      ∙ rw e (
          ap some (
            append_assoc (file ++ "," ∷ []) (t ∷ []) (commas text (numbered (s.counter + 1) rs))
            ∙ append_assoc file ("," ∷ []) (t ∷ commas text (numbered (s.counter + 1) rs))))

  streamed :
      (text : TaggedDict D → String) (rs : List (Record P R)) (s : Recorder P R D)
      → All (λ t. lib.json_dump t ≡ written (text t)) (numbered s.counter rs)
      → s.recording_file ≡ some ("[" ∷ [])
      → s.record_added ≡ false
      → (add_all rs s).recording_file ≡ some ("[" ∷ comma_separated text (numbered s.counter rs))
  streamed text [] s a f k = f
  streamed text (r ∷ rs) s (d, a) f k =
      let t : String = text (tagged_dict lib r.class_name (record r { seq = some s.counter })) in
      let e = added-to_file r s ("[" ∷ []) t f d in
      streamed-commas text rs (add_record lib r s) ("[" ∷ t ∷ []) (rw e a) (rw (e, k) refl)
        (rw e refl)
      ∙ rw e refl

  -- Where json.dump succeeds on every record, the file that a recorder streams holds, between brackets and separated by commas, the texts of the dictionaries that a recorder in memory writes.
  pub streamed-eq-in_memory :
      (text : TaggedDict D → String) (rs : List (Record P R)) (types : Option (List String))
      → All (λ t. lib.json_dump t ≡ written (text t)) (numbered 0 rs)
      → (dicts : List (TaggedDict D)) × (to_list lib
            (add_all rs (open_recorder recording types [] true))
          ≡ ok dicts)
        × ((clean_up_stream lib (add_all rs (open_recorder recording types [] false))).0
            ≡ some ("[" ∷ comma_separated text dicts ++ "]" ∷ []))
  streamed-eq-in_memory text rs types a = (
    numbered 0 rs,
    to_list-add_all rs (open_recorder recording types [] true) refl refl refl,
    rw (clean_up_stream, streamed text rs (open_recorder recording types [] false) a refl refl)
        refl,
  )
