-- ===== src/Record/Threads.antt =====
-- Threads that add records to one streaming recorder at once: `Recorder.add_record` of
-- dbt_common/record.py as a step relation, with its two locks. A thread adds one record. Where
-- `json.dump` raises for a record, the dictionary of the error is written behind what it wrote. The
-- writes to the file raise nothing else.
use Prim.Native.Nat.{ℕ, suc}
use Prim.Native.String.{String}
use dbt_common.Common.{Bool, true, false, some, List, [], ◌∷◌, ◌++◌, ◌≡◌, if◌then◌else◌}
use dbt_common.Record.Recorder.{Record, written, broken, Library, tagged_dict}

-- Where a thread stands in `add_record`: before the counter's lock, with it, with it and the number
-- read, without a lock, with the file's lock, behind the comma, behind the record, and at the end.
pub data Phase : Type 0 where
  starting counting counted numbered writing dumping closing finished : Phase

pub record Thread (P R : Type 0) : Type 0 where
  pub phase : Phase
  pub adds : Record P R

-- The recorder as its threads share it.
pub record Shared (P R : Type 0) : Type 0 where
  pub counter : ℕ
  pub counter_locked : Bool
  pub file_locked : Bool
  pub record_added : Bool
  pub recording_file : List String
  pub threads : List (Thread P R)

abbrev pub at : {P R : Type 0} → Phase → Record P R → Thread P R
at phase r = record { phase = phase; adds = r }

abbrev pub all_starting : {P R : Type 0} → List (Record P R) → List (Thread P R)
all_starting [] = []
all_starting (r ∷ rs) = at starting r ∷ all_starting rs

-- A new recorder, and the records that threads are about to add.
abbrev pub opened : {P R : Type 0} → List (Record P R) → Shared P R
opened records = record {
  counter = 0;
  counter_locked = false;
  file_locked = false;
  record_added = false;
  recording_file = "[" ∷ [];
  threads = all_starting records;
}

module _ {P R D : Type 0} (lib : Library P R D) where
  -- A step of one thread, with the threads before and after it.
  pub data Step (s : Shared P R) : Shared P R → Type 0 where
    lock_counter :
        (before after : List (Thread P R)) (r : Record P R)
        → s.threads ≡ before ++ at starting r ∷ after
        → s.counter_locked ≡ false
        → Step s (record s { counter_locked = true; threads = before ++ at counting r ∷ after })
    read_counter :
        (before after : List (Thread P R)) (r : Record P R)
        → s.threads ≡ before ++ at counting r ∷ after
        → Step s (record s {
          threads = before ++ at counted (record r { seq = some s.counter }) ∷ after;
        })
    increment :
        (before after : List (Thread P R)) (r : Record P R)
        → s.threads ≡ before ++ at counted r ∷ after
        → Step s (record s {
          counter = suc s.counter;
          counter_locked = false;
          threads = before ++ at numbered r ∷ after;
        })
    lock_file :
        (before after : List (Thread P R)) (r : Record P R)
        → s.threads ≡ before ++ at numbered r ∷ after
        → s.file_locked ≡ false
        → Step s (record s { file_locked = true; threads = before ++ at writing r ∷ after })
    write_comma :
        (before after : List (Thread P R)) (r : Record P R)
        → s.threads ≡ before ++ at writing r ∷ after
        → Step s (record s {
          recording_file = s.recording_file ++ (if s.record_added then "," ∷ [] else []);
          threads = before ++ at dumping r ∷ after;
        })
    dump :
        (before after : List (Thread P R)) (r : Record P R) (text : String)
        → s.threads ≡ before ++ at dumping r ∷ after
        → lib.json_dump (tagged_dict lib r.class_name r) ≡ written text
        → Step s (record s {
          recording_file = s.recording_file ++ text ∷ [];
          record_added = true;
          threads = before ++ at closing r ∷ after;
        })
    dump_error :
        (before after : List (Thread P R)) (r : Record P R) (text error : String)
        → s.threads ≡ before ++ at dumping r ∷ after
        → lib.json_dump (tagged_dict lib r.class_name r) ≡ broken text error
        → Step s (record s {
          recording_file = s.recording_file ++ text ∷ lib.json_dump_error r.class_name error ∷ [];
          threads = before ++ at closing r ∷ after;
        })
    unlock_file :
        (before after : List (Thread P R)) (r : Record P R)
        → s.threads ≡ before ++ at closing r ∷ after
        → Step s (record s { file_locked = false; threads = before ++ at finished r ∷ after })

  pub data Reach (s : Shared P R) : Shared P R → Type 0 where
    here : Reach s s
    next : {t u : Shared P R} → Reach s t → Step t u → Reach s u
