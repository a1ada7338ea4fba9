-- ===== src/Record/Recorder.antt =====
-- dbt_common/record.py, `Record` and `Recorder`. The classes
-- of parameters and results, the JSON library and mashumaro are a `Library`.
use dbt_common.Common.{
  ℕ, ◌+◌, String, Bool, true, false, ◌&&◌, Option, none, some, List, [], ◌∷◌, ◌++◌, map, ltb, any,
  length, if◌then◌else◌,
}
use dbt_common.Common.Dict.{Dict, lookup, insert, has}
use dbt_common.Common.Outcome.{Outcome, ok, raise, ◌>>=◌}

-- The class `Record`. A subclass of it is its name.
pub record Record (P R : Type 0) : Type 0 where
  pub class_name : String
  pub params : P
  pub result : Option R
  pub seq : Option ℕ

-- The dictionary of `to_dict`, with the `type` of `_get_tagged_dict`.
pub record TaggedDict (D : Type 0) : Type 0 where
  pub params : D
  pub result : Option D
  pub seq : Option ℕ
  pub type_name : String

-- What `json.dump` did to the file: it wrote a text, or it raised after it had written one.
pub data Dumped : Type 0 where
  written : String → Dumped
  broken : String → String → Dumped

-- What the code takes from classes that it does not define.
pub record Library (P R D : Type 0) : Type 0 where
  pub class_of : P → String
  pub same : P → P → Bool
  pub params_dict : P → D
  pub result_dict : R → D
  pub from_dict : String → D → Option (Record P R)
  pub json_dump : TaggedDict D → Dumped
  pub json_dump_error : String → String → String

pub data RecorderMode : Type 0 where
  recording replaying diffing : RecorderMode

pub data RecorderFault : Type 0 where
  not_registered : String → RecorderFault
  missing_key : String → RecorderFault
  not_readable : String → RecorderFault
  no_record : RecorderFault
  unordered : RecorderFault

-- The registry of the class `Recorder`, then the state of one recorder. The recording file is the
-- list of the texts written to it.
pub record Recorder (P R D : Type 0) : Type 0 where
  pub record_name_by_params_name : Dict String
  pub record_cls_by_name : Dict String
  pub mode : RecorderMode
  pub recorded_types : Option (List String)
  pub records_by_type : Dict (List (Record P R))
  pub unprocessed_records_by_type : Dict (List D)
  pub counter : ℕ
  pub record_added : Bool
  pub recording_file : Option (List String)

-- `__init__`, without a diff: what `load` gave, and whether the recorder is in memory.
abbrev pub open_recorder :
    {P R D : Type 0} → RecorderMode → Option (List String) → Dict (List D) → Bool → Recorder P R D
open_recorder mode types loaded in_memory = record {
  record_name_by_params_name = [];
  record_cls_by_name = [];
  mode = mode;
  recorded_types = types;
  records_by_type = [];
  unprocessed_records_by_type = elim mode [ recording ↦ [] | replaying ↦ loaded | diffing ↦ [] ];
  counter = 0;
  record_added = false;
  recording_file = elim mode [
    | recording ↦ if in_memory then none else some ("[" ∷ [])
    | replaying ↦ none
    | diffing ↦ none
  ];
}

-- `register_record_type`, of a class and the class of its parameters
unfoldable register_record_type :
    {P R D : Type 0} → String → String → Recorder P R D → Recorder P R D
unfolding insert
register_record_type name params_name s = record s {
  record_cls_by_name = insert name name s.record_cls_by_name;
  record_name_by_params_name = insert params_name name s.record_name_by_params_name;
}

-- The list of records of a type, or the empty one that `add_record` puts there.
abbrev pub or_empty : {A : Type 0} → Option (List A) → List A
or_empty none = []
or_empty (some xs) = xs

-- The first record of some parameters, and the records without it.
abbrev pub take_matching :
    {P R : Type 0}
    → (P → P → Bool)
    → P
    → List (Record P R)
    → Option (Record P R) × List (Record P R)
take_matching same params [] = (none, [])
take_matching same params (rec ∷ records) =
    let (found, rest) = take_matching same params records in
    if same rec.params params then (some rec, records) else (found, rec ∷ rest)

-- The comparison of the sort key `r["seq"]`.
abbrev pub seq_before : Option ℕ → Option ℕ → Bool
seq_before (some m) (some n) = ltb m n
seq_before none n = false
seq_before (some m) none = false

abbrev pub put_by_seq : {D : Type 0} → TaggedDict D → List (TaggedDict D) → List (TaggedDict D)
put_by_seq r [] = r ∷ []
put_by_seq r (t ∷ ts) = if seq_before t.seq r.seq then t ∷ put_by_seq r ts else r ∷ t ∷ ts

abbrev pub sort_by_seq : {D : Type 0} → List (TaggedDict D) → List (TaggedDict D)
sort_by_seq [] = []
sort_by_seq (r ∷ rs) = put_by_seq r (sort_by_seq rs)

abbrev pub lacks_seq : {D : Type 0} → TaggedDict D → Bool
lacks_seq r = elim r.seq [ none ↦ true | some _ ↦ false ]

-- A value without a place in the order is refused as soon as it is compared.
abbrev pub sort_records :
    {D : Type 0} → List (TaggedDict D) → Outcome RecorderFault (List (TaggedDict D))
sort_records rs =
    if ltb 1 (length rs) && any lacks_seq rs then raise unordered else ok (sort_by_seq rs)

module _ {P R D : Type 0} (lib : Library P R D) where
  -- `_get_tagged_dict`, with `to_dict`
  abbrev pub tagged_dict : String → Record P R → TaggedDict D
  tagged_dict record_type r = record {
    params = lib.params_dict r.params;
    result = elim r.result [ none ↦ none | some x ↦ some (lib.result_dict x) ];
    seq = r.seq;
    type_name = record_type;
  }

  -- The texts of a record added to the recording file, and whether it counts as added.
  abbrev pub stream : Record P R → Bool → List String → List String × Bool
  stream r added file =
      let file' = if added then file ++ "," ∷ [] else file in
      elim (lib.json_dump (tagged_dict r.class_name r)) [
        | written text ↦ (file' ++ text ∷ [], true)
        | broken text error ↦ (file' ++ text ∷ lib.json_dump_error r.class_name error ∷ [], added)
      ]

  unfoldable pub add_record : Record P R → Recorder P R D → Recorder P R D
  add_record r s =
      let r' = record r { seq = some s.counter } in
      elim s.recording_file [
        | some file ↦
            let (file', added) = stream r' s.record_added file in
            record s { counter = s.counter + 1; recording_file = some file'; record_added = added }
        | none ↦ record s {
          counter = s.counter + 1;
          records_by_type =
              insert r.class_name (or_empty (lookup r.class_name s.records_by_type) ++ r' ∷ [])
                s.records_by_type;
        }
      ]

  abbrev read_records : String → List D → Outcome RecorderFault (List (Record P R))
  read_records name [] = ok []
  read_records name (d ∷ ds) = elim (lib.from_dict name d) [
    | none ↦ raise (not_readable name)
    | some rec ↦ read_records name ds >>= λ recs. ok (rec ∷ recs)
  ]

  -- `d[k]`
  abbrev pub item : {A : Type 0} → String → Option A → Outcome RecorderFault A
  item k none = raise (missing_key k)
  item k (some a) = ok a

  unfoldable pub ensure_records_processed :
      String → Recorder P R D → Outcome RecorderFault (Recorder P R D)
  ensure_records_processed name s =
      if has name s.records_by_type
      then ok s
      else (item name (lookup name s.record_cls_by_name) >>= λ cls.
          item name (lookup name s.unprocessed_records_by_type) >>= λ dicts.
          read_records cls dicts >>= λ recs.
          ok (record s { records_by_type = insert name recs s.records_by_type }))

  unfoldable pub pop_matching_record :
      P → Recorder P R D → Outcome RecorderFault (Option (Record P R) × Recorder P R D)
  pop_matching_record params s = elim (lookup (lib.class_of params) s.record_name_by_params_name) [
    | none ↦ raise (not_registered (lib.class_of params))
    | some name ↦ ensure_records_processed name s >>= λ s'.
        item name (lookup name s'.records_by_type) >>= λ records.
        let (found, rest) = take_matching lib.same params records in
        ok (found, record s' { records_by_type = insert name rest s'.records_by_type })
  ]

  -- `expect_record`: the result of the record, before a tuple of one field is unpacked.
  unfoldable pub expect_record :
      P → Recorder P R D → Outcome RecorderFault (Option R × Recorder P R D)
  unfolding pop_matching_record
  expect_record params s = pop_matching_record params s >>= λ (found, s'). elim found [
    | none ↦ raise no_record
    | some rec ↦ ok (rec.result, s')
  ]

  abbrev pub tagged_records : Dict (List (Record P R)) → List (TaggedDict D)
  tagged_records [] = []
  tagged_records ((name, records) ∷ m) = map (tagged_dict name) records ++ tagged_records m

  -- `_to_list`
  abbrev pub to_list : Recorder P R D → Outcome RecorderFault (List (TaggedDict D))
  to_list s = sort_records (tagged_records s.records_by_type)

  -- `clean_up_stream`: the closed file comes with the recorder.
  abbrev pub clean_up_stream : Recorder P R D → Option (List String) × Recorder P R D
  clean_up_stream s = elim s.recording_file [
    | none ↦ (none, s)
    | some file ↦ (some (file ++ "]" ∷ []), record s { recording_file = none })
  ]
