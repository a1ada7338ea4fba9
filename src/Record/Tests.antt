-- ===== src/Record/Tests.antt =====
-- The theorems about the recorder at concrete inputs. Parameters and results are texts.
use dbt_common.Common.{
  if◌then◌else◌, ◌≡◌, ◌≤◌, refl, ap, arith, true, false, none, some, Option, List, [], ◌∷◌, ◌++◌,
  String, take, length, map, eq_iff,
}
use text.Mathlib.Text.{◌==◌}
use text.Mathlib.TextPositions.{eq_refl}
use dbt_common.Common.Dict.{lookup}
use dbt_common.Common.Outcome.{ok, raise}
use dbt_common.Record.Recorder.{
  broken, add_record, Record, TaggedDict, Library, written, Recorder, recording, replaying,
  open_recorder, to_list, clean_up_stream,
}
use dbt_common.Record.Replay.{IsEquality, matching, calls_with, given_to, replay, replay-in_order}
use dbt_common.Record.Threads.{
  starting, numbered as has_number, finished, Shared, Reach, here, next, lock_counter, read_counter,
  increment, lock_file, write_comma, dump, dump_error, unlock_file, opened, at,
}
use dbt_common.Record.Interleaved.{IsRecorded, Reach-IsRecorded}
use dbt_common.Record.Completion.{CanFinish, Reach-CanFinish}
use dbt_common.Record.Wrapper.{
  Function, Context, from_call, record_of, record_replay_wrapper, wrapper-nested, wrapper-raise,
}
use dbt_common.Record.Written.{
  add_all, numbered, comma_separated, to_list-add_all, streamed-eq-in_memory,
}

abbrev texts : Library String String String
texts = record {
  class_of = λ p. "QueryParams";
  same = λ p q. p == q;
  params_dict = λ p. p;
  result_dict = λ r. r;
  from_dict = λ c d. none;
  json_dump = λ t. written t.params;
  json_dump_error = λ c e. e;
}

same_texts : IsEquality texts
same_texts = record {
  own = eq_refl;
  left = λ {p} {q} r e. ap (λ t. t == r) ((eq_iff p q).0 e);
  right = λ {p} {q} r e. ap (λ t. r == t) ((eq_iff p q).0 e);
}

abbrev query : String → String → Record String String
query p r = record { class_name = "Query"; params = p; result = some r; seq = none }

abbrev recorded : List (Record String String)
recorded = query "a" "1" ∷ query "b" "2" ∷ query "a" "3" ∷ []

abbrev replayer : Recorder String String String
replayer = record (open_recorder replaying none [] true) {
  record_name_by_params_name = ("QueryParams", "Query") ∷ [];
  record_cls_by_name = ("Query", "Query") ∷ [];
  records_by_type = ("Query", recorded) ∷ [];
}

enough :
    (q : String) → length (calls_with texts q ("b" ∷ "a" ∷ [])) ≤ length (matching texts q recorded)
enough q = ground arith

replay-in_order_example :
    (out : List (String × Option String)) × (replay texts ("b" ∷ "a" ∷ []) replayer ≡ ok out)
    × ((q : String)
        → given_to texts q out
          ≡ take
              (length (calls_with texts q ("b" ∷ "a" ∷ [])))
              (map (λ rec. rec.result) (matching texts q recorded)))
unfolding lookup
replay-in_order_example =
    replay-in_order texts same_texts "QueryParams" "Query" ("b" ∷ "a" ∷ []) recorded replayer
      (refl, (refl, tt)) (record { registered = refl; held = refl }) enough

to_list-add_all_example :
    to_list texts (add_all texts recorded (open_recorder recording none [] true))
    ≡ ok (numbered texts 0 recorded)
to_list-add_all_example =
    to_list-add_all texts recorded (open_recorder recording none [] true) refl refl refl

streamed-eq-in_memory_example :
    (dicts : List (TaggedDict String)) × (to_list texts
        (add_all texts recorded (open_recorder recording none [] true))
      ≡ ok dicts)
    × ((clean_up_stream texts (add_all texts recorded (open_recorder recording none [] false))).0
        ≡ some ("[" ∷ comma_separated texts (λ t. t.params) dicts ++ "]" ∷ []))
streamed-eq-in_memory_example =
    streamed-eq-in_memory texts (λ t. t.params) recorded none (refl, (refl, (refl, tt)))

-- A recorded function that returns, one that calls it, and one that raises.
abbrev Recorded : Type 0
Recorded = Function String String String (Unit {0}) (Unit {0}) String

abbrev reading : Recorded
reading = record {
  record_name = "Read";
  group = none;
  params = some "a";
  included = true;
  call = λ c. (ok "1", c);
  result_of = λ a. some a;
  unpack = λ r. "";
}

abbrev querying : Recorded
querying = record reading {
  record_name = "Query";
  call = λ c. record_replay_wrapper texts reading c;
}

abbrev failing : Recorded
failing = record reading { record_name = "Fail"; call = λ c. (raise (from_call tt), c) }

abbrev memory : Recorder String String String
memory = open_recorder recording none [] true

abbrev context : Context String String String (Unit {0})
context = record { recorder = some memory; higher = false; world = tt }

wrapper-nested_example : record_replay_wrapper texts querying context ≡ (
  ok "1",
  record context { recorder = some (add_record texts (record_of texts querying "a" "1") memory) },
)
wrapper-nested_example =
    wrapper-nested texts querying reading "a" "a" memory context "1"
      (record { all_types = refl; calls = refl; has_params = refl; is_included = refl })
      (record { all_types = refl; calls = refl; has_params = refl; is_included = refl }) refl refl
      (λ d. refl) (λ d. refl)

wrapper-raise_example :
    record_replay_wrapper texts reading (record_replay_wrapper texts failing context).1
    ≡ (ok "1", record context { higher = true })
wrapper-raise_example =
    wrapper-raise texts failing reading "a" "a" memory context (from_call tt)
      (record { all_types = refl; calls = refl; has_params = refl; is_included = refl })
      (record { all_types = refl; calls = refl; has_params = refl; is_included = refl }) refl
      (λ d. refl)

-- Two threads that add a record each: the second one reads its number before the first one writes,
-- and the first one's record cannot be dumped.
abbrev record_a : Record String String
record_a = record { class_name = "A"; params = "a"; result = none; seq = none }

abbrev record_b : Record String String
record_b = record { class_name = "B"; params = "b"; result = none; seq = none }

abbrev not_dumping_a : Library String String String
not_dumping_a = record texts {
  json_dump = λ t. if t.params == "a" then broken "{" "not serializable" else written t.params;
  json_dump_error = λ c e. e;
}

abbrev numbered_a : Record String String
numbered_a = record record_a { seq = some 0 }

abbrev numbered_b : Record String String
numbered_b = record record_b { seq = some 1 }

abbrev two : List (Record String String)
two = record_a ∷ record_b ∷ []

abbrev both_numbered : Shared String String
both_numbered = record {
  counter = 2;
  counter_locked = false;
  file_locked = false;
  record_added = false;
  recording_file = "[" ∷ [];
  threads = at has_number numbered_a ∷ at has_number numbered_b ∷ [];
}

abbrev first_finished : Shared String String
first_finished = record both_numbered {
  record_added = true;
  recording_file = "[" ∷ "b" ∷ [];
  threads = at has_number numbered_a ∷ at finished numbered_b ∷ [];
}

abbrev both_finished : Shared String String
both_finished = record first_finished {
  recording_file = "[" ∷ "b" ∷ "," ∷ "{" ∷ "not serializable" ∷ [];
  threads = at finished numbered_a ∷ at finished numbered_b ∷ [];
}

two_numbered : Reach not_dumping_a (opened two) both_numbered
two_numbered =
    next
      (next
        (next
          (next
            (next (next here (lock_counter [] (at starting record_b ∷ []) record_a refl refl))
              (read_counter [] (at starting record_b ∷ []) record_a refl))
            (increment [] (at starting record_b ∷ []) numbered_a refl))
          (lock_counter (at has_number numbered_a ∷ []) [] record_b refl refl))
        (read_counter (at has_number numbered_a ∷ []) [] record_b refl))
      (increment (at has_number numbered_a ∷ []) [] numbered_b refl)

one_finished : Reach not_dumping_a (opened two) first_finished
one_finished =
    next
      (next
        (next
          (next two_numbered (lock_file (at has_number numbered_a ∷ []) [] numbered_b refl refl))
          (write_comma (at has_number numbered_a ∷ []) [] numbered_b refl))
        (dump (at has_number numbered_a ∷ []) [] numbered_b "b" refl refl))
      (unlock_file (at has_number numbered_a ∷ []) [] numbered_b refl)

two_finished : Reach not_dumping_a (opened two) both_finished
two_finished =
    next
      (next
        (next (next one_finished (lock_file [] (at finished numbered_b ∷ []) numbered_a refl refl))
          (write_comma [] (at finished numbered_b ∷ []) numbered_a refl))
        (dump_error [] (at finished numbered_b ∷ []) numbered_a "{" "not serializable" refl refl))
      (unlock_file [] (at finished numbered_b ∷ []) numbered_a refl)

Reach-IsRecorded_example : IsRecorded not_dumping_a both_finished
Reach-IsRecorded_example =
    Reach-IsRecorded not_dumping_a two both_finished two_finished (refl, (refl, tt))

Reach-CanFinish_example : CanFinish not_dumping_a both_numbered
Reach-CanFinish_example = Reach-CanFinish not_dumping_a two both_numbered two_numbered
