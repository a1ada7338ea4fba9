-- ===== src/Lib.antt =====
-- Models of parts of dbt-common, and theorems about them.
--
-- The program's parts, and the files that model them:
--
--   dbt_common/semver.py, in Semver and the modules below it. Text has Python's comparison and the
--   conversion to int on lists of code points; Parse the regular expressions and
--   from_version_string; Specifier the VersionSpecifier with compare and _nat_cmp; Range the
--   VersionRange with reduce and the _try_combine methods; Select the functions over several
--   versions (reduce_versions, versions_compatible, find_possible_versions,
--   resolve_to_specific_version, filter_installable). A specifier is bounded, or unbounded for the
--   class UnboundedVersionSpecifier. Order, Precedence, Compatible and Best hold theorems.
--
--   dbt_common/helper_types.py, in WarnError: IncludeExclude, WarnErrorOptions and
--   WarnErrorOptionsV2 in Options. Precedence states the documented hierarchy as a function.
--
--   dbt_common/events/event_manager.py and parts of dbt_common/events/base_types.py, in Events:
--   the EventManager is a record, a method a function of it that returns what it raises and the
--   manager behind it. It asks the options of WarnError for every warning. Deferral holds theorems.
--   Catcher has the EventCatcher of dbt_common/events/event_catcher.py, with its theorem.
--
--   dbt_common/contracts/config/base.py, in Config: Value has what YAML and JSON give, Merge
--   _merge_field_value and merge_config_dicts, Fields the methods of BaseConfig. Rounds, Merging and
--   Updating hold theorems.
--
--   dbt_common/clients/_jinja_blocks.py, in Jinja: Patterns has the regular expressions,
--   Matches the position and the past matches of a TagIterator, Tags its handlers, Blocks the
--   BlockIterator. Cache, Rounds and Reassembly hold theorems, Progress the lemmas on the loops that
--   they share; Regex.Reached and Regex.Progress say where the matches of the matcher lie.
--
--   dbt_common/record.py, in Record: Recorder has Record and Recorder, whose recording file is the
--   list of the texts written to it. Wrapper has the wrapper of a recorded function
--   (record_replay_wrapper in _record_function_inner), whose function is a state transformer, so that
--   it can call other recorded functions. Threads has threads that add records at once as a step
--   relation with the locks of add_record and the exceptions of json.dump; Tally, Others and Orderly hold its invariant, Newest the
--   lemmas on the order of a recording that Written uses. Replay, Written, Wrapper, Interleaved and
--   Completion hold theorems.
--
--   dbt_common/behavior_flags.py, in Flags: Behavior has the flags and their collection, each read of
--   which gives the events that it fires; whether fire_event raises for an event is a parameter, which
--   Refusal has for the event manager of Events. Firing and Refusal hold theorems.
--
--   dbt_common/events/contextvars.py, in ContextVars: Variables has the functions by prefix and the
--   context managers, whose body is a function of the variables; Restoring holds the theorem. A body
--   that raises leaves the variables as one that returns does, since the code is in a `finally`.
--
--   dbt_common/utils/connection.py, in Retry: Connection has the recursion of
--   connection_exception_retry, with fuel for one call more than max_attempts; Attempts holds the
--   theorem.
--
--   dbt_common/utils/dict.py, in Mappings: Merge has filter_null_values, merge and deep_merge, Render
--   deep_map_render. The merges work on the values of Config.Value, deep_map_render on values with any
--   keys and any atomic values. Merging, Deep and Rendered hold theorems.
--
--   dbt_common/clients/agate_helper.py, in Tables: Columns has ColumnTypeBuilder and
--   _merged_column_types, Rows merge_tables, table_from_data_flat and get_column_value_uncased. A table
--   is its column types by name and its rows by name. Admitted has the types that a merged column
--   admits; Merged, Aligned and Flat hold theorems.
--
--   dbt_common/clients/jinja.py and dbt_common/utils/jinja.py, in Templates: Markers has
--   quoted_native_concat, Signature the parser of typed macros on a list of tokens, Cache the
--   TemplateCache and extract_toplevel_blocks with its cache for tests, which calls find_blocks of
--   Jinja, and Names the names of macros. Printed holds the theorem on types; the others hold their own.
--
--   dbt_common/clients/system.py, in Files: Paths has convert_path and its parts, Archive safe_extract,
--   Commands run_cmd with the interpretation of an OSError, Store the functions that change files
--   (make_directory, make_file, write_file, rename, untar_package), as actions on a state of the file
--   system. What the operating system does is a record of functions in each of them; what Archive relies on of
--   os.path is a record of hypotheses.
--
--   dbt_common/context.py, in Environment.Invocation: the invocation context with its public, private
--   and secret variables. Environment.Recording has the settings of dbt_common/record.py that are read
--   from the environment.
--
--   dbt_common/exceptions/base.py, in Exceptions: Secrets has env_secrets and scrub_secrets on texts,
--   Nodes the DbtRuntimeError with the nodes that it went through. Hidden and Nodes hold theorems.
--
-- Common has the names that all of them share: the Boolean tests, Python dictionaries as association
-- lists in insertion order (Dict), and outcomes of code that may raise (Outcome). Regex is a
-- backtracking matcher for the regular expressions of Python that the program uses, with groups and
-- lazy and greedy repetition, in Python's order of alternatives.
--
-- Bounds and fuel. Numbers are native natural numbers, as Python's integers have no bound and none
-- is negative here. The loops of the matcher run on fuel, the number of characters that are left,
-- since every round of a repetition takes a character. The loops of the TagIterator run on fuel
-- from the length of the template, since every round moves the position forward. A run without
-- enough of it would end in a fault of its own. The parser of typed macros takes a round for each
-- token at most, and gets as many.
--
-- Not modelled, and why: the text of most exceptions, which nothing reads back; digits and letters
-- outside ASCII in the regular expressions; nested values that two configurations share, so that a
-- later change of the one would show in the other; loggers and callbacks that raise; threads
-- outside the streaming recorder; protobuf messages, the serialization library and the JSON
-- library, which are parameters or left out; the parts of dbt_common/clients/jinja.py that are
-- subclasses and environments of the Jinja library; the files of the repository that only call the
-- logging library or declare classes of exceptions and events; and the integers and datetimes that
-- agate reads in texts.
pub mod Common
pub mod Semver
pub mod Regex
pub mod WarnError
pub mod Events
pub mod Config
pub mod Jinja
pub mod Record
pub mod Flags
pub mod ContextVars
pub mod Retry
pub mod Mappings
pub mod Templates
pub mod Tables
pub mod Files
pub mod Environment
pub mod Exceptions
