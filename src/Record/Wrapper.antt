-- ===== src/Record/Wrapper.antt =====
-- dbt_common/record.py, `record_replay_wrapper`: the calls of a recorded function.
use dbt_common.Common.{
  String, Bool, true, false, not, ◌||◌, Option, none, some, List, if◌then◌else◌, ◌≡◌, refl, ap, ◌∙◌,
  Bool-cases, inl, inr,
}
use dbt_common.Common.Dict.{mem}
use dbt_common.Common.Outcome.{Outcome, ok, raise}
use dbt_common.Record.Recorder.{
  Record, Library, Recorder, RecorderMode, recording, replaying, diffing, RecorderFault, add_record,
  expect_record,
}

-- What a call raises: an exception of the recorder, or of the function.
pub data CallFault (E : Type 0) : Type 0 where
  from_recorder : RecorderFault → CallFault E
  from_call : E → CallFault E

-- What a call finds and leaves: the recorder of the invocation context, RECORDED_BY_HIGHER_FUNCTION,
-- and all else. The invocation context keeps its recorder during a call.
pub record Context (P R D W : Type 0) : Type 0 where
  pub recorder : Option (Recorder P R D)
  pub higher : Bool
  pub world : W

-- A recorded function with its arguments: the record class and its group, the parameters, if they
-- can be built, with the answer of `_include`, the call, and the conversions of its result.
pub record Function (P R D W E A : Type 0) : Type 0 where
  pub record_name : String
  pub group : Option String
  pub params : Option P
  pub included : Bool
  pub call : Context P R D W → Outcome (CallFault E) A × Context P R D W
  pub result_of : A → Option R
  pub unpack : Option R → A

-- `record_type.__name__ in types or record_type.group in types`
abbrev group_in : Option String → List String → Bool
group_in none types = false
group_in (some g) types = mem g types

abbrev is_recorded : String → Option String → Option (List String) → Bool
is_recorded name group none = true
is_recorded name group (some types) = mem name types || group_in group types

abbrev is_replaying : RecorderMode → Bool
is_replaying replaying = true
is_replaying recording = false
is_replaying diffing = false

module _ {P R D W E A : Type 0} (lib : Library P R D) where
  -- The record that is made of a call.
  abbrev pub record_of : Function P R D W E A → P → A → Record P R
  record_of f p a = record {
    class_name = f.record_name;
    params = p;
    result = f.result_of a;
    seq = none;
  }

  abbrev with_record :
      Function P R D W E A → Option P → A → Option (Recorder P R D) → Option (Recorder P R D)
  with_record f (some p) a (some s) = some (add_record lib (record_of f p a) s)
  with_record f (some p) a none = none
  with_record f none a recorder = recorder

  -- Behind the call: what it raises is passed on as it is.
  abbrev after_call :
      Function P R D W E A
      → Outcome (CallFault E) A × Context P R D W
      → Outcome (CallFault E) A × Context P R D W
  after_call f (raise e, c) = (raise e, c)
  after_call f (ok a, c) =
      (ok a, record c { higher = false; recorder = with_record f f.params a c.recorder })

  abbrev replayed :
      Function P R D W E A
      → Context P R D W
      → Outcome RecorderFault (Option R × Recorder P R D)
      → Outcome (CallFault E) A × Context P R D W
  replayed f c (ok (r, s)) = (ok (f.unpack r), record c { recorder = some s })
  replayed f c (raise e) = (raise (from_recorder e), c)

  -- The call itself, unless a recorded function made it.
  abbrev recorded_call :
      Function P R D W E A → Context P R D W → Outcome (CallFault E) A × Context P R D W
  recorded_call f c =
      if c.higher then f.call c else after_call f (f.call (record c { higher = true }))

  abbrev replay_or_call :
      Function P R D W E A
      → Option P
      → Recorder P R D
      → Context P R D W
      → Outcome (CallFault E) A × Context P R D W
  replay_or_call f none s c = recorded_call f c
  replay_or_call f (some p) s c =
      if not f.included
      then f.call c
      else if is_replaying s.mode
      then replayed f c (expect_record lib p s)
      else recorded_call f c

  abbrev with_recorder :
      Function P R D W E A
      → Option (Recorder P R D)
      → Context P R D W
      → Outcome (CallFault E) A × Context P R D W
  with_recorder f none c = f.call c
  with_recorder f (some s) c =
      if not (is_recorded f.record_name f.group s.recorded_types)
      then f.call c
      else replay_or_call f f.params s c

  pub record_replay_wrapper :
      Function P R D W E A → Context P R D W → Outcome (CallFault E) A × Context P R D W
  record_replay_wrapper f c = with_recorder f c.recorder c

  -- A function that is recorded in a mode without replay: every type is recorded, and it has parameters.
  pub record Records (f : Function P R D W E A) (p : P) (s : Recorder P R D) : Type 0 where
    pub all_types : s.recorded_types ≡ none
    pub calls : is_replaying s.mode ≡ false
    pub has_params : f.params ≡ some p
    pub is_included : f.included ≡ true

  wrapper-Records :
      (f : Function P R D W E A) (p : P) (s : Recorder P R D) (c : Context P R D W)
      → Records f p s
      → c.recorder ≡ some s
      → record_replay_wrapper f c ≡ recorded_call f c
  unfolding record_replay_wrapper
  wrapper-Records f p s c r e =
      rw (record_replay_wrapper, e)
        (rw (with_recorder, r.all_types) (rw (r.has_params) (rw (r.is_included, r.calls) refl)))

  -- A recorded function that returns the result of another recorded function, which leaves the context as it is: one record is made, of the outer call, and further calls are recorded again.
  pub wrapper-nested :
      (outer inner : Function P R D W E A) (p q : P) (s : Recorder P R D) (c : Context P R D W)
      (a : A)
      → Records outer p s
      → Records inner q s
      → c.recorder ≡ some s
      → c.higher ≡ false
      → ((d : Context P R D W) → outer.call d ≡ record_replay_wrapper inner d)
      → ((d : Context P R D W) → inner.call d ≡ (ok a, d))
      → record_replay_wrapper outer c ≡ (
        ok a,
        record c { higher = false; recorder = some (add_record lib (record_of outer p a) s) },
      )
  wrapper-nested outer inner p q s c a r t e h k l =
      let d : Context P R D W = record c { higher = true } in
      let ran : outer.call d ≡ (ok a, d) = k d ∙ wrapper-Records inner q s d t e ∙ l d in
      wrapper-Records outer p s c r e
      ∙ rw (recorded_call, h) (ap (after_call outer) ran ∙ rw (e, r.has_params) refl)

  stays_set :
      (f : Function P R D W E A) (c : Context P R D W) (e : CallFault E)
      → ((d : Context P R D W) → f.call d ≡ (raise e, d))
      → recorded_call f c ≡ (raise e, record c { higher = true })
  stays_set f c e k = elim (Bool-cases c.higher) [
    | inl set ↦ rw (recorded_call, set) (k (record c { higher = true }))
    | inr unset ↦ rw (recorded_call, unset) (ap (after_call f) (k (record c { higher = true })))
  ]

  -- After a recorded function has raised, with a context that it leaves as it is, a recorded function runs without a record.
  pub wrapper-raise :
      (first second : Function P R D W E A) (p q : P) (s : Recorder P R D) (c : Context P R D W)
      (e : CallFault E)
      → Records first p s
      → Records second q s
      → c.recorder ≡ some s
      → ((d : Context P R D W) → first.call d ≡ (raise e, d))
      → record_replay_wrapper second (record_replay_wrapper first c).1
        ≡ second.call (record c { higher = true })
  wrapper-raise first second p q s c e r t h k =
      let d : Context P R D W = record c { higher = true } in
      ap (λ x. record_replay_wrapper second x.1)
        (wrapper-Records first p s c r h ∙ stays_set first c e k)
      ∙ wrapper-Records second q s d t h
