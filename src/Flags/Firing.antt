-- ===== src/Flags/Firing.antt =====
-- dbt_common/behavior_flags.py: when a flag fires its event.
use text.Mathlib.Text.{◌==◌}
use dbt_common.Common.{
  ℕ, ◌+◌, String, Bool, true, false, not, ◌&&◌, ◌||◌, List, [], ◌∷◌, ◌++◌, length, keep, All,
  if◌then◌else◌, Bool-cases, ◌≡◌, refl, ap, sym, subst, ◌∙◌, inl, inr, arith, eq_iff,
}
use dbt_common.Common.Dict.{Dict, mem}
use dbt_common.Common.Outcome.{Outcome, ok, raise, ◌>>=◌, >>=-eq-ok, ok-injective}
use dbt_common.Config.Value.{Value}
use dbt_common.Flags.Behavior.{
  BehaviorFlag, BehaviorFlagRendered, BehaviorChangeEvent, FlagFault, no_text, lacks_text, is_false,
  setting, read, Reading, rendered, behavior,
}

-- Reads one after the other, with all their events, whose exceptions their callers catch.
unfoldable pub reads :
    (BehaviorChangeEvent → Bool)
    → List String
    → List BehaviorFlagRendered
    → Outcome FlagFault (List BehaviorChangeEvent × List BehaviorFlagRendered)
unfolding read
reads raises [] flags = ok ([], flags)
reads raises (name ∷ names) flags = read raises name flags >>= λ (reading, events, flags').
    reads raises names flags' >>= λ (later, flags''). ok (events ++ later, flags'')

-- How often the event of a flag is among events.
abbrev pub times : String → List BehaviorChangeEvent → ℕ
times name events = length (keep (λ e. e.flag_name == name) events)

-- The flag of a name is turned off and has not told so.
abbrev pub pending : String → List BehaviorFlagRendered → Bool
pending name [] = false
pending name (flag ∷ flags) =
    let rest = pending name flags in
    if flag.name == name then is_false flag.setting_attr && not flag.fired else rest

-- fire_event raises for the event of the flag of a name.
abbrev pub is_refused : (BehaviorChangeEvent → Bool) → String → List BehaviorFlagRendered → Bool
is_refused raises name [] = false
is_refused raises name (flag ∷ flags) =
    let rest = is_refused raises name flags in if flag.name == name then raises flag.event else rest

-- The event of a flag has its name, as a rendered flag's has.
abbrev IsNamed : BehaviorFlagRendered → Type 0
IsNamed flag = flag.event.flag_name ≡ flag.name

abbrev one_if : Bool → ℕ
one_if true = 1
one_if false = 0

abbrev pub occurrences : String → List String → ℕ
occurrences n [] = 0
occurrences n (m ∷ ms) = one_if (m == n) + occurrences n ms

-- How often an event is to be fired: at every read if it is refused, and else at the first one.
abbrev pub expected_times : (pending refused : Bool) → (count : ℕ) → (is_read : Bool) → ℕ
expected_times pending refused count is_read =
    if pending then (if refused then count else one_if is_read) else 0

times-append :
    (n : String) (es fs : List BehaviorChangeEvent) → times n (es ++ fs) ≡ times n es + times n fs
times-append n [] fs = omega arith
times-append n (e ∷ es) fs = ground (arith, times-append n es fs)

expected_times-first :
    (same pending refused : Bool) (k count : ℕ) (rest : Bool)
    → k ≡ expected_times (pending && not (same && not refused)) refused count rest
    → one_if (same && pending) + k
      ≡ expected_times pending refused (one_if same + count) (same || rest)
expected_times-first same pending refused k count rest h = ground (arith, h)

module _ (raises : BehaviorChangeEvent → Bool) where
  -- What a read of a name does to all names.
  record Reads (name : String) (flags : List BehaviorFlagRendered)
      (events : List BehaviorChangeEvent) (flags' : List BehaviorFlagRendered) : Type 0 where
    named : All IsNamed flags'
    fires : (n : String) → times n events ≡ one_if (name == n && pending n flags)
    settles :
        (n : String)
        → pending n flags' ≡ (pending n flags && not (name == n && not (is_refused raises n flags)))
    keeps : (n : String) → is_refused raises n flags' ≡ is_refused raises n flags

  setting-Reads :
      (flag : BehaviorFlagRendered) (flags : List BehaviorFlagRendered)
      → IsNamed flag
      → All IsNamed flags
      → Reads flag.name (flag ∷ flags) (setting raises flag).1 ((setting raises flag).2 ∷ flags)
  unfolding setting
  setting-Reads flag flags h a = elim (Bool-cases (is_false flag.setting_attr && not flag.fired)) [
    | inl fires ↦ elim (Bool-cases (raises flag.event)) [
      | inl refused ↦
          rw (setting, fires, refused)
            record {
              named = (h, a);
              fires = λ n. rw h (ground (arith, fires));
              settles = λ n. ground (arith, fires, refused);
              keeps = λ n. refl;
            }
      | inr accepted ↦
          rw (setting, fires, accepted)
            record {
              named = (h, a);
              fires = λ n. rw h (ground (arith, fires));
              settles = λ n. ground (arith, fires, accepted);
              keeps = λ n. refl;
            }
    ]
    | inr stays ↦
        rw (setting, stays)
          record {
            named = (h, a);
            fires = λ n. ground (arith, stays);
            settles = λ n. ground (arith, stays);
            keeps = λ n. refl;
          }
  ]

  behind-Reads :
      (name : String) (flag : BehaviorFlagRendered) (flags : List BehaviorFlagRendered)
      (events : List BehaviorChangeEvent) (flags' : List BehaviorFlagRendered)
      → IsNamed flag
      → (flag.name == name) ≡ false
      → Reads name flags events flags'
      → Reads name (flag ∷ flags) events (flag ∷ flags')
  behind-Reads name flag flags events flags' h other rest = record {
    named = (h, rest.named);
    fires = λ n. elim (Bool-cases (flag.name == n)) [
      | inl same ↦ rw (rest.fires n, apart n same) refl
      | inr different ↦ rw different (rest.fires n)
    ];
    settles = λ n. elim (Bool-cases (flag.name == n)) [
      | inl same ↦ rw (same, apart n same) (ground arith)
      | inr different ↦ rw different (rest.settles n)
    ];
    keeps = λ n. elim (Bool-cases (flag.name == n)) [
      | inl same ↦ rw same refl
      | inr different ↦ rw different (rest.keeps n)
    ];
  }
    where
      apart : (n : String) → (flag.name == n) ≡ true → (name == n) ≡ false
      apart n same = ground (arith, other, eq_iff name n, eq_iff flag.name n, eq_iff flag.name name)

  setting_now :
      (flag : BehaviorFlagRendered) (flags : List BehaviorFlagRendered) (reading : Reading)
      (events : List BehaviorChangeEvent) (flags' : List BehaviorFlagRendered)
      → IsNamed flag
      → All IsNamed flags
      → ◌≡◌ {A = Reading × List BehaviorChangeEvent × List BehaviorFlagRendered}
          ((setting raises flag).0, (setting raises flag).1, (setting raises flag).2 ∷ flags)
          (reading, events, flags')
      → Reads flag.name (flag ∷ flags) events flags'
  setting_now flag flags reading events flags' h a p =
      subst (λ r. Reads flag.name (flag ∷ flags) r.1 r.2) p (setting-Reads flag flags h a)

  read-Reads :
      (name : String) (flags : List BehaviorFlagRendered) (reading : Reading)
      (events : List BehaviorChangeEvent) (flags' : List BehaviorFlagRendered)
      → All IsNamed flags
      → read raises name flags ≡ ok (reading, events, flags')
      → Reads name flags events flags'
  unfolding read
  read-Reads name [] reading events flags' a e = cc
  read-Reads name (flag ∷ flags) reading events flags' (h, a) e =
      elim (Bool-cases (flag.name == name)) [
        | inl same ↦
            subst (λ m. Reads m (flag ∷ flags) events flags') ((eq_iff flag.name name).0 same)
              (setting_now flag flags reading events flags' h a (ok-injective (rw same at e)))
        | inr other ↦
            let ((r, es, fs), p, q) = >>=-eq-ok (read raises name flags) _ (rw other at e) in
            subst (λ r. Reads name (flag ∷ flags) r.1 r.2) (ok-injective q)
              (behind-Reads name flag flags es fs h other (read-Reads name flags r es fs a p))
      ]

  -- The same for flags that have the names of their events.
  times-reads :
      (n : String) (names : List String) (flags flags' : List BehaviorFlagRendered)
      (events : List BehaviorChangeEvent)
      → All IsNamed flags
      → reads raises names flags ≡ ok (events, flags')
      → times n events
        ≡ expected_times
            (pending n flags)
            (is_refused raises n flags)
            (occurrences n names)
            (mem n names)
  unfolding reads
  times-reads n [] flags flags' events a e = rw (← ap (λ r. r.0) (ok-injective e)) (ground arith)
  times-reads n (name ∷ names) flags flags' events a e =
      let ((r, es, fs), p, q) = >>=-eq-ok (read raises name flags) _ e in
      let ((es', fs'), p', q') = >>=-eq-ok (reads raises names fs) _ q in
      let first : Reads name flags es fs = read-Reads name flags r es fs a p in
      let rest = times-reads n names fs fs' es' first.named p' in
      ap (λ r. times n r.0) (sym (ok-injective q'))
      ∙ times-append n es es'
      ∙ rw (first.fires n) (
          expected_times-first (name == n) (pending n flags) (is_refused raises n flags)
            (times n es') (occurrences n names) (mem n names)
            (rw (first.settles n, first.keeps n) at rest))

rendered-IsNamed :
    (default_source : String) (user_overrides : Dict Value) (flag : BehaviorFlag)
    (made : BehaviorFlagRendered)
    → rendered default_source user_overrides flag ≡ ok made
    → IsNamed made
unfolding rendered
rendered-IsNamed default_source user_overrides flag made e = elim (Bool-cases (lacks_text flag)) [
  | inl lacks ↦ absurd (no_flag (rw lacks at e))
  | inr has ↦ rw (← ok-injective (rw has at e)) refl
]
  where
    no_flag : ◌≡◌ {A = Outcome FlagFault BehaviorFlagRendered} (raise no_text) (ok made) → ⊥
    no_flag h = cc

behavior-IsNamed :
    (default_source : String) (user_overrides : Dict Value) (given : List BehaviorFlag)
    (flags : List BehaviorFlagRendered)
    → behavior default_source user_overrides given ≡ ok flags
    → All IsNamed flags
unfolding behavior
behavior-IsNamed default_source user_overrides [] flags e = subst (All IsNamed) (ok-injective e) tt
behavior-IsNamed default_source user_overrides (flag ∷ given) flags e =
    let (first, p, q) = >>=-eq-ok (rendered default_source user_overrides flag) _ e in
    let (rest, p', q') = >>=-eq-ok (behavior default_source user_overrides given) _ q in
    subst (All IsNamed) (ok-injective q') (
      rendered-IsNamed default_source user_overrides flag first p,
      behavior-IsNamed default_source user_overrides given rest p',
    )

-- After reads of flags of a new collection, by names that are all registered, whose callers catch what fire_event raises, the event of a name whose flag is turned off was fired at every read of the name, if fire_event raises for it, and else at the first read only. The event of any other name was not fired. Whether fire_event raises is the same each time.
pub times-reads-behavior :
    (raises : BehaviorChangeEvent → Bool) (default_source : String) (user_overrides : Dict Value)
    (given : List BehaviorFlag) (n : String) (names : List String)
    (flags flags' : List BehaviorFlagRendered) (events : List BehaviorChangeEvent)
    → behavior default_source user_overrides given ≡ ok flags
    → reads raises names flags ≡ ok (events, flags')
    → times n events
      ≡ expected_times
          (pending n flags)
          (is_refused raises n flags)
          (occurrences n names)
          (mem n names)
times-reads-behavior raises default_source user_overrides given n names flags flags' events b e =
    times-reads raises n names flags flags' events
      (behavior-IsNamed default_source user_overrides given flags b) e
