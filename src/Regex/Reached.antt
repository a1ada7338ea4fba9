-- ===== src/Regex/Reached.antt =====
-- How far the runs of Regex reach in the text. `least` is the least number of characters that a
-- pattern consumes.
use dbt_common.Common.{
  ℕ, zero, suc, ◌+◌, ◌-◌, ◌≤◌, Bool, true, false, Option, none, some, [], ◌∷◌, Text, length, take,
  ◌==◌, ◌≡◌, arith, Bool-cases, inl, inr,
}
use dbt_common.Common.Dict.{Dict, insert}
use dbt_common.Regex.{
  Pattern, char_of, empty, seq, alt, many, many_lazy, group, end_of_text, Cursor, Continuation,
  step_char, greedy_loop, lazy_loop, at_end, run,
}

abbrev lesser : ℕ → ℕ → ℕ
lesser zero n = zero
lesser (suc m) zero = zero
lesser (suc m) (suc n) = suc (lesser m n)

lesser-bounds : (m n : ℕ) → (lesser m n ≤ m) × (lesser m n ≤ n)
lesser-bounds zero n = (omega arith, omega arith)
lesser-bounds (suc m) zero = (omega arith, omega arith)
lesser-bounds (suc m) (suc n) =
    (omega (arith, (lesser-bounds m n).0), omega (arith, (lesser-bounds m n).1))

unfoldable pub least : Pattern → ℕ
least (char_of p) = 1
least empty = 0
least (seq p q) = least p + least q
least (alt p q) = lesser (least p) (least q)
least (many p) = 0
least (many_lazy p) = 0
least (group name p) = least p
least end_of_text = 0

-- What is reached lies at least n further on, in the same text.
abbrev pub Reaches : ℕ → Cursor → Option Cursor → Type 0
Reaches n c none = Unit
Reaches n c (some d) = (n + c.pos ≤ d.pos) × (d.pos + length d.rest ≡ c.pos + length c.rest)

abbrev Advances : ℕ → Continuation → Type 0
Advances n k = (c : Cursor) → Reaches n c (k c)

pub at_least : (m n : ℕ) (c : Cursor) (o : Option Cursor) → m ≤ n → Reaches n c o → Reaches m c o
at_least m n c none h r = tt
at_least m n c (some d) h r = (omega (arith, r.0), r.1)

step_over :
    (n pos x : ℕ) (xs : Text) (groups : Dict Text) (o : Option Cursor)
    → Reaches n (record { pos = suc pos; rest = xs; groups = groups }) o
    → Reaches (suc n) (record { pos = pos; rest = x ∷ xs; groups = groups }) o
step_over n pos x xs groups none r = tt
step_over n pos x xs groups (some d) r = (omega (arith, r.0), omega (arith, r.1))

either :
    (n : ℕ) (c : Cursor) (o o' : Option Cursor)
    → Reaches n c o
    → Reaches n c o'
    → Reaches n c (elim o [ some d ↦ some d | none ↦ o' ])
either n c none o' r r' = r'
either n c (some d) o' r r' = r

unless :
    (n : ℕ) (c : Cursor) (b : Bool) (o : Option Cursor)
    → Reaches n c o
    → Reaches n c (elim b [ true ↦ none | false ↦ o ])
unless n c true o r = tt
unless n c false o r = r

step_char-Advances :
    (p : ℕ → Bool) (k : Continuation) (n : ℕ)
    → Advances n k
    → (pos : ℕ) (rest : Text) (groups : Dict Text)
    → Reaches
        (suc n)
        (record { pos = pos; rest = rest; groups = groups })
        (step_char p k (record { pos = pos; rest = rest; groups = groups }))
unfolding step_char
step_char-Advances p k n h pos [] groups = tt
step_char-Advances p k n h pos (x ∷ xs) groups = elim (Bool-cases (p x)) [
  | inl is ↦
      rw (is, step_char)
        (step_over n pos x xs groups (k (record { pos = suc pos; rest = xs; groups = groups }))
          (h (record { pos = suc pos; rest = xs; groups = groups })))
  | inr is_not ↦ rw (is_not, step_char) tt
]

module _ (p : Continuation → Continuation) (n : ℕ)
    (moves : (k : Continuation) → Advances n k → Advances n (p k)) (k : Continuation)
    (h : Advances n k) where
  greedy_loop-Advances : (rounds : ℕ) → Advances n (greedy_loop p k rounds)
  unfolding greedy_loop
  greedy_loop-Advances zero c = h c
  greedy_loop-Advances (suc rounds) c =
      either n c _ (k c)
        (moves _
          (λ d.
            unless n d (d.pos == c.pos) (greedy_loop p k rounds d) (greedy_loop-Advances rounds d))
          c)
        (h c)

  lazy_loop-Advances : (rounds : ℕ) → Advances n (lazy_loop p k rounds)
  unfolding lazy_loop
  lazy_loop-Advances zero c = h c
  lazy_loop-Advances (suc rounds) c = either n c (k c) _ (h c) (
      moves _
        (λ d. unless n d (d.pos == c.pos) (lazy_loop p k rounds d) (lazy_loop-Advances rounds d)) c)

pub run-Advances :
    (p : Pattern) (k : Continuation) (n : ℕ) → Advances n k → Advances (least p + n) (run p k)
unfolding run least
run-Advances (char_of p) k n h c =
    at_least _ _ c (step_char p k c) (omega arith)
      (step_char-Advances p k n h c.pos c.rest c.groups)
run-Advances empty k n h c = at_least _ _ c (k c) (omega arith) (h c)
run-Advances (seq p q) k n h c =
    at_least _ _ c (run (seq p q) k c) (omega arith)
      (run-Advances p (run q k) (least q + n) (run-Advances q k n h) c)
run-Advances (alt p q) k n h c =
    let (below, below') = lesser-bounds (least p) (least q) in
    either (lesser (least p) (least q) + n) c (run p k c) (run q k c)
      (at_least _ _ c (run p k c) (omega (arith, below)) (run-Advances p k n h c))
      (at_least _ _ c (run q k c) (omega (arith, below')) (run-Advances q k n h c))
run-Advances (many p) k n h c =
    at_least _ _ c (greedy_loop (run p) k (length c.rest) c) (omega arith) (
      greedy_loop-Advances (run p) n
        (λ k' h' c'.
          at_least n (least p + n) c' (run p k' c') (omega arith) (run-Advances p k' n h' c'))
        k h (length c.rest) c)
run-Advances (many_lazy p) k n h c =
    at_least _ _ c (lazy_loop (run p) k (length c.rest) c) (omega arith) (
      lazy_loop-Advances (run p) n
        (λ k' h' c'.
          at_least n (least p + n) c' (run p k' c') (omega arith) (run-Advances p k' n h' c'))
        k h (length c.rest) c)
run-Advances (group name p) k n h c =
    run-Advances p
      (λ d. k (record d { groups = insert name (take (d.pos - c.pos) c.rest) d.groups })) n
      (λ d. h (record d { groups = insert name (take (d.pos - c.pos) c.rest) d.groups })) c
run-Advances end_of_text k n h c = elim (Bool-cases (at_end c.rest)) [
  | inl is ↦ rw (is, run) (at_least _ _ c (k c) (omega arith) (h c))
  | inr is_not ↦ rw (is_not, run) tt
]
