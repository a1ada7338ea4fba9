-- ===== src/Record/Others.antt =====
-- One thread that goes on between others, in a recording (dbt_common/record.py).
use Prim.Native.Nat.{ℕ, ◌+◌, ◌≤◌}
use dbt_common.Common.{List, ◌∷◌, ◌++◌, ◌≡◌, sym, ap, ◌∙◌, ltb, arith}
use dbt_common.Record.Recorder.{Library}
use dbt_common.Record.Threads.{Thread, Shared}
use dbt_common.Record.Tally.{
  Entry, HasEntries, IsOrderly, bit, dumping_at, numbered_as, read_at, total, total-between,
  total-least, written_as,
}

module _ {P R D : Type 0} (lib : Library P R D) where
  -- One thread goes on, between the others.
  module _ (s : Shared P R) (before after : List (Thread P R)) (t : Thread P R)
      (here_it_is : s.threads ≡ before ++ t ∷ after) where
    pub others : (Thread P R → ℕ) → ℕ
    others f = total f before + total f after

    pub total-now : (f : Thread P R → ℕ) → total f s.threads ≡ f t + others f
    unfolding others
    total-now f = ap (total f) here_it_is ∙ total-between f before t after

    pub total-then :
        (f : Thread P R → ℕ) (u : Thread P R) → total f (before ++ u ∷ after) ≡ f u + others f
    unfolding others
    total-then f u = total-between f before u after

    pub unmoved :
        (f : Thread P R → ℕ) (u : Thread P R)
        → f u ≡ f t
        → total f (before ++ u ∷ after) ≡ total f s.threads
    unmoved f u e = omega (arith, e, total-now f, total-then f u)

    pub others-least : (f g : Thread P R → ℕ) → ((v : Thread P R) → f v ≤ g v) → others f ≤ others g
    unfolding others
    others-least f g h = omega (arith, total-least f g h before, total-least f g h after)

    pub same_numbers :
        (u : Thread P R) (n : ℕ)
        → ((k : ℕ) → numbered_as k u ≡ numbered_as k t)
        → n + total read_at (before ++ u ∷ after) ≡ s.counter + total read_at s.threads
        → IsOrderly lib s
        → (k : ℕ)
        → total (numbered_as k) (before ++ u ∷ after)
          ≡ bit (ltb k (n + total read_at (before ++ u ∷ after)))
    same_numbers u n same e o k =
        unmoved (numbered_as k) u (same k) ∙ o.numbers k ∙ ap (λ m. bit (ltb k m)) (sym e)

    pub same_entries :
        (s' : Shared P R) (u : Thread P R)
        → s'.threads ≡ before ++ u ∷ after
        → s'.recording_file ≡ s.recording_file
        → s'.record_added ≡ s.record_added
        → dumping_at u ≡ dumping_at t
        → ((e : Entry) → written_as lib e u ≡ written_as lib e t)
        → HasEntries lib s
        → HasEntries lib s'
    same_entries s' u e f a d w h = record {
      entries = h.entries;
      added = a ∙ h.added;
      file = rw (e, f, a, unmoved dumping_at u d) h.file;
      in_file = λ x. rw (e, unmoved (written_as lib x) u (w x)) (h.in_file x);
    }
