-- ===== src/Patch/Hunk/Lines.antt =====
-- When `reduce` succeeds, and where its two line counters end.
use perfscope.Base.{
  ◌+◌, ◌-◌, ◌%◌, ◌≡◌, refl, inl, inr, Bool, true, false, not, ◌&&◌, [], ◌∷◌, arith, Text, ◌==◌,
  Bool-cases, length,
}
use perfscope.Base.Result.{ok, err}
use perfscope.Base.{u32_mod}
use perfscope.Patch.Hunk.{refused, Hunk, Reducer, reduce_loop, enclose, start_reducer, reduce}
use perfscope.Patch.Hunk.Merging.{old_in, new_in}
use perfscope.Patch.Hunk.Reduce.{Inv, all_control, dels_in, reduce_loop_lem, reduce_loop_bad}

-- The sequence is not empty and has control characters only, and the first line is not 0.
abbrev pub is_reducible : Hunk → Bool
is_reducible h = not (length h.ctrlseq == 0) && not (h.start_line == 0) && all_control h.ctrlseq

pub start-Inv : (h : Hunk) → Inv (start_reducer h)
unfolding dels_in
start-Inv h = record { counted = refl; translated = tt; line = omega arith; repline = omega arith }

reduce_by :
    (h : Hunk) (s : Text)
    → h.ctrlseq ≡ s
    → (is_reducible h ≡ true → (h' : Hunk) × (reduce h ≡ ok h'))
      × (is_reducible h ≡ false → reduce h ≡ err refused)
unfolding reduce
reduce_by h [] e = (λ k. absurd (ground arith), λ k. ground arith)
reduce_by h (c ∷ s) e = (
  λ k.
      let (t, run, ran) = reduce_loop_lem (start_reducer h) (c ∷ s) (ground arith) (start-Inv h) in
      (enclose h t.mods, ground (arith, run)),
  λ k. elim (Bool-cases (h.start_line == 0)) [
    | inl z ↦ ground arith
    | inr z ↦ ground (arith, reduce_loop_bad (start_reducer h) (c ∷ s) (ground arith) (start-Inv h))
  ],
)

-- `reduce` succeeds on every sequence of control characters that is not empty, from a first line
-- that is not 0, and on any other input it returns false: no assertion in it or in `merge` can
-- fail, and no modification of an unknown kind is made.
pub reduce_decides :
    (h : Hunk)
    → (is_reducible h ≡ true → (h' : Hunk) × (reduce h ≡ ok h'))
      × (is_reducible h ≡ false → reduce h ≡ err refused)
reduce_decides h = reduce_by h h.ctrlseq refl

-- Over a sequence of control characters the loop of `reduce` ends, the line of the old file has
-- moved on by the `~` and `-` of the sequence, and that of the new file by its `~` and `+`, modulo
-- the width of an unsigned.
pub reduce_loop-lines :
    (h : Hunk)
    → all_control h.ctrlseq ≡ true
    → (r : Reducer) × (reduce_loop (start_reducer h) h.ctrlseq ≡ ok r)
      × (r.line ≡ (h.start_line + u32_mod - 1 + old_in h.ctrlseq) % u32_mod)
      × (r.repline ≡ (h.rep_start_line + u32_mod - 1 + new_in h.ctrlseq) % u32_mod)
reduce_loop-lines h k =
    let (t, run, ran) = reduce_loop_lem (start_reducer h) h.ctrlseq k (start-Inv h) in
    (t, run, ground (arith, ran.old), ground (arith, ran.new))
