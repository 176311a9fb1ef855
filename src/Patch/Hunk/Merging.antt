-- ===== src/Patch/Hunk/Merging.antt =====
-- What `merge` does with a translated chunk: it succeeds on the three characters of such a chunk,
-- and moves each of the two line counters past the lines that the chunk holds of its file.
use perfscope.Base.{
  ℕ, ◌+◌, ◌%◌, ◌<◌, ◌≡◌, refl, ◌≢◌, inl, inr, Bool, true, ◌||◌, [], ◌∷◌, ◌++◌, some, arith, Text,
  ◌==◌, if◌then◌else◌, Bool-cases,
}
use perfscope.Base.Result.{ok}
use perfscope.Base.{u32_mod}
use perfscope.Patch.Hunk.{
  addc, delc, repc, ModType, add, del, rep, mod_type, Merge, ends_run, advance, merge_step,
  merge_loop, Reducer, merge,
}

-- The characters of a translated chunk.
abbrev pub is_translated : ℕ → Bool
is_translated c = c == addc || c == delc || c == repc

abbrev pub AllTranslated : Text → Type 0
AllTranslated [] = Unit {0}
AllTranslated (c ∷ b) = (is_translated c ≡ true) × AllTranslated b

-- The characters of a chunk that stand for a line of the old and of the new file.
abbrev pub old_in : Text → ℕ
old_in [] = 0
old_in (c ∷ b) = (if c == addc then 0 else 1) + old_in b

abbrev pub new_in : Text → ℕ
new_in [] = 0
new_in (c ∷ b) = (if c == delc then 0 else 1) + new_in b

-- After a loop over `b` the counters have moved on by the lines of `b`.
pub record Merged (m n : Merge) (b : Text) : Type 0 where
  pub old : n.end ≡ (m.end + old_in b) % u32_mod
  pub new : n.rep_end ≡ (m.rep_end + new_in b) % u32_mod

pub record Fits (m : Merge) : Type 0 where
  pub end : m.end < u32_mod
  pub rep_end : m.rep_end < u32_mod

pub merge_step_lem :
    (m : Merge) (c : ℕ) (rest : Text)
    → is_translated c ≡ true
    → (n : Merge) × (merge_step m c rest ≡ ok n)
      × (n.end ≡ (advance m c).end)
      × (n.rep_end ≡ (advance m c).rep_end)
unfolding merge_step
merge_step_lem m c rest h = elim (Bool-cases (ends_run c rest)) [
  | inr e ↦ (advance m c, ground arith, refl, refl)
  | inl e ↦
      let (t, w) = made c h in
      (
        record (advance m c) {
          newregion = true;
          mods =
              m.mods
              ++ record {
                type = t;
                scope = record { begin = (advance m c).start; end = (advance m c).end };
                rep_scope = record { begin = (advance m c).rep_start; end = (advance m c).rep_end };
              }
                ∷ [];
        },
        ground arith,
        refl,
        refl,
      )
]
  where
    made : (d : ℕ) → is_translated d ≡ true → (t : ModType) × (mod_type d ≡ some t)
    made d k = elim (Bool-cases (d == addc)) [
      | inl a ↦ (add, ground arith)
      | inr a ↦ elim (Bool-cases (d == delc)) [
        | inl b ↦ (del, ground arith)
        | inr b ↦ (rep, ground arith)
      ]
    ]

pub merge_loop_lem :
    (m : Merge) (b : Text)
    → AllTranslated b
    → Fits m
    → (n : Merge) × (merge_loop m b ≡ ok n) × Merged m n b
unfolding merge_loop
merge_loop_lem m [] h f = (m, refl, record { old = omega arith; new = omega arith })
merge_loop_lem m (c ∷ b) h f =
    let (n, step, old, new) = merge_step_lem m c b h.0 in
    let fits : Fits n = record { end = ground (arith, old); rep_end = ground (arith, new) } in
    let (o, run, merged) = merge_loop_lem n b h.1 fits in
    (
      o,
      rw (step, merge_loop) run,
      record { old = ground (arith, old, merged.old); new = ground (arith, new, merged.new) },
    )

-- `merge` succeeds on a translated chunk that is not empty, and touches only the two lines and the
-- modifications.
pub record MergedChunk (r s : Reducer) : Type 0 where
  pub old : s.line ≡ (r.line + old_in r.buf) % u32_mod
  pub new : s.repline ≡ (r.repline + new_in r.buf) % u32_mod
  pub del_cnt : s.del_cnt ≡ r.del_cnt
  pub buf : s.buf ≡ r.buf

abbrev pub merge_start : Reducer → Merge
merge_start r = record {
  start = 0;
  end = r.line;
  rep_start = 0;
  rep_end = r.repline;
  newregion = true;
  mods = r.mods;
}

merge_by :
    (r : Reducer) (b : Text)
    → b ≢ []
    → r.buf ≡ b
    → AllTranslated b
    → Fits (merge_start r)
    → (n : Merge) × (merge_loop (merge_start r) b ≡ ok n)
      × (merge r ≡ ok (record r { line = n.end; repline = n.rep_end; mods = n.mods }))
      × MergedChunk r (record r { line = n.end; repline = n.rep_end; mods = n.mods })
unfolding merge
merge_by r [] ne e h f = absurd (ne refl)
merge_by r (c ∷ b) ne e h f =
    let (n, run, merged) = merge_loop_lem (merge_start r) (c ∷ b) h f in
    (
      n,
      run,
      ground arith,
      record {
        old = ground (arith, merged.old);
        new = ground (arith, merged.new);
        del_cnt = refl;
        buf = refl;
      },
    )

pub merge_lem :
    (r : Reducer)
    → r.buf ≢ []
    → AllTranslated r.buf
    → r.line < u32_mod
    → r.repline < u32_mod
    → (n : Merge) × (merge_loop (merge_start r) r.buf ≡ ok n)
      × (merge r ≡ ok (record r { line = n.end; repline = n.rep_end; mods = n.mods }))
      × MergedChunk r (record r { line = n.end; repline = n.rep_end; mods = n.mods })
merge_lem r ne h l p = merge_by r r.buf ne refl h (record { end = l; rep_end = p })
