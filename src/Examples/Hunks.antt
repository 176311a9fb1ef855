-- ===== src/Examples/Hunks.antt =====
-- Control sequences of small hunks.
use perfscope.Base.{
  ◌-◌, ◌+◌, ◌%◌, false, ◌≡◌, refl, true, All, [], ◌∷◌, Text, codes, arith, u32_mod,
}
use perfscope.Base.Result.{ok, err}
use perfscope.Commons.Scope.{includes}
use perfscope.Patch.Hunk.{
  add, del, rep, Mod, Hunk, refused, new_hunk, Reducer, reduce_loop, start_reducer, reduce,
}
use perfscope.Patch.Hunk.Merging.{old_in, new_in}
use perfscope.Patch.Hunk.Lines.{is_reducible, reduce_decides, reduce_loop-lines}
use perfscope.Patch.Hunk.Enclosing.{Chained, scopes, rep_scopes}
use perfscope.Patch.Hunk.Ordered.{reduce-Chained, reduce_encloses}

-- Two lines kept, one replaced, one deleted, one kept, two added.
abbrev mixed : Text
mixed = codes "~~--+~++"

abbrev mixed_result : Hunk
mixed_result = record {
  start_line = 10;
  rep_start_line = 20;
  ctrlseq = mixed;
  enclosing_scope = record { begin = 12; end = 14 };
  rep_enclosing_scope = record { begin = 22; end = 25 };
  mods =
      record {
        type = rep;
        scope = record { begin = 12; end = 12 };
        rep_scope = record { begin = 22; end = 22 };
      }
      ∷ record {
        type = del;
        scope = record { begin = 13; end = 13 };
        rep_scope = record { begin = 22; end = 22 };
      }
      ∷ record {
        type = add;
        scope = record { begin = 14; end = 14 };
        rep_scope = record { begin = 24; end = 25 };
      }
      ∷ [];
}

reduce-mixed : reduce (new_hunk 10 20 mixed) ≡ ok mixed_result
unfolding reduce new_hunk
reduce-mixed = refl

reduce_bad : reduce (new_hunk 10 20 (codes "~-x")) ≡ err refused
unfolding reduce new_hunk
reduce_bad = refl

reduce_decides_example :
    (is_reducible (new_hunk 10 20 mixed) ≡ true
      → (h : Hunk) × (reduce (new_hunk 10 20 mixed) ≡ ok h))
    × (is_reducible (new_hunk 10 20 mixed) ≡ false → reduce (new_hunk 10 20 mixed) ≡ err refused)
reduce_decides_example = reduce_decides (new_hunk 10 20 mixed)

reduce_loop-lines_example :
    (r : Reducer) × (reduce_loop (start_reducer (new_hunk 10 20 mixed)) mixed ≡ ok r)
    × (r.line ≡ (10 + u32_mod - 1 + old_in mixed) % u32_mod)
    × (r.repline ≡ (20 + u32_mod - 1 + new_in mixed) % u32_mod)
unfolding new_hunk
reduce_loop-lines_example = reduce_loop-lines (new_hunk 10 20 mixed) refl

reduce-Chained_example :
    Chained 9 (scopes mixed_result.mods) (9 + old_in mixed)
    × Chained 19 (rep_scopes mixed_result.mods) (19 + new_in mixed)
reduce-Chained_example = reduce-Chained 10 20 mixed mixed_result (omega arith) reduce-mixed

reduce_encloses_example :
    All
      (λ (m : Mod).
        (includes mixed_result.enclosing_scope m.scope ≡ true)
        × (includes mixed_result.rep_enclosing_scope m.rep_scope ≡ true))
      mixed_result.mods
reduce_encloses_example = reduce_encloses 10 20 mixed mixed_result (omega arith) reduce-mixed
