-- ===== src/Patch/Hunk/Reduce.antt =====
-- The loop of `reduce`: it fails on a character that is none of the three and nowhere else, and
-- its line counters follow the lines of the two files.
use perfscope.Base.{
  ℕ, ◌+◌, ◌%◌, ◌<◌, ◌≡◌, refl, sym, subst, ◌≢◌, ◌⊎◌, inl, inr, Bool, true, false, ◌&&◌, ◌||◌, [],
  ◌∷◌, ◌++◌, some, arith, Text, ◌==◌, if◌then◌else◌, Bool-cases,
}
use perfscope.Base.Result.{ok, err}
use perfscope.Base.{u32_mod, inc, dec}
use perfscope.Patch.Hunk.{
  addc, delc, samc, repc, refused, Merge, merge_loop, Reducer, replace_first, next_in_chunk,
  handle_same, handle_add, handle_del, end_chunk, reduce_step, reduce_loop,
}
use perfscope.Patch.Hunk.Merging.{
  is_translated, AllTranslated, old_in, new_in, merge_start, merge_lem,
}

-- How many `-` are left in a chunk.
unfoldable pub dels_in : Text → ℕ
dels_in [] = 0
dels_in (c ∷ b) = (if c == delc then 1 else 0) + dels_in b

-- What holds between two rounds: the count of `-` is right, and the counters are in range.
pub record Inv (r : Reducer) : Type 0 where
  pub counted : r.del_cnt ≡ dels_in r.buf % u32_mod
  pub translated : AllTranslated r.buf
  pub line : r.line < u32_mod
  pub repline : r.repline < u32_mod

pub AllTranslated-snoc :
    (b : Text) (c : ℕ) → AllTranslated b → is_translated c ≡ true → AllTranslated (b ++ c ∷ [])
AllTranslated-snoc [] c h t = (t, tt)
AllTranslated-snoc (d ∷ b) c h t = (h.0, AllTranslated-snoc b c h.1 t)

dels_in-snoc : (b : Text) (c : ℕ) → dels_in (b ++ c ∷ []) ≡ dels_in b + (if c == delc then 1 else 0)
unfolding dels_in
dels_in-snoc [] c = ground arith
dels_in-snoc (d ∷ b) c = ground (arith, dels_in-snoc b c)

pub old_in-snoc :
    (b : Text) (c : ℕ) → old_in (b ++ c ∷ []) ≡ old_in b + (if c == addc then 0 else 1)
old_in-snoc [] c = ground arith
old_in-snoc (d ∷ b) c = ground (arith, old_in-snoc b c)

pub new_in-snoc :
    (b : Text) (c : ℕ) → new_in (b ++ c ∷ []) ≡ new_in b + (if c == delc then 0 else 1)
new_in-snoc [] c = ground arith
new_in-snoc (d ∷ b) c = ground (arith, new_in-snoc b c)

snoc-ne-nil : (b : Text) (c : ℕ) → b ++ c ∷ [] ≢ []
snoc-ne-nil [] c e = cc
snoc-ne-nil (d ∷ b) c e = cc

-- Where a `-` is left, the first one turns into `^`: the old lines stay, the new ones gain one.
pub record Replaced (b b' : Text) : Type 0 where
  pub dels : dels_in b' + 1 ≡ dels_in b
  pub old : old_in b' ≡ old_in b
  pub new : new_in b' ≡ new_in b + 1
  pub translated : AllTranslated b'
  pub nonempty : b' ≢ []

pub replace_first_lem :
    (b : Text)
    → AllTranslated b
    → 0 < dels_in b
    → (b' : Text) × (replace_first b ≡ some b') × Replaced b b'
unfolding replace_first dels_in
replace_first_lem [] h p = absurd (omega arith)
replace_first_lem (c ∷ b) h p = elim (Bool-cases (c == delc)) [
  | inl e ↦ (
    repc ∷ b,
    ground arith,
    record {
      dels = ground arith;
      old = ground arith;
      new = ground arith;
      translated = (refl, h.1);
      nonempty = λ z. cc;
    },
  )
  | inr e ↦
      let (b', made, r) = replace_first_lem b h.1 (ground arith) in
      (
        c ∷ b',
        ground (arith, made),
        record {
          dels = ground (arith, r.dels);
          old = ground (arith, r.old);
          new = ground (arith, r.new);
          translated = (h.0, r.translated);
          nonempty = λ z. cc;
        },
      )
]

-- What a `+` or a `-` does before the merge.
pub record Grown (r : Reducer) (c : ℕ) (t : Reducer) : Type 0 where
  pub inv : Inv t
  pub nonempty : t.buf ≢ []
  pub line : t.line ≡ r.line
  pub repline : t.repline ≡ r.repline
  pub mods : t.mods ≡ r.mods
  pub old : old_in t.buf ≡ old_in r.buf + (if c == addc then 0 else 1)
  pub new : new_in t.buf ≡ new_in r.buf + (if c == delc then 0 else 1)

handle_del-Grown : (r : Reducer) → Inv r → Grown r delc (handle_del r)
unfolding handle_del
handle_del-Grown r v = record {
  inv = record {
    counted = ground (arith, v.counted, dels_in-snoc r.buf delc);
    translated = AllTranslated-snoc r.buf delc v.translated refl;
    line = v.line;
    repline = v.repline;
  };
  nonempty = snoc-ne-nil r.buf delc;
  line = refl;
  repline = refl;
  mods = refl;
  old = old_in-snoc r.buf delc;
  new = new_in-snoc r.buf delc;
}

handle_add-Grown : (r : Reducer) → Inv r → (t : Reducer) × (handle_add r ≡ ok t) × Grown r addc t
unfolding handle_add
handle_add-Grown r v = elim (Bool-cases (r.del_cnt == 0)) [
  | inl e ↦ (
    record r { add_cnt = inc r.add_cnt; buf = r.buf ++ addc ∷ [] },
    ground arith,
    record {
      inv = record {
        counted = ground (arith, v.counted, dels_in-snoc r.buf addc);
        translated = AllTranslated-snoc r.buf addc v.translated refl;
        line = v.line;
        repline = v.repline;
      };
      nonempty = snoc-ne-nil r.buf addc;
      line = refl;
      repline = refl;
      mods = refl;
      old = old_in-snoc r.buf addc;
      new = new_in-snoc r.buf addc;
    },
  )
  | inr e ↦
      let (b, made, z) = replace_first_lem r.buf v.translated (ground (arith, v.counted)) in
      (
        record r { add_cnt = dec (inc r.add_cnt); buf = b; del_cnt = dec r.del_cnt },
        ground (arith, made),
        record {
          inv = record {
            counted = ground (arith, v.counted, z.dels);
            translated = z.translated;
            line = v.line;
            repline = v.repline;
          };
          nonempty = z.nonempty;
          line = refl;
          repline = refl;
          mods = refl;
          old = ground (arith, z.old);
          new = ground (arith, z.new);
        },
      )
]

-- The lines of a chunk that has begun and is not merged yet.
abbrev pub pending_old : Reducer → Text → ℕ
pending_old r rest = if next_in_chunk rest then old_in r.buf else 0

abbrev pub pending_new : Reducer → Text → ℕ
pending_new r rest = if next_in_chunk rest then new_in r.buf else 0

-- A round leaves the modifications alone, or ends with the loop of `merge` on the grown chunk.
pub record Kept (r : Reducer) (c : ℕ) (s : Reducer) : Type 0 where
  pub mods : s.mods ≡ r.mods
  pub line : (s.line ≡ r.line) ⊎ (c ≡ samc) × (s.line ≡ inc r.line)
  pub repline : (s.repline ≡ r.repline) ⊎ (c ≡ samc) × (s.repline ≡ inc r.repline)

pub record MergedBy (r : Reducer) (c : ℕ) (s : Reducer) : Type 0 where
  pub grown : Reducer
  pub result : Merge
  pub run : merge_loop (merge_start grown) grown.buf ≡ ok result
  pub nonempty : grown.buf ≢ []
  pub line : grown.line ≡ r.line
  pub repline : grown.repline ≡ r.repline
  pub mods : grown.mods ≡ r.mods
  pub old : old_in grown.buf ≡ old_in r.buf + (if c == addc then 0 else 1)
  pub new : new_in grown.buf ≡ new_in r.buf + (if c == delc then 0 else 1)
  pub to_line : s.line ≡ result.end
  pub to_repline : s.repline ≡ result.rep_end
  pub to_mods : s.mods ≡ result.mods

pub record Stepped (r : Reducer) (c : ℕ) (rest : Text) (s : Reducer) : Type 0 where
  pub inv : Inv s
  pub old :
      (s.line + pending_old s rest) % u32_mod
      ≡ (r.line + pending_old r (c ∷ rest) + (if c == addc then 0 else 1)) % u32_mod
  pub new :
      (s.repline + pending_new s rest) % u32_mod
      ≡ (r.repline + pending_new r (c ∷ rest) + (if c == delc then 0 else 1)) % u32_mod
  pub old_exact :
      r.line + pending_old r (c ∷ rest) + (if c == addc then 0 else 1) < u32_mod
      → s.line + pending_old s rest
        ≡ r.line + pending_old r (c ∷ rest) + (if c == addc then 0 else 1)
  pub new_exact :
      r.repline + pending_new r (c ∷ rest) + (if c == delc then 0 else 1) < u32_mod
      → s.repline + pending_new s rest
        ≡ r.repline + pending_new r (c ∷ rest) + (if c == delc then 0 else 1)
  pub effect :
      Kept r c s
      ⊎ ((next_in_chunk rest ≡ false) × (next_in_chunk (c ∷ rest) ≡ true) × MergedBy r c s)

-- The characters of a control sequence.
abbrev pub is_control : ℕ → Bool
is_control c = c == samc || c == addc || c == delc

handle_same-Stepped : (r : Reducer) (rest : Text) → Inv r → Stepped r samc rest (handle_same r rest)
unfolding handle_same dels_in
handle_same-Stepped r rest v = elim (Bool-cases (next_in_chunk rest)) [
  | inl e ↦ record {
    inv = record {
      counted = rw e refl;
      translated = rw e tt;
      line = ground arith;
      repline = ground arith;
    };
    old = ground arith;
    new = ground arith;
    old_exact = λ h. ground arith;
    new_exact = λ h. ground arith;
    effect = inl (record {
      mods = ground arith;
      line = inr (refl, ground arith);
      repline = inr (refl, ground arith);
    });
  }
  | inr e ↦ record {
    inv = record {
      counted = rw e v.counted;
      translated = rw e v.translated;
      line = ground arith;
      repline = ground arith;
    };
    old = ground arith;
    new = ground arith;
    old_exact = λ h. ground arith;
    new_exact = λ h. ground arith;
    effect = inl (record {
      mods = ground arith;
      line = inr (refl, ground arith);
      repline = inr (refl, ground arith);
    });
  }
]

end_chunk-Stepped :
    (r t : Reducer) (c : ℕ) (rest : Text)
    → (c == samc) ≡ false
    → Grown r c t
    → (s : Reducer) × (end_chunk t rest ≡ ok s) × Stepped r c rest s
unfolding end_chunk
end_chunk-Stepped r t c rest d g = elim (Bool-cases (next_in_chunk rest)) [
  | inl e ↦ (
    t,
    ground arith,
    record {
      inv = g.inv;
      old = ground (arith, g.line, g.old);
      new = ground (arith, g.repline, g.new);
      old_exact = λ h. ground (arith, g.line, g.old);
      new_exact = λ h. ground (arith, g.repline, g.new);
      effect = inl (record { mods = g.mods; line = inl g.line; repline = inl g.repline });
    },
  )
  | inr e ↦
      let (n, run, merged, m) = merge_lem t g.nonempty g.inv.translated g.inv.line g.inv.repline in
      (
        record t { line = n.end; repline = n.rep_end; mods = n.mods },
        ground (arith, merged),
        record {
          inv = record {
            counted = g.inv.counted;
            translated = g.inv.translated;
            line = ground (arith, m.old);
            repline = ground (arith, m.new);
          };
          old = ground (arith, m.old, g.line, g.old);
          new = ground (arith, m.new, g.repline, g.new);
          old_exact = λ h. ground (arith, m.old, g.line, g.old);
          new_exact = λ h. ground (arith, m.new, g.repline, g.new);
          effect = inr (
            e,
            ground arith,
            record {
              grown = t;
              result = n;
              run = run;
              nonempty = g.nonempty;
              line = g.line;
              repline = g.repline;
              mods = g.mods;
              old = g.old;
              new = g.new;
              to_line = refl;
              to_repline = refl;
              to_mods = refl;
            },
          );
        },
      )
]

-- A round on a control character goes through, keeps the invariant and moves both lines.
pub reduce_step_lem :
    (r : Reducer) (c : ℕ) (rest : Text)
    → is_control c ≡ true
    → Inv r
    → (s : Reducer) × (reduce_step r c rest ≡ ok s) × Stepped r c rest s
unfolding reduce_step
reduce_step_lem r c rest k v = elim (Bool-cases (c == samc)) [
  | inl e ↦
      let same : c ≡ samc = ground arith in
      (
        handle_same r rest,
        ground arith,
        subst (λ d. Stepped r d rest (handle_same r rest)) (sym same)
            (handle_same-Stepped r rest v),
      )
  | inr e ↦ elim (Bool-cases (c == addc)) [
    | inl f ↦
        let plus : c ≡ addc = ground arith in
        let (t, made, g) = handle_add-Grown r v in
        let (s, ended, st) = end_chunk-Stepped r t addc rest refl g in
        (s, ground (arith, made, ended), subst (λ d. Stepped r d rest s) (sym plus) st)
    | inr f ↦
        let minus : c ≡ delc = ground arith in
        let (s, ended, st) =
          end_chunk-Stepped r (handle_del r) delc rest refl (handle_del-Grown r v) in
        (s, ground (arith, ended), subst (λ d. Stepped r d rest s) (sym minus) st)
  ]
]

abbrev pub all_control : Text → Bool
all_control [] = true
all_control (c ∷ s) = is_control c && all_control s

-- What the loop leaves when it has gone through the sequence.
pub record Ran (r : Reducer) (s : Text) (t : Reducer) : Type 0 where
  pub inv : Inv t
  pub old : t.line ≡ (r.line + pending_old r s + old_in s) % u32_mod
  pub new : t.repline ≡ (r.repline + pending_new r s + new_in s) % u32_mod

pub reduce_loop_lem :
    (r : Reducer) (s : Text)
    → all_control s ≡ true
    → Inv r
    → (t : Reducer) × (reduce_loop r s ≡ ok t) × Ran r s t
unfolding reduce_loop
reduce_loop_lem r [] k v =
    (r, refl, record { inv = v; old = omega (arith, v.line); new = omega (arith, v.repline) })
reduce_loop_lem r (c ∷ rest) k v =
    let (s, step, st) = reduce_step_lem r c rest (ground arith) v in
    let (t, run, ran) = reduce_loop_lem s rest (ground arith) st.inv in
    (
      t,
      rw (step, reduce_loop) run,
      record {
        inv = ran.inv;
        old = omega (arith, ran.old, st.old);
        new = omega (arith, ran.new, st.new);
      },
    )

reduce_step_bad :
    (r : Reducer) (c : ℕ) (rest : Text) → is_control c ≡ false → reduce_step r c rest ≡ err refused
unfolding reduce_step
reduce_step_bad r c rest k = ground arith

pub reduce_loop_bad :
    (r : Reducer) (s : Text) → all_control s ≡ false → Inv r → reduce_loop r s ≡ err refused
unfolding reduce_loop
reduce_loop_bad r [] k v = cc
reduce_loop_bad r (c ∷ rest) k v = elim (Bool-cases (is_control c)) [
  | inr e ↦ rw (reduce_step_bad r c rest e)
  | inl e ↦
      let (s, step, st) = reduce_step_lem r c rest e v in
      rw (step, reduce_loop) (reduce_loop_bad s rest (ground arith) st.inv)
]
