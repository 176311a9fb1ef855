-- ===== src/Patch/Hunk.antt =====
-- Hunk of lib/parser/PatchIRDecoder/PatchDecoder.cpp: the reduction of a control sequence of `~`,
-- `+` and `-` to modified line ranges. `seqlen` is the length of the sequence, `gBuf` the list of
-- its first `buf_len` characters; an `unsigned` wraps at 2 ^ 32.
pub mod Merging
pub mod Reduce
pub mod Lines
pub mod Enclosing
pub mod Ordered
use perfscope.Base.{
  ℕ, zero, suc, ◌+◌, ◌-◌, ◌%◌, ◌^◌, Bool, true, false, not, ◌&&◌, ◌||◌, List, [], ◌∷◌, ◌++◌, Option,
  none, some, Text, ◌==◌, if◌then◌else◌, u32_mod, inc, dec,
}
use perfscope.Base.Result.{Result, ok, err, ◌>>=◌}
use perfscope.Commons.Scope.{Scope, no_scope}

-- ADDC, DELC, SAMC and REPC
abbrev pub addc : ℕ
addc = b'+'

abbrev pub delc : ℕ
delc = b'-'

abbrev pub samc : ℕ
samc = b'~'

abbrev pub repc : ℕ
repc = b'^'

-- MODTYPE
pub data ModType : Type 0 where
  add del rep : ModType

pub record Mod : Type 0 where
  pub type : ModType
  pub scope : Scope
  pub rep_scope : Scope

-- `refused` is a return of false; a failed assertion and `diegrace` end the program.
pub data HunkError : Type 0 where
  refused assert_failed invalid_mod : HunkError

pub record Hunk : Type 0 where
  pub start_line : ℕ
  pub rep_start_line : ℕ
  pub ctrlseq : Text
  pub enclosing_scope : Scope
  pub rep_enclosing_scope : Scope
  pub mods : List Mod

unfoldable pub new_hunk : ℕ → ℕ → Text → Hunk
new_hunk start rep_start seq = record {
  start_line = start;
  rep_start_line = rep_start;
  ctrlseq = seq;
  enclosing_scope = no_scope;
  rep_enclosing_scope = no_scope;
  mods = [];
}

abbrev pub mod_type : ℕ → Option ModType
mod_type c =
    if c == addc
    then some add
    else if c == delc
    then some del
    else if c == repc
    then some rep
    else none

abbrev pub new_mod : ℕ → ℕ → ℕ → ℕ → ℕ → Option Mod
new_mod start end repstart repend c = elim (mod_type c) [
  | none ↦ none
  | some t ↦ some (record {
    type = t;
    scope = record { begin = start; end = end };
    rep_scope = record { begin = repstart; end = repend };
  })
]

-- The variables of `merge` before a round of its loop.
pub record Merge : Type 0 where
  pub start : ℕ
  pub end : ℕ
  pub rep_start : ℕ
  pub rep_end : ℕ
  pub newregion : Bool
  pub mods : List Mod

-- The character ends a run: nothing follows, or another character.
abbrev pub ends_run : ℕ → Text → Bool
ends_run c [] = true
ends_run c (d ∷ _) = not (c == d)

-- One round up to the test for the end of a run.
abbrev pub advance : Merge → ℕ → Merge
advance m c =
    let e = if c == addc then m.end else inc m.end in
    let r = if c == delc then m.rep_end else inc m.rep_end in
    record m {
      start = if m.newregion then e else m.start;
      end = e;
      rep_start = if m.newregion then r else m.rep_start;
      rep_end = r;
      newregion = false;
    }

-- One whole round.
pub merge_step : Merge → ℕ → Text → Result HunkError Merge
merge_step m c rest =
    let n = advance m c in
    if ends_run c rest
    then elim (new_mod n.start n.end n.rep_start n.rep_end c) [
      | none ↦ err invalid_mod
      | some made ↦ ok (record n { newregion = true; mods = n.mods ++ made ∷ [] })
    ]
    else ok n

pub merge_loop : Merge → Text → Result HunkError Merge
merge_loop m [] = ok m
merge_loop m (c ∷ rest) = merge_step m c rest >>= λ n. merge_loop n rest

-- The variables of `reduce` before a round of its loop.
pub record Reducer : Type 0 where
  pub line : ℕ
  pub repline : ℕ
  pub del_cnt : ℕ
  pub add_cnt : ℕ
  pub buf : Text
  pub mods : List Mod

pub merge : Reducer → Result HunkError Reducer
unfolding merge_loop merge_step
merge r = elim r.buf [
  | [] ↦ err assert_failed
  | _ ∷ _ ↦
      merge_loop
        (record {
          start = 0;
          end = r.line;
          rep_start = 0;
          rep_end = r.repline;
          newregion = true;
          mods = r.mods;
        })
        r.buf
      >>= λ m. ok (record r { line = m.end; repline = m.rep_end; mods = m.mods })
]

-- The first `-` becomes `^`.
pub replace_first : Text → Option Text
replace_first [] = none
replace_first (c ∷ b) =
    if c == delc
    then some (repc ∷ b)
    else elim (replace_first b) [ none ↦ none | some b' ↦ some (c ∷ b') ]

-- The next character stands in a chunk.
abbrev pub next_in_chunk : Text → Bool
next_in_chunk [] = false
next_in_chunk (c ∷ _) = not (c == samc)

-- The cases of the `switch`.
pub handle_same : Reducer → Text → Reducer
handle_same r rest =
    let s = record r { line = inc r.line; repline = inc r.repline } in
    if next_in_chunk rest then record s { buf = []; del_cnt = 0; add_cnt = 0 } else s

pub handle_add : Reducer → Result HunkError Reducer
unfolding replace_first
handle_add r =
    let s = record r { add_cnt = inc r.add_cnt } in
    if r.del_cnt == 0
    then ok (record s { buf = s.buf ++ addc ∷ [] })
    else elim (replace_first s.buf) [
      | none ↦ err assert_failed
      | some b ↦ ok (record s { buf = b; add_cnt = dec s.add_cnt; del_cnt = dec s.del_cnt })
    ]

pub handle_del : Reducer → Reducer
handle_del r = record r { del_cnt = inc r.del_cnt; buf = r.buf ++ delc ∷ [] }

-- The merge behind the `switch`, at the last character of a chunk.
pub end_chunk : Reducer → Text → Result HunkError Reducer
unfolding merge
end_chunk r rest = if next_in_chunk rest then ok r else merge r

pub reduce_step : Reducer → ℕ → Text → Result HunkError Reducer
unfolding handle_same handle_add handle_del end_chunk
reduce_step r c rest =
    if c == samc
    then ok (handle_same r rest)
    else if c == addc
    then (handle_add r >>= λ s. end_chunk s rest)
    else if c == delc
    then end_chunk (handle_del r) rest
    else err refused

pub reduce_loop : Reducer → Text → Result HunkError Reducer
reduce_loop r [] = ok r
reduce_loop r (c ∷ rest) = reduce_step r c rest >>= λ s. reduce_loop s rest

abbrev pub last_mod : Mod → List Mod → Mod
last_mod m [] = m
last_mod m (n ∷ ms) = last_mod n ms

-- The scopes from the first to the last modification.
pub enclose : Hunk → List Mod → Hunk
enclose h [] = record h { mods = [] }
enclose h (m ∷ ms) = record h {
  enclosing_scope = record { begin = m.scope.begin; end = (last_mod m ms).scope.end };
  rep_enclosing_scope = record { begin = m.rep_scope.begin; end = (last_mod m ms).rep_scope.end };
  mods = m ∷ ms;
}

abbrev pub start_reducer : Hunk → Reducer
start_reducer h = record {
  line = dec h.start_line;
  repline = dec h.rep_start_line;
  del_cnt = 0;
  add_cnt = 0;
  buf = [];
  mods = h.mods;
}

unfoldable pub reduce : Hunk → Result HunkError Hunk
unfolding reduce_loop reduce_step enclose
reduce h = elim h.ctrlseq [
  | [] ↦ err refused
  | _ ∷ _ ↦
      if h.start_line == 0
      then err refused
      else (reduce_loop (start_reducer h) h.ctrlseq >>= λ r. ok (enclose h r.mods))
]
