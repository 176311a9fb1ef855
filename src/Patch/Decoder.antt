-- ===== src/Patch/Decoder.antt =====
-- PatchDecoder, Patch and Chapter of lib/parser/PatchIRDecoder/PatchDecoder.cpp: one patch, one chapter
-- and one hunk at a time out of the stream of lines. The three objects share the decoder.
pub mod Printed
pub mod Hunks
pub mod Patches
pub mod Skip
use perfscope.Base.{
  ℕ, zero, suc, ◌+◌, Bool, true, false, not, ◌||◌, List, [], ◌∷◌, Option, none, some, Text, drop,
  length, ◌==◌, if◌then◌else◌,
}
use perfscope.Base.Int.{ℤ, pos, negsuc}
use perfscope.Base.Result.{Result, ok, err, ◌>>=◌}
use perfscope.Commons.Text.{stripname}
use perfscope.Patch.Number.{NumberError, parse_int}
use perfscope.Patch.Hunk.{HunkError, Hunk, new_hunk, reduce}
use perfscope.Patch.Stream.{
  StreamError, syntax_error, assert_failed, out_of_fuel, Decoder, next_line, unget_line, pheader,
  fheader, hheader, starts_with,
}

pub record Chapter : Type 0 where
  pub fullname : Text
  pub filename : Text

-- parseInt reports its errors by syntaxError.
abbrev pub or_syntax_error {ℓ κ} : {E : Type κ} {A : Type ℓ} → Result E A → Result StreamError A
or_syntax_error (ok a) = ok a
or_syntax_error (err _) = err syntax_error

-- assert(hunk->reduce())
abbrev pub or_assert : Result HunkError Hunk → Result StreamError Hunk
or_assert (ok h) = ok h
or_assert (err _) = err assert_failed

-- A line number that is not 0.
pub positive_int : Text → Result StreamError (ℕ × Text)
positive_int s = or_syntax_error (parse_int s) >>= λ r. if r.0 == 0 then err syntax_error else ok r

-- The two numbers behind the header of a hunk.
pub hunk_lines : Text → Result StreamError (ℕ × ℕ)
unfolding positive_int
hunk_lines s = positive_int s >>= λ r. elim r.1 [
  | [] ↦ err syntax_error
  | c ∷ t ↦ if c == b',' then (positive_int t >>= λ q. ok (r.0, q.0)) else err syntax_error
]

-- The control sequence on the next line, reduced.
pub hunk_body : ℕ × ℕ → Decoder → Result StreamError (Option Hunk × Decoder)
hunk_body lines d = next_line d >>= λ r. elim r.0 [
  | none ↦ err syntax_error
  | some seq ↦ or_assert (reduce (new_hunk lines.0 lines.1 seq)) >>= λ h. ok (some h, r.1)
]

-- The line opens a patch or a chapter.
unfoldable pub opens_section : Text → Bool
opens_section line = starts_with pheader line || starts_with fheader line

unfoldable pub next_hunk : Decoder → Result StreamError (Option Hunk × Decoder)
unfolding hunk_lines hunk_body
next_hunk d = next_line d >>= λ r. elim r.0 [
  | none ↦ ok (none, r.1)
  | some line ↦
      if opens_section line
      then ok (none, unget_line r.1)
      else if not (starts_with hheader line)
      then err syntax_error
      else (hunk_lines (drop 4 line) >>= λ lines. hunk_body lines r.1)
]

-- The loop over the lines that are left of a chapter.
pub skip_loop : ℕ → Decoder → Result StreamError Decoder
skip_loop zero d = err out_of_fuel
skip_loop (suc fuel) d = next_line d >>= λ r. elim r.0 [
  | none ↦ ok r.1
  | some line ↦ elim (opens_section line) [
    | true ↦ ok (unget_line r.1)
    | false ↦ skip_loop fuel r.1
  ]
]

-- Every round but one reads a character of the file.
unfoldable pub skip_rest_of_hunks : Decoder → Result StreamError Decoder
unfolding skip_loop
skip_rest_of_hunks d = skip_loop (length d.rest + 2) d

unfoldable pub next_chapter : Decoder → Result StreamError (Option Chapter × Decoder)
next_chapter d = next_line d >>= λ r. elim r.0 [
  | none ↦ ok (none, r.1)
  | some line ↦
      if starts_with pheader line
      then ok (none, unget_line r.1)
      else if not (starts_with fheader line)
      then err syntax_error
      else (next_line r.1 >>= λ q. elim q.0 [
        | none ↦ ok (none, q.1)
        | some name ↦
            ok (some (record { fullname = name; filename = stripname name (negsuc 0) }), q.1)
      ])
]

-- The name of the patch; `chars_read` of a line that is read again is the count from before.
unfoldable pub next_patch : Decoder → Result StreamError (Option Text × Decoder)
next_patch d = next_line d >>= λ r.
    if r.1.readchars == 0
    then ok (none, r.1)
    else if not (starts_with pheader r.1.buf)
    then err syntax_error
    else (next_line r.1 >>= λ q.
        if q.1.readchars == 0 then err syntax_error else ok (some q.1.buf, q.1))

-- The loops of tools/PerfScope/PerfScope.cpp over the hunks of a chapter, the chapters of a patch and
-- the patches of a file, with what they are given.
pub read_hunks : ℕ → Decoder → Result StreamError (List Hunk × Decoder)
unfolding next_hunk
read_hunks zero d = err out_of_fuel
read_hunks (suc fuel) d = next_hunk d >>= λ r. elim r.0 [
  | none ↦ ok ([], r.1)
  | some h ↦ read_hunks fuel r.1 >>= λ q. ok (h ∷ q.0, q.1)
]

pub read_chapters : ℕ → Decoder → Result StreamError (List (Chapter × List Hunk) × Decoder)
unfolding next_chapter read_hunks
read_chapters zero d = err out_of_fuel
read_chapters (suc fuel) d = next_chapter d >>= λ r. elim r.0 [
  | none ↦ ok ([], r.1)
  | some c ↦
      read_hunks fuel r.1 >>= λ hs. read_chapters fuel hs.1 >>= λ q. ok ((c, hs.0) ∷ q.0, q.1)
]

pub read_patches :
    ℕ → Decoder → Result StreamError (List (Text × List (Chapter × List Hunk)) × Decoder)
unfolding next_patch read_chapters
read_patches zero d = err out_of_fuel
read_patches (suc fuel) d = next_patch d >>= λ r. elim r.0 [
  | none ↦ ok ([], r.1)
  | some name ↦
      read_chapters fuel r.1 >>= λ cs. read_patches fuel cs.1 >>= λ q. ok ((name, cs.0) ∷ q.0, q.1)
]
