-- ===== src/Patch/Stream.antt =====
-- PatchDecoder of lib/parser/PatchIRDecoder/PatchDecoder.cpp: the lines of the file, one of which can
-- be put back, and fgetline of lib/commons/handy.cc, which reads them.
pub mod Lines
pub mod Shorter
use perfscope.Base.{
  ℕ, zero, suc, ◌-◌, Bool, true, false, List, [], ◌∷◌, Option, none, some, Text, codes, text_eq,
  take, length, ◌==◌, if◌then◌else◌, inc,
}
use perfscope.Base.Result.{Result, ok, err, ◌>>=◌}

-- What ends the program, but for `stale_buffer`: fgetline moves the buffer and its caller goes on
-- with the old one. `out_of_fuel` would be a loop that does not end.
pub data StreamError : Type 0 where
  unexpected_eof stale_buffer syntax_error assert_failed out_of_fuel : StreamError

-- BUFSIZE
abbrev pub bufsize : ℕ
bufsize = 8192

-- `rest` is what the file holds from the position of `fp` on.
pub record Decoder : Type 0 where
  pub lineno : ℕ
  pub readchars : ℕ
  pub buf : Text
  pub rest : Text
  pub rewind : Bool

-- init, whose `lineno` is not set by the source.
abbrev pub init : ℕ → Text → Decoder
init lineno file = record { lineno = lineno; readchars = 0; buf = []; rest = file; rewind = false }

-- The characters up to the end of the line, into a buffer with `room` left before its last place.
pub take_line : ℕ → Text → Result StreamError (Text × Text)
take_line zero s = err stale_buffer
take_line (suc room) [] = err unexpected_eof
take_line (suc room) (c ∷ s) =
    if c == b'\n' then ok ([], s) else (take_line room s >>= λ r. ok (c ∷ r.0, r.1))

-- The number of characters read is left in `readchars`; at the end of the file it is 0.
pub fgetline : Decoder → Result StreamError Decoder
unfolding take_line
fgetline d = elim d.rest [
  | [] ↦ ok (record d { buf = []; readchars = 0 })
  | c ∷ s ↦ take_line (bufsize - 1) (c ∷ s) >>= λ r.
      ok (record d { buf = r.0; rest = r.1; readchars = length r.0; lineno = inc d.lineno })
]

-- A line of no characters is a null pointer, as the end of the file is.
pub next_line : Decoder → Result StreamError (Option Text × Decoder)
unfolding fgetline
next_line d =
    let fed = fgetline d >>= λ e. ok (if e.readchars == 0 then none else some e.buf, e) in
    if d.rewind then ok (some d.buf, record d { rewind = false }) else fed

pub unget_line : Decoder → Decoder
unget_line d = record d { rewind = true }

-- PHEADER, FHEADER and HHEADER
abbrev pub pheader : Text
pheader = codes "****"

abbrev pub fheader : Text
fheader = codes "===="

abbrev pub hheader : Text
hheader = codes "####"

-- strncmp(line, header, 4) == 0
abbrev pub starts_with : Text → Text → Bool
starts_with header line = text_eq (take 4 line) header
