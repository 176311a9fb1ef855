-- ===== src/Patch/Stream/Lines.antt =====
-- The decoder over a file of lines: which line comes next, also behind one that was put back.
use perfscope.Base.{
  ℕ, zero, suc, ◌-◌, ◌<◌, ◌≡◌, ◌⊎◌, inl, inr, refl, ap, sym, ◌∙◌, true, false, List, [], ◌∷◌, ◌++◌,
  Option, none, some, Text, arith, length, IsOneLine, print_lines, ◌==◌, inc,
}
use perfscope.Base.Result.{Result, ok}
use perfscope.Patch.Stream.{
  StreamError, bufsize, Decoder, init, take_line, fgetline, next_line, unget_line,
}

-- A line that can be told from the end of the file, and that the buffer takes.
pub record FitsBuffer (l : Text) : Type 0 where
  pub nonempty : 0 < length l
  pub one_line : IsOneLine l
  pub short : length l < bufsize - 1

-- The lines that the decoder has in front of it.
abbrev pub At : Decoder → List Text → Type 0
At d ls =
    ((d.rewind ≡ false) × (d.rest ≡ print_lines ls))
    ⊎ ((behind : List Text) × (d.rewind ≡ true)
        × (ls ≡ d.buf ∷ behind)
        × (d.rest ≡ print_lines behind)
        × (d.readchars ≡ length d.buf))

-- The decoder has just given the line `l`.
pub record Got (d : Decoder) (l : Text) (ls : List Text) : Type 0 where
  pub fresh : d.rewind ≡ false
  pub held : d.buf ≡ l
  pub left : d.rest ≡ print_lines ls
  pub counted : d.readchars ≡ length l

pub init-At : (lineno : ℕ) (ls : List Text) → At (init lineno (print_lines ls)) ls
init-At lineno ls = inl (refl, refl)

pub Got-At : (d : Decoder) (l : Text) (ls : List Text) → Got d l ls → At d ls
Got-At d l ls g = inl (g.fresh, g.left)

pub unget_line-At :
    (d : Decoder) (l : Text) (ls : List Text) → Got d l ls → At (unget_line d) (l ∷ ls)
unfolding unget_line
unget_line-At d l ls g =
    inr (ls, refl, ap (λ b. b ∷ ls) (sym g.held), g.left, g.counted ∙ ap length (sym g.held))

take_line-line :
    (room : ℕ) (l rest : Text)
    → IsOneLine l
    → length l < room
    → take_line room (l ++ b'\n' ∷ rest) ≡ ok (l, rest)
unfolding take_line
take_line-line zero l rest w h = absurd (omega arith)
take_line-line (suc room) [] rest w h = refl
take_line-line (suc room) (c ∷ l) rest w h =
    rw (take_line, w.0, take_line-line room l rest w.1 (omega arith))

-- The next line, whether it is read or was put back.
abbrev pub Gives : Result StreamError (Option Text × Decoder) → Text → List Text → Type 0
Gives step l ls = (d : Decoder) × (step ≡ ok (some l, d)) × Got d l ls

suc-eq_zero : (n : ℕ) → (suc n == 0) ≡ false
suc-eq_zero n = ground arith

next_line-read :
    (d : Decoder) (l : Text) (ls : List Text)
    → FitsBuffer l
    → d.rewind ≡ false
    → d.rest ≡ print_lines (l ∷ ls)
    → Gives (next_line d) l ls
unfolding next_line fgetline
next_line-read d [] ls w f e = absurd (omega (arith, w.nonempty))
next_line-read d (c ∷ l) ls w f e =
    let taken = take_line-line (bufsize - 1) (c ∷ l) (print_lines ls) w.one_line w.short in
    let after : Decoder = record {
      lineno = inc d.lineno;
      readchars = suc (length l);
      buf = c ∷ l;
      rest = print_lines ls;
      rewind = false;
    } in
    (
      after,
      rw (next_line, f, fgetline, e, taken, suc-eq_zero (length l))
          (ap (λ b. ok (some (c ∷ l), record after { rewind = b })) f),
      record { fresh = refl; held = refl; left = refl; counted = refl },
    )

next_line-again :
    (d : Decoder) (l : Text) (ls behind : List Text)
    → d.rewind ≡ true
    → l ∷ ls ≡ d.buf ∷ behind
    → d.rest ≡ print_lines behind
    → d.readchars ≡ length d.buf
    → Gives (next_line d) l ls
unfolding next_line
next_line-again d l ls behind f e r n =
    let same : l ≡ d.buf = cc e in
    let rest : ls ≡ behind = cc e in
    (
      record d { rewind = false },
      rw (next_line, f) (ap (λ b. ok (some b, record d { rewind = false })) (sym same)),
      record {
        fresh = refl;
        held = sym same;
        left = r ∙ ap print_lines (sym rest);
        counted = n ∙ ap length (sym same);
      },
    )

pub next_line-Gives :
    (d : Decoder) (l : Text) (ls : List Text)
    → FitsBuffer l
    → At d (l ∷ ls)
    → Gives (next_line d) l ls
next_line-Gives d l ls w (inl (f, e)) = next_line-read d l ls w f e
next_line-Gives d l ls w (inr (behind, f, e, r, n)) = next_line-again d l ls behind f e r n

-- Behind the last line there is none.
pub next_line-end :
    (d : Decoder)
    → At d []
    → (d' : Decoder) × (next_line d ≡ ok (none, d')) × At d' [] × (d'.readchars ≡ 0)
unfolding next_line fgetline
next_line-end d (inl (f, e)) =
    let after : Decoder = record {
      lineno = d.lineno;
      readchars = 0;
      buf = [];
      rest = [];
      rewind = false;
    } in
    (after, rw (next_line, f, fgetline, e) (cc (f, e)), inl (refl, refl), refl)
next_line-end d (inr (behind, f, e, r, n)) = absurd (cc e)
