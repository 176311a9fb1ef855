-- ===== src/Patch/Stream/Shorter.antt =====
-- Every line that is read shortens what the file has left.
use perfscope.Base.{
  ℕ, zero, suc, ◌-◌, ◌<◌, ◌≤◌, ◌≡◌, ◌⊎◌, inl, inr, refl, sym, subst, ap, ◌∙◌, true, false, [], ◌∷◌,
  Option, none, some, Text, arith, length, Bool-cases, ◌==◌, if◌then◌else◌, inc,
}
use perfscope.Base.Result.{Result, ok, err, ◌>>=◌}
use perfscope.Patch.Stream.{
  StreamError, unexpected_eof, stale_buffer, bufsize, Decoder, take_line, fgetline, next_line,
  unget_line,
}

-- The errors of fgetline.
abbrev pub IsReadError : StreamError → Type 0
IsReadError e = (e ≡ stale_buffer) ⊎ (e ≡ unexpected_eof)

-- A line and a shorter rest, or an error.
abbrev Taken : Text → Result StreamError (Text × Text) → Type 0
Taken s (ok r) = length r.1 < length s
Taken s (err e) = IsReadError e

Taken-cons :
    (c : ℕ) (s : Text) (r : Result StreamError (Text × Text))
    → Taken s r
    → Taken (c ∷ s) (r >>= λ q. ok (c ∷ q.0, q.1))
Taken-cons c s (ok r) w = omega arith
Taken-cons c s (err e) w = w

take_line-Taken : (room : ℕ) (s : Text) → Taken s (take_line room s)
unfolding take_line
take_line-Taken zero s = inl refl
take_line-Taken (suc room) [] = inr refl
take_line-Taken (suc room) (c ∷ s) = elim (Bool-cases (c == b'\n')) [
  | inl e ↦ rw (take_line, e) (omega arith)
  | inr e ↦ rw (take_line, e) (Taken-cons c s (take_line room s) (take_line-Taken room s))
]

-- The decoder holds the line and reads on from it, with less of the file in front of it.
pub record Onward (d d' : Decoder) (l : Text) : Type 0 where
  pub holds : d'.buf ≡ l
  pub fresh : d'.rewind ≡ false
  pub shorter : d.rewind ≡ false → length d'.rest < length d.rest
  pub no_longer : length d'.rest ≤ length d.rest

abbrev pub Steps : Decoder → Result StreamError (Option Text × Decoder) → Type 0
Steps d (ok (some l, d')) = Onward d d' l
Steps d (ok (none, d')) = (d'.rewind ≡ false) × (d'.readchars ≡ 0)
Steps d (err e) = IsReadError e

feed-Steps :
    (d : Decoder) (s : Text) (r : Result StreamError (Text × Text))
    → d.rewind ≡ false
    → d.rest ≡ s
    → Taken s r
    → Steps d (
        r
        >>= (λ q.
            ok (record d { buf = q.0; rest = q.1; readchars = length q.0; lineno = inc d.lineno }))
        >>= λ e. ok (if e.readchars == 0 then none else some e.buf, e))
feed-Steps d s (err e) f h w = w
feed-Steps d s (ok r) f h w = elim (Bool-cases (length r.0 == 0)) [
  | inl z ↦ rw z (f, ground arith)
  | inr z ↦ rw z (record {
    holds = refl;
    fresh = f;
    shorter = λ k. ground (arith, w, ap length h);
    no_longer = ground (arith, w, ap length h);
  })
]

next_line-feed :
    (d : Decoder) (c : ℕ) (s : Text)
    → d.rewind ≡ false
    → d.rest ≡ c ∷ s
    → next_line d ≡ (
        take_line (bufsize - 1) (c ∷ s)
        >>= (λ q.
            ok (record d { buf = q.0; rest = q.1; readchars = length q.0; lineno = inc d.lineno }))
        >>= λ e. ok (if e.readchars == 0 then none else some e.buf, e))
unfolding next_line fgetline
next_line-feed d c s f e =
    ap
      (λ b.
        if b
        then ok (some d.buf, record d { rewind = false })
        else (fgetline d >>= λ e'. ok (if e'.readchars == 0 then none else some e'.buf, e')))
      f
    ∙ rw (fgetline, e)

pub next_line-Steps : (d : Decoder) → Steps d (next_line d)
unfolding next_line fgetline
next_line-Steps d = elim (Bool-cases d.rewind) [
  | inl f ↦
      rw (next_line, f)
        (record { holds = refl; fresh = refl; shorter = λ k. cc k; no_longer = omega arith })
  | inr f ↦ go d.rest refl f
]
  where
    go : (s : Text) → d.rest ≡ s → d.rewind ≡ false → Steps d (next_line d)
    go [] e f = rw (next_line, f, fgetline, e) (f, refl)
    go (c ∷ s) e f = subst (Steps d) (sym (next_line-feed d c s f e)) (
        feed-Steps d (c ∷ s) (take_line (bufsize - 1) (c ∷ s)) f e
          (take_line-Taken (bufsize - 1) (c ∷ s)))

pub unget_line_lem : (d : Decoder) → ((unget_line d).rewind ≡ true) × ((unget_line d).buf ≡ d.buf)
unfolding unget_line
unget_line_lem d = (refl, refl)
