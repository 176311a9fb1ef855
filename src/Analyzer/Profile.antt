-- ===== src/Analyzer/Profile.antt =====
-- The profile of frequent and expensive functions, lib/commons/LLVMHelper.cpp: its segments, its
-- parser, and the sorted vectors in which the evaluator looks names up.
pub mod Order
pub mod Search
pub mod Parse
pub mod File
use perfscope.Base.{
  ℕ, zero, suc, ◌+◌, ◌-◌, ◌/◌, Bool, true, false, not, ◌&&◌, List, [], ◌∷◌, ◌++◌, Option, none,
  some, Text, text_eq, codes, ltb, leb, ◌==◌, if◌then◌else◌, length, drop, get_elem?,
}
use Prim.Native.Nat.{compare, Ordering}

-- SpeFuncType
pub data SpeFuncType : Type 0 where
  invalidtype syscall lockcall expcall freqcall : SpeFuncType

abbrev pub type_eq : SpeFuncType → SpeFuncType → Bool
type_eq invalidtype invalidtype = true
type_eq syscall syscall = true
type_eq lockcall lockcall = true
type_eq expcall expcall = true
type_eq freqcall freqcall = true
type_eq _ _ = false

-- The enum from its number.
abbrev pub type_of : ℕ → SpeFuncType
type_of n =
    if n == 1
    then syscall
    else if n == 2
    then lockcall
    else if n == 3
    then expcall
    else if n == 4
    then freqcall
    else invalidtype

abbrev pub spe_type_name : List Text
spe_type_name =
    codes "INVALIDTYPE"
    ∷ codes "SYSCALL"
    ∷ codes "LOCKCALL"
    ∷ codes "EXPCALL"
    ∷ codes "FREQCALL"
    ∷ []

abbrev pub spe_type_str : List Text
spe_type_str =
    codes "invalid type"
    ∷ codes "system call"
    ∷ codes "lock call"
    ∷ codes "expensive call"
    ∷ codes "frequent call"
    ∷ []

-- HOTTYPES
abbrev pub hottypes : ℕ
hottypes = 5

-- `none` is a read behind the end of the table.
unfoldable pub to_spe_func_str : ℕ → Option Text
to_spe_func_str type =
    if leb hottypes type then some (codes "UNKNOWN") else get_elem? spe_type_str type

unfoldable pub to_spe_func_name : ℕ → Option Text
to_spe_func_name type =
    if leb hottypes type then some (codes "UNKNOWN") else get_elem? spe_type_name type

-- The loop from SYSCALL to FREQCALL, `n` rounds from `i` on.
pub from_name_loop : ℕ → ℕ → Text → SpeFuncType
unfolding to_spe_func_name
from_name_loop zero i name = invalidtype
from_name_loop (suc n) i name = elim (to_spe_func_name i) [
  | none ↦ invalidtype
  | some s ↦ let rest = from_name_loop n (i + 1) name in if text_eq name s then type_of i else rest
]

unfoldable pub from_spe_type_name : Text → SpeFuncType
unfolding from_name_loop
from_spe_type_name name = from_name_loop 4 1 name

-- std::map from a type to its vector; a type with no entry has the empty vector.
abbrev pub Profile : Type 0
Profile = SpeFuncType → List Text

abbrev pub empty_profile : Profile
empty_profile t = []

abbrev pub push_back : Profile → SpeFuncType → Text → Profile
push_back p t name u = if type_eq u t then p u ++ name ∷ [] else p u

-- The order of std::string.
abbrev pub text_ltb : Text → Text → Bool
text_ltb [] [] = false
text_ltb [] (_ ∷ _) = true
text_ltb (_ ∷ _) [] = false
text_ltb (a ∷ s) (b ∷ t) = elim (compare a b) [
  | Ordering.lt ↦ true
  | Ordering.eq ↦ text_ltb s t
  | Ordering.gt ↦ false
]

-- std::sort, by insertion.
pub insert_sorted : Text → List Text → List Text
insert_sorted x [] = x ∷ []
insert_sorted x (y ∷ ys) = if text_ltb y x then y ∷ insert_sorted x ys else x ∷ y ∷ ys

unfoldable pub sort : List Text → List Text
unfolding insert_sorted
sort [] = []
sort (x ∷ xs) = insert_sorted x (sort xs)

-- std::lower_bound on the `len` elements from `first` on, with the vector's rest behind `first`.
pub lower_bound : ℕ → List Text → ℕ → Text → List Text
lower_bound zero first len v = first
lower_bound (suc fuel) first len v =
    let half = len / 2 in
    let right = lower_bound fuel (drop (half + 1) first) (len - half - 1) v in
    let left = lower_bound fuel first half v in
    if len == 0 then first else elim (get_elem? first half) [
      | none ↦ first
      | some x ↦ if text_ltb x v then right else left
    ]

unfoldable pub binary_search : List Text → Text → Bool
unfolding lower_bound
binary_search xs v = elim (lower_bound (length xs + 1) xs (length xs) v) [
  | [] ↦ false
  | x ∷ _ ↦ not (text_ltb v x)
]

-- fgetline with a buffer of `n + 1` characters: a line, or a part of one that is too long, and what
-- is left of the file.
pub read_line : ℕ → Text → Text × Text
read_line zero s = ([], s)
read_line (suc n) [] = ([], [])
read_line (suc n) (c ∷ s) =
    let (line, rest) = read_line n s in if c == b'\n' then ([], s) else (c ∷ line, rest)

pub lines_from : ℕ → Text → List Text
unfolding read_line
lines_from zero s = []
lines_from (suc fuel) [] = []
lines_from (suc fuel) (c ∷ s) =
    let (line, rest) = read_line 255 (c ∷ s) in line ∷ lines_from fuel rest

-- PROFILE_SEGMENT_BEGIN and PROFILE_SEGMENT_END
abbrev pub segment_mark : Text
segment_mark = codes "===="

-- Which line of a segment's head the parser waits for.
pub data Mode : Type 0 where
  body want_type want_end : Mode

pub record Parser : Type 0 where
  pub mode : Mode
  pub type : SpeFuncType
  pub profile : Profile

-- A line of the file; `none` is a return of false.
pub parse_body : Parser → Text → Option Parser
parse_body p line =
    if text_eq line []
    then some p
    else if text_eq line segment_mark
    then some (record p { mode = want_type })
    else if type_eq p.type invalidtype
    then none
    else some (record p { profile = push_back p.profile p.type line })

pub parse_line : Parser → Text → Option Parser
unfolding parse_body from_spe_type_name
parse_line p line = elim p.mode [
  | body ↦ parse_body p line
  | want_type ↦
      let t = from_spe_type_name line in
      if type_eq t invalidtype then none else some (record p { mode = want_end; type = t })
  | want_end ↦ if text_eq line segment_mark then some (record p { mode = body }) else none
]

pub parse_loop : Parser → List Text → Option Parser
parse_loop p [] = some p
parse_loop p (line ∷ lines) = elim (parse_line p line) [ none ↦ none | some q ↦ parse_loop q lines ]

-- At the end of the file inside a segment's head the profile is refused; else it is sorted.
abbrev pub finish : Parser → Option Profile
finish p = elim p.mode [ body ↦ some (λ t. sort (p.profile t)) | _ ↦ none ]

unfoldable pub parse_profile : Profile → List Text → Option Profile
unfolding parse_loop parse_line
parse_profile profile lines =
    elim (parse_loop (record { mode = body; type = invalidtype; profile = profile }) lines) [
      | none ↦ none
      | some p ↦ finish p
    ]

-- The whole of parseProfile on the characters of the file.
unfoldable pub parse_file : Profile → Text → Option Profile
unfolding parse_profile lines_from
parse_file profile file = parse_profile profile (lines_from (length file) file)
