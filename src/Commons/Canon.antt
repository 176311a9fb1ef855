-- ===== src/Commons/Canon.antt =====
-- canonpath and pathneq of lib/commons/handy.cc. The buffer `rpath` up to `dest` is the list of its
-- characters, the last first, so that `dest[-1]` is the head.
pub mod Spec
pub mod Components
pub mod Refines
pub mod Bounded
pub mod Underflow
use perfscope.Base.{
  ℕ, zero, suc, ◌+◌, Bool, true, false, not, ◌&&◌, List, [], ◌∷◌, ◌++◌, reverse, Text, text_eq,
  codes, leb, ◌==◌, if◌then◌else◌, length,
}
use perfscope.Base.Int.{ℤ}
use perfscope.Base.Result.{Result, ok, err, ◌>>=◌}
use perfscope.Commons.Text.{is_slash, starts_slash, stripname}

-- The first three are returns of a null pointer. `underflow` is a read in front of the buffer, and
-- `out_of_fuel` would be a loop that does not end.
pub data CanonError : Type 0 where
  empty_name rooted_above too_long underflow out_of_fuel : CanonError

abbrev pub max_path : ℕ
max_path = 512

-- The buffer is the function's own, and grows as it must, or one of the caller, who has to give one of
-- `max_path` characters, since the function does not ask for its size.
pub data Resolved : Type 0 where
  own callers : Resolved

abbrev pub skip_slashes : Text → Text
skip_slashes [] = []
skip_slashes (c ∷ s) = if is_slash c then skip_slashes s else c ∷ s

-- The characters from `start` to `end`, and those from `end` on.
abbrev pub component : Text → Text
component [] = []
component (c ∷ s) = if is_slash c then [] else c ∷ component s

abbrev pub after_component : Text → Text
after_component [] = []
after_component (c ∷ s) = if is_slash c then c ∷ s else after_component s

abbrev pub dot : Text
dot = codes "."

abbrev pub dot_dot : Text
dot_dot = codes ".."

-- while ((dest > rpath + 1) && (--dest)[-1] != '/');
pub back_up_loop : Text → Text
back_up_loop [] = []
back_up_loop (c ∷ []) = c ∷ []
back_up_loop (c ∷ d ∷ r) = elim (is_slash d) [ true ↦ d ∷ r | false ↦ back_up_loop (d ∷ r) ]

pub back_up : Text → Result CanonError Text
unfolding back_up_loop
back_up r = elim (back_up_loop r) [
  | [] ↦ err underflow
  | c ∷ r' ↦ ok (if is_slash c then c ∷ r' else r')
]

abbrev pub separate : Text → Text
separate [] = []
separate (c ∷ r) = if is_slash c then c ∷ r else b'/' ∷ c ∷ r

-- ENAMETOOLONG, for a buffer of the caller.
abbrev pub exceeds : Resolved → ℕ → Bool
exceeds own n = false
exceeds callers n = leb max_path n

pub put : Resolved → Text → Text → Result CanonError Text
put resolved r c =
    if exceeds resolved (length (separate r) + length c)
    then err too_long
    else ok (reverse c ++ separate r)

pub component_step : Resolved → Text → Text → Result CanonError Text
unfolding back_up put
component_step resolved r c =
    if text_eq c dot then ok r else if text_eq c dot_dot then back_up r else put resolved r c

pub canon_loop : ℕ → Resolved → Text → Text → Result CanonError Text
unfolding component_step
canon_loop zero resolved r name = err out_of_fuel
canon_loop (suc fuel) resolved r name =
    let start = skip_slashes name in
    elim (component start) [
      | [] ↦ ok r
      | c ∷ cs ↦ component_step resolved r (c ∷ cs) >>= λ r'.
          canon_loop fuel resolved r' (after_component start)
    ]

-- A slash at the end goes, unless it is the root.
abbrev pub trim : Text → Text
trim [] = []
trim (c ∷ []) = c ∷ []
trim (c ∷ d ∷ r) = if is_slash c then d ∷ r else c ∷ d ∷ r

abbrev pub starts_dot_dot : Text → Bool
starts_dot_dot [] = false
starts_dot_dot (c ∷ []) = false
starts_dot_dot (c ∷ d ∷ s) = c == b'.' && d == b'.'

unfoldable pub canonpath : Resolved → Text → Result CanonError Text
unfolding canon_loop
canonpath resolved name = elim name [
  | [] ↦ err empty_name
  | c ∷ s ↦
      if not (is_slash c) && starts_dot_dot (c ∷ s)
      then err rooted_above
      else (canon_loop (suc (length (c ∷ s))) resolved (if is_slash c then b'/' ∷ [] else [])
            (c ∷ s)
          >>= λ r. ok (reverse (trim r)))
]

-- Both paths go through buffers of `max_path` characters; a null result makes them differ.
unfoldable pub pathneq : Text → Text → ℤ → Bool
unfolding canonpath stripname
pathneq path1 path2 n = elim (canonpath callers path1) [
  | ok canon ↦ text_eq (stripname canon n) path2
  | err _ ↦ false
]

unfoldable pub pathnmeq : Text → Text → ℤ → ℤ → Bool
unfolding canonpath stripname
pathnmeq path1 path2 n m = elim (canonpath callers path1) [
  | ok canon1 ↦ elim (canonpath callers path2) [
    | ok canon2 ↦ text_eq (stripname canon1 n) (stripname canon2 m)
    | err _ ↦ false
  ]
  | err _ ↦ false
]
