-- ===== src/Commons/Canon/Spec.antt =====
-- What a canonical path is: the components of the name, resolved on a stack, and joined again.
use perfscope.Base.{Bool, false, not, ◌&&◌, List, [], ◌∷◌, ◌++◌, Text, text_eq, if◌then◌else◌}
use perfscope.Base.Result.{Result, ok, err, ◌>>=◌}
use perfscope.Commons.Text.{is_slash}
use perfscope.Commons.Canon.{
  CanonError, empty_name, rooted_above, underflow, dot, dot_dot, starts_dot_dot,
}

abbrev pub starts_component : Text → Bool
starts_component [] = false
starts_component (c ∷ s) = not (is_slash c)

-- A character joins the first of the components behind it.
abbrev pub join_first : Text → List Text → List Text
join_first w [] = w ∷ []
join_first w (d ∷ ds) = (w ++ d) ∷ ds

-- The runs of characters between slashes.
abbrev pub components : Text → List Text
components [] = []
components (c ∷ s) =
    let rest = components s in
    if is_slash c
    then rest
    else if starts_component s
    then join_first (c ∷ []) rest
    else (c ∷ []) ∷ rest

-- One component on the stack of those before it, the last first. Above the root there is the root;
-- above the start of a relative path there is nothing.
abbrev pub resolve_one : Bool → List Text → Text → Result CanonError (List Text)
resolve_one absolute [] c =
    if text_eq c dot
    then ok []
    else if text_eq c dot_dot
    then (if absolute then ok [] else err underflow)
    else ok (c ∷ [])
resolve_one absolute (d ∷ ds) c =
    if text_eq c dot then ok (d ∷ ds) else if text_eq c dot_dot then ok ds else ok (c ∷ d ∷ ds)

abbrev pub resolve : Bool → List Text → List Text → Result CanonError (List Text)
resolve absolute stack [] = ok stack
resolve absolute stack (c ∷ cs) = resolve_one absolute stack c >>= λ next. resolve absolute next cs

abbrev pub root : Bool → Text
root absolute = if absolute then b'/' ∷ [] else []

-- The path of a stack: its components with one slash between two.
abbrev pub path_of : Bool → List Text → Text
path_of absolute [] = root absolute
path_of absolute (c ∷ []) = root absolute ++ c
path_of absolute (c ∷ d ∷ ds) = path_of absolute (d ∷ ds) ++ b'/' ∷ c

unfoldable pub canonical : Text → Result CanonError Text
canonical [] = err empty_name
canonical (c ∷ s) =
    if not (is_slash c) && starts_dot_dot (c ∷ s)
    then err rooted_above
    else (resolve (is_slash c) [] (components (c ∷ s)) >>= λ stack. ok (path_of (is_slash c) stack))
