-- ===== src/Commons/Strips.antt =====
-- count_strips of lib/commons/LLVMHelper.cpp: how many components lead to the root of a project, by
-- the directories of the compile units of a module.
pub mod Shared
pub mod Root
use perfscope.Base.{
  ℕ, ◌+◌, ◌-◌, ◌%◌, ◌^◌, List, [], ◌∷◌, reverse, Option, none, some, Text, codes, ltb,
  if◌then◌else◌, length, u32_mod,
}
use perfscope.Base.Result.{Result, ok, err, ◌>>=◌}
use perfscope.Commons.Text.{is_slash, countnchr, endswith, Buffer, common_prefix}

-- A read of a buffer that was never written, a write behind its end, and a read in front of it.
pub data StripError : Type 0 where
  uninitialized behind_end before_start : StripError

-- The text of the buffer against a further directory, into the same buffer.
pub add_directories : Buffer → List Text → Buffer
unfolding common_prefix
add_directories b [] = b
add_directories b (d ∷ ds) = add_directories (common_prefix b.len (reverse b.out) d) ds

-- One directory is copied with its NUL into 128 bytes, or into its length where that is more.
pub gather_directories : List Text → Result StripError Buffer
unfolding add_directories common_prefix
gather_directories [] = err uninitialized
gather_directories (d ∷ []) =
    if ltb (length d) 128 then ok (record { len = 128; out = reverse d }) else err behind_end
gather_directories (d ∷ e ∷ ds) = ok (add_directories (common_prefix 128 d e) ds)

abbrev pub correct_count : Text → ℕ → ℕ
correct_count s cnt =
    if endswith s (codes "innodb_plugin")
    then (cnt + u32_mod - 2) % u32_mod
    else if endswith s (codes "src/")
    then (cnt + u32_mod - 1) % u32_mod
    else cnt

-- The last character decides whether one more component is counted.
pub count_components : Buffer → Result StripError ℕ
unfolding countnchr endswith
count_components b =
    let s = reverse b.out in
    let cnt = countnchr s (2 ^ 64 - 1) b'/' in
    elim b.out [
      | [] ↦ err before_start
      | c ∷ _ ↦ ok (correct_count s (if is_slash c then cnt else (cnt + 1) % u32_mod))
    ]

-- Nothing is stripped for a module without the metadata.
unfoldable pub count_strips : Option (List Text) → Result StripError ℕ
unfolding gather_directories count_components
count_strips none = ok 0
count_strips (some directories) = gather_directories directories >>= count_components
