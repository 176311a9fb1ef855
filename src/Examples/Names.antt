-- ===== src/Examples/Names.antt =====
-- File names and texts.
use perfscope.Base.{◌<◌, ◌≡◌, refl, [], ◌∷◌, reverse, some, arith, codes, length}
use perfscope.Base.Int.{pos}
use perfscope.Base.Result.{ok, err}
use perfscope.Commons.Text.{src2obj, common_prefix, stripname}
use perfscope.Commons.Text.Ends.{Objects, src2obj-Objects}
use perfscope.Commons.Text.Count.{LongestCommon, common_prefix-LongestCommon}
use perfscope.Commons.Canon.{own, callers, underflow, canonpath}
use perfscope.Commons.Canon.Spec.{canonical}
use perfscope.Commons.Canon.Refines.{canonpath-canonical}
use perfscope.Commons.Canon.Bounded.{canonpath_bounded}
use perfscope.Commons.Canon.Underflow.{canonpath_underflow}

strip_two : stripname (codes "a//b/c.c") (pos 2) ≡ codes "c.c"
unfolding stripname
strip_two = refl

object_name : src2obj (codes "sql/item.cc") ≡ some (codes "sql/item.o")
unfolding src2obj
object_name = refl

canon_run : canonpath callers (codes "/usr//src/./gcc/../tree.c") ≡ ok (codes "/usr/src/tree.c")
unfolding canonpath
canon_run = refl

src2obj-Objects_example :
    Objects
      (codes ".c" ∷ codes ".cc" ∷ codes ".cpp" ∷ codes ".C" ∷ codes ".hpp" ∷ [])
      (codes "a.hpp")
      (src2obj (codes "a.hpp"))
src2obj-Objects_example = src2obj-Objects (codes "a.hpp")

common_prefix-LongestCommon_example :
    LongestCommon
      (codes "/src/a")
      (codes "/src/b")
      (reverse (common_prefix 2 (codes "/src/a") (codes "/src/b")).out)
    × (length (common_prefix 2 (codes "/src/a") (codes "/src/b")).out
        < (common_prefix 2 (codes "/src/a") (codes "/src/b")).len)
common_prefix-LongestCommon_example =
    common_prefix-LongestCommon 2 (codes "/src/a") (codes "/src/b") (omega arith)

canonpath-canonical_example : canonpath own (codes "a/./b") ≡ canonical (codes "a/./b")
canonpath-canonical_example = canonpath-canonical (codes "a/./b")

canonpath_bounded_example :
    (canonpath own (codes "/usr//src/./gcc/../tree.c") ≡ ok (codes "/usr/src/tree.c"))
    × (length (codes "/usr/src/tree.c") < 512)
canonpath_bounded_example =
    canonpath_bounded (codes "/usr//src/./gcc/../tree.c") (codes "/usr/src/tree.c") canon_run

canonpath_underflow_example : canonpath own (codes "gcc/../..") ≡ err underflow
canonpath_underflow_example = canonpath_underflow b'g' (codes "cc") (refl, (refl, (refl, tt))) refl
