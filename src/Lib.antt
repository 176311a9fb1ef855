-- ===== src/Lib.antt =====
-- perfscope rates the performance risk of a patch. The patch compiler turns a patch into a stream of
-- hunks, the decoder reduces each hunk to the modifications in it, the matcher finds the functions and
-- instructions of the bitcode that lie in a modification, and the risk evaluator rates them with a
-- cost model and a profile of expensive and frequent functions.
--
-- The files and the code that they model, paths from the root of the repository:
--   Base            shared names, lists, texts, unsigned 32-bit arithmetic and results
--   Commons/Scope   include/commons/Scope.h, the ranges of lines that the parts pass to each other
--   Commons/Text    stripname, strnchr, lastof, countnchr, endswith, pendswith, common_prefix and
--                   src2obj of lib/commons/handy.cc
--   Commons/Canon   canonpath, pathneq and pathnmeq of the same file, with a specification on lists
--                   of components in Commons/Canon/Spec
--   Commons/Strips  count_strips of lib/commons/LLVMHelper.cpp, on the directories of the compile units
--   Patch/Hunk      Hunk::reduce, Hunk::merge and Hunk::newMod of
--                   lib/parser/PatchIRDecoder/PatchDecoder.cpp
--   Patch/Number    parseInt of the same file
--   Patch/Stream    next_line and unget_line of the same file, and fgetline of lib/commons/handy.cc
--   Patch/Decoder   next_patch, next_chapter, next_hunk and skip_rest_of_hunks of the same file, and the
--                   loops over them in tools/PerfScope/PerfScope.cpp
--   Analyzer/Profile  parseProfile and the type names of lib/commons/LLVMHelper.cpp, and the binary
--                   search by which lib/analyzer/RiskEvaluator/Evaluator.cpp looks a name up
--   Analyzer/Risk   the ratings and the statistics of lib/analyzer/RiskEvaluator/Evaluator.cpp; what LLVM
--                   answers is the record Llvm, pointers are numbers
--   Analyzer/Callers  calcCallerHotness of the same file, on a record of what the call graph answers
--   Analyzer/Dag    BBDAG of lib/analyzer/CostModel/CFGDAG.cpp
--   Analyzer/Cost   getInstructionCost, getBasicBlockCost and getLoopCost of
--                   lib/analyzer/CostModel/CostModel.cpp; a subclass is a record of virtual functions
--   Analyzer/Longest  getFunctionCost of the same file
--   Mapper/Matcher  matchFunction of lib/mapper/Matcher.cpp
--   Mapper/Scopes   ScopeInfoFinder and matchLoop of the same file
--   Mapper/Instructions  matchInstruction of the same file, and the loop that calls it
--   Mapper/Target   the orders of the compile units and subprograms, processCompileUnits,
--                   processSubprograms, initName, matchCompileUnit, slideSPToTarget and resetTarget
--                   of the same file
--   Tools/Analyze   the loop of tools/PerfScope/PerfScope.cpp over the functions and the modifications of
--                   a hunk
--   Tools/Run       analyze of the same file, from the loop over the patches to that over the hunks
--   Tools/Profiler  static_profile of tools/StaticProfiler/StaticProfiler.cpp
--   Dependence/Dfs  DFSIter of include/graph/DFSIter.h; nodes are numbers, and a null is none
--   Dependence/Iter  DepIterator of lib/dependence/DepIter.cpp and Slicer of lib/slicer/Slicer.cpp, over the
--                   graphs as records of what the neighbors of a node are
--   Dependence/Pdg  PDGSlicer of lib/slicer/PDGSlicer.cpp
--   Dependence/Reach  what the three searches promise, and the rule for a search that gives a node a step
--   Examples        each theorem with a hypothesis at a concrete input, and runs of the definitions
--
-- How the code is written down. A text is the list of its character codes, and a pointer into it is
-- the rest from there. A line number of a hunk is an unsigned of 32 bits: its successor and its
-- predecessor wrap. A failed assertion, a null result and a read outside a buffer are error values.
-- The buffer of canonpath is its own, which has room for everything, or one of its caller, which
-- canonpath takes to have 512 characters; the list of the characters written so far is kept in
-- reverse, so that its head is dest[-1]. A patch that is deleted twice is an error value too: the loop
-- of analyze carries whether the patch that the decoder points to is deleted.
--
-- Loops run on the text that they consume. The loop of canonpath takes one unit of fuel for each
-- component, and one more than the characters of the name are given; that this is enough is part of
-- what is proved of it. lower_bound takes one unit for each halving, and is given one more than the
-- length of the vector. The search over the callers takes one unit for each round; fuel for the call
-- sites of all functions and two rounds more is shown to be enough.
--
-- The search in depth that builds the graph of the blocks takes one unit for each block, which is
-- painted once, and one for each edge, which pushes a block once. The walk of getFunctionCost is given
-- three units more; it pops no node twice where the entry of the function has no predecessor.
--
-- The increment of DFSIter recurs on its stack. The loop that prints a slice takes one unit for each
-- instruction that it gives and one more; fuel for the nodes that are reached is shown to be enough.
--
-- The loop that gathers the instructions of a modification takes one unit for each instruction and one
-- more. The loop over the functions of a hunk takes one unit for each round. The loops of analyze over
-- patches, chapters and hunks take one unit for each round; fuel for the lines of the file is enough.
--
-- Not modelled: memory that cannot be allocated, files that cannot be opened, what is printed, the
-- options of the tools and their loading of modules, the patch compiler, which is a program of its own,
-- the pass that builds the dependence graph from what LLVM answers, and the copies of LLVM with its
-- llvm-diff and its cost tables of X86, DSA, LLVMSlicer and patch.
pub mod Base
pub mod Commons
pub mod Dependence
pub mod Patch
pub mod Analyzer
pub mod Mapper
pub mod Tools
mod Examples
