-- ===== src/Dependence.antt =====
-- The iterators over dependences and the slicers on top of them: include/graph/DFSIter.h,
-- lib/dependence/DepIter.cpp, lib/slicer/Slicer.cpp and lib/slicer/PDGSlicer.cpp.
pub mod Reach
pub mod Dfs
pub mod Iter
pub mod Pdg
