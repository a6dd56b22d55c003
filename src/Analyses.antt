-- ===== src/Analyses.antt =====
-- thorin/analyses: the numbering of the control-flow graph, its dominator tree and dominance frontiers.
pub mod Depth
pub mod DomTree
pub mod Frontier
pub mod PostOrder
