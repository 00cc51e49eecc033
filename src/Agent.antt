-- ===== src/Agent.antt =====
-- The bounded retrieval agent: src/qryeval_plus/agentic/runtime.py, state.py and tools.py.
pub mod State
pub mod Toolbox
pub mod Planner
pub mod ToolNode
pub mod Invariant
pub mod Configure
pub mod Graph
mod Tests
