-- ===== src/Graph.antt =====
-- The diagnosis state machine (brain/src/coroner_brain/graph.py).
pub mod State
pub mod RetryAfter
pub mod Call
pub mod Nodes
pub mod Calls
pub mod Ends
pub mod Sound
pub mod Charges
pub mod Record
