-- ===== src/RbTree/Removal.antt =====
-- rbtree_delete of base/rbtree/rbtree.cpp at the node of the least key.
pub mod Quits
pub mod Steps
pub mod Stops
pub mod Left
pub mod Loop
pub mod Sibling
pub mod Whole
pub mod Keeps
pub mod KeepsFixup
pub mod Splice
pub mod Free
pub mod TakenOut
pub mod Least
