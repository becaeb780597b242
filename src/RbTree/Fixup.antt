-- ===== src/RbTree/Fixup.antt =====
-- The loop of rbtree_insert_fixup in base/rbtree/rbtree.cpp.
pub mod Steps
pub mod Rounds
pub mod Loop
pub mod Turns
pub mod Red
pub mod Whole
