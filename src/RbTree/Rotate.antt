-- ===== src/RbTree/Rotate.antt =====
-- The rotations of base/rbtree/rbtree.cpp on the trees that the heap holds.
pub mod Left
pub mod Right
