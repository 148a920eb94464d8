-- ===== src/Btree.antt =====
-- The B-tree index, miya_db/strage_manager/MMyISAM/components/index_manager/: the item sets of
-- nodes (ItemSet, Links) and the wider item set of a split (View), of o_node.cpp, over the bytes
-- of the index file (Files); the operations of nodes (Node, Split, Insert, Add, Borrow, Remove,
-- Delete, Descend) and the tree of btree.cpp (Tree). The other modules hold the lemmas: the
-- accessors by their bytes (Layout, Slots), the searches against a reference tree (Search to
-- Lookup), and the insertion of a key into a leaf (Sorted to Grow). Log lines are left out.
pub mod ItemSet
pub mod Links
pub mod View
pub mod Files
pub mod Node
pub mod Split
pub mod Insert
pub mod Add
pub mod Borrow
pub mod Remove
pub mod Delete
pub mod Descend
pub mod Tree
pub mod Layout
pub mod Slots
pub mod Search
pub mod Scan
pub mod Find
pub mod Order
pub mod Found
pub mod Lookup
pub mod Faults
pub mod Open
pub mod Insertion
pub mod Sorted
pub mod Sorting
pub mod Shifting
pub mod Simple
pub mod KeyAdd
pub mod LeafAdd
pub mod Placing
pub mod Grow
mod Tests
