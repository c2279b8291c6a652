-- ===== src/FileSystem.antt =====
-- FileSystem/: the cache of a file's contents in a tree of files, the open files, and the tree as
-- bytes.
pub mod Range
pub mod Leaf
pub mod Tree
pub mod FileCache
pub mod FileTree
