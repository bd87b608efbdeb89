-- ===== src/Serval.antt =====
-- The Serval protocol: version arrays of a row, per epoch, that readers find by bitmaps.
pub mod Bitmap
pub mod Bits
pub mod Find
pub mod Vector
pub mod GlobalArray
pub mod CoreArray
pub mod Region
pub mod Rank
pub mod Search
pub mod Cores
pub mod Visible
pub mod Ascending
pub mod Append
pub mod Insertion
pub mod Written
pub mod Defs
pub mod Reads
pub mod Appends
pub mod Install
pub mod Moved
pub mod Rows
pub mod Final
pub mod Begin
pub mod Order
pub mod Refine
pub mod Whole
pub mod Installed
