-- ===== src/Capture.antt =====
-- src/docketyard/capture: the Board's tables, read page by page and slice by slice.
pub mod Months
pub mod Slice
pub mod Walk
pub mod Prefixes
