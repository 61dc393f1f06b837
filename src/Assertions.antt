-- ===== src/Assertions.antt =====
-- Assertions about documents, each replaced under a partial live index: src/docketyard/store/supersede.py,
-- and the passes of src/docketyard/text/paginate.py and src/docketyard/text/route.py.
pub mod Supersede
pub mod Pagination
pub mod Routes
