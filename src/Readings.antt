-- ===== src/Readings.antt =====
-- src/docketyard/text/load.py: the readings of a document's pages, and who may make them.
pub mod Pins
pub mod Rows
pub mod Pages
pub mod Load
