-- ===== src/Directories.antt =====
-- "2_Files and Directories": mylsr.c, which lists directories and what lies below them, and myrm.c, which
-- removes files.
pub mod Walk
pub mod Removal
mod Tests
