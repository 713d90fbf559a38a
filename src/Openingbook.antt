-- ===== src/Openingbook.antt =====
-- The opening book, after pkg/openingbook.
pub mod Book
pub mod Examples
