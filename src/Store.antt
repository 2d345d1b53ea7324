-- ===== src/Store.antt =====
-- khazina/internal/store: the tables, the constraints of the migrations, and the queries.
pub mod Rows
pub mod Reads
pub mod Writes
pub mod Latest
pub mod Numeric
pub mod Admin
