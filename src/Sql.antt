-- ===== src/Sql.antt =====
-- asceticddd/specification/infrastructure: specifications as SQL.
pub mod Schema
pub mod Postgresql
pub mod Rendering
pub mod Transform
mod Tests
