-- ===== src/Sql.antt =====
-- server/src/utils/sys_sql.rs: comments, token patterns and statement patterns.
pub mod Comments
pub mod Tokens
pub mod Statement
