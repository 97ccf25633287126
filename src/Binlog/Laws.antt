-- ===== src/Binlog/Laws.antt =====
-- What is proved of src/binlog/binlog.c and src/binlog/binlog_parser.c, and the byte layout of an
-- argument that both sides share.
pub mod Growth
pub mod Scan
pub mod Valog
pub mod Written
pub mod Held
pub mod Program
pub mod Reads
pub mod Copy
pub mod Printing
pub mod Header
pub mod Recovered
pub mod Whole
pub mod Faults
