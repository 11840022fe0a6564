-- ===== src/Records.antt =====
-- crates/app/src/raw_ingress.rs: the reader of bounded records.
pub mod Reader
pub mod RoundTrip
mod Examples
