-- ===== src/Wire.antt =====
-- common/sdsbytesbuf, and what is sent and stored through it.
pub mod Outcome
pub mod Buf
pub mod Messages
pub mod Results
