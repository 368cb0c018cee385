-- ===== src/Tars.antt =====
-- tup/Tars.h and tup/TarsType.h: the TARS wire format, its reader and its writer.
pub mod Bytes
pub mod Stream
pub mod Skip
pub mod Read
pub mod Write
pub mod Cursor
pub mod Wire
pub mod Search
pub mod Numbers
pub mod Fields
pub mod RoundTrip
pub mod Kinds
pub mod Strings
pub mod CharVectors
pub mod Items
pub mod Skipping
pub mod SkipSteps
pub mod SkipValues
pub mod Unknown
mod Tests
