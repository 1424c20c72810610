-- ===== src/Util.antt =====
-- src/util.cpp and src/util.hpp: text helpers of the `modgate` namespace.
pub mod Split
pub mod Case
pub mod Decode
pub mod Encode
pub mod Replace
