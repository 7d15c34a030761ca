-- ===== src/StringUtil.antt =====
-- The escaping of texts that go into string literals of the generated C:
-- include/angelsea/detail/stringutil.hpp.
pub mod Escape
pub mod Literal
pub mod Forms
pub mod Trigraphs
pub mod Glued
pub mod RoundTrip
pub mod Digits
pub mod Tests
