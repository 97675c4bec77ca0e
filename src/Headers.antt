-- ===== src/Headers.antt =====
-- src/Headers.cc and src/include/atscppapi/Headers.h.
pub mod State
pub mod Fields
pub mod Values
pub mod CookieText
pub mod Cookies
pub mod Detached
pub mod Joined
pub mod CookieOps
pub mod CookieJar
pub mod Caching
pub mod Reading
pub mod Gathered
pub mod Attached
