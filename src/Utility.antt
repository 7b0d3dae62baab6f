-- ===== src/Utility.antt =====
-- The free functions of src/Utility.cpp that compute on texts and numbers.
pub mod Numbers
pub mod Url
pub mod Letters
pub mod Uri
pub mod Ipv6
