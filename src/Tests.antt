-- ===== src/Tests.antt =====
-- The theorems at concrete inputs.
mod Ring
mod Output
mod Lines
mod Codecs
mod Texts
mod Parsing
mod Files
mod Timed
mod Packets
mod Mail
mod Web
mod Jar
mod Connecting
mod Polling
mod Values
