-- ===== src/Tests.antt =====
-- The theorems of the library at concrete inputs.
mod Output
mod Notices
mod Runs
mod Messages
mod Stream
mod Endings
mod Work
mod Transcripts
mod Children
