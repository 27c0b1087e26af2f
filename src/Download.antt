-- ===== src/Download.antt =====
-- What the downloader keeps of each article's attempts and of its servers, and where an article's next
-- request goes (internal/downloader).
pub mod Mask
pub mod Tracker
pub mod Server
pub mod Select
