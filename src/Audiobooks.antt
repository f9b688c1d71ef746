-- ===== src/Audiobooks.antt =====
-- media/audiolib: the catalog of an audiobook library (catalog.py, in Audiobooks/Catalog), the job that fetches its
-- files (runner.py, in Audiobooks/Fetch) and the controller of these jobs (controller.py, in Audiobooks/Jobs).
pub mod Catalog
pub mod Fetch
pub mod Jobs
pub mod Examples
