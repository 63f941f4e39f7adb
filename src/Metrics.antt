-- ===== src/Metrics.antt =====
-- pkg/metrics/scraper.go: merging the series of several Prometheus instances and filling gaps, the
-- splitting of a range query, and the time that an upscale takes. A Prometheus API is the argument
-- `query_range`; its concurrent calls are answered in some order.
pub mod Series
pub mod Ranges
pub mod Queries
pub mod Scraper
