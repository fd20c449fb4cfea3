-- ===== src/Httpd.antt =====
-- internal/httpd: the lookups behind the HTTP handlers.
pub mod Provision
pub mod Boot
pub mod Pending
pub mod Automation
pub mod Missing
pub mod Reads
