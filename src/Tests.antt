-- ===== src/Tests.antt =====
-- Concrete instances of what the sources call, and runs of the code on concrete inputs.
pub mod Store
pub mod Site
pub mod Requests
pub mod Settings
pub mod Words
pub mod Tool
pub mod Forms
pub mod Installed
pub mod Scripts
pub mod Trees
pub mod Shared
pub mod Servers
pub mod Children
pub mod Reports
