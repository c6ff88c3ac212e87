-- ===== src/Notifications.antt =====
-- The user-facing notification inbox: src/circled_wiki/runtime/core/notification_store.py.
pub mod Model
pub mod Operations
pub mod Resolution
pub mod Records
pub mod Answers
pub mod Dismissals
mod Samples
