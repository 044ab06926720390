-- ===== src/Inbox.antt =====
-- inbox/store.py: `Store` is the durable inbox, `Storm` the rate limiter of its fires.
pub mod Storm
pub mod Store
