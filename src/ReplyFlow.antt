-- ===== src/ReplyFlow.antt =====
-- Which messages of a chat are answered: src/waifu_standalone/reply_flow.
pub mod Phrases
pub mod Gate
