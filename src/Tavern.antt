-- ===== src/Tavern.antt =====
-- Games in a chat: src/waifu_standalone/tavern.
pub mod Dice
pub mod Soup
