-- ===== src/Tests.antt =====
-- The theorems at work on concrete inputs.
mod Server
mod Text
mod Others
mod Web
mod Online
mod Settings
mod Files
