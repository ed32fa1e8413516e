-- ===== src/Whisper.antt =====
-- Whisper, the end-to-end encrypted chats of client-web/src/store/whisperStore.ts, with the key
-- exchange of lib/whisperCrypto.ts and the tables of lib/whisperDb.ts.
mod Tests
pub mod Platform
pub mod Crypto
pub mod Table
pub mod Db
pub mod State
pub mod Start
pub mod Send
pub mod Receive
pub mod Close
