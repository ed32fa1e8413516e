-- ===== src/Lib.antt =====
-- NodeTalk web client: the parts of client-web/src that keep state.
--
-- The client talks to the server over one WebSocket, keeps the list of conversations and the cached
-- pages of their messages, and holds end-to-end encrypted Whisper chats beside them.
--
--   Socket     client-web/src/ws/socketManager.ts: connect, disconnect, send, the heartbeat, the
--              liveness check and the reconnect with backoff. `Manager` holds the closure's variables
--              and what the browser keeps; `Socket.Step` is the relation of all interleavings of
--              client calls, socket events and timers.
--   Ports      client-web/src/ws/portRegistry.ts and client-web/src/ws/shared.worker.ts: the ports of
--              the tabs, and the worker that relays one socket manager to them.
--   Pending    client-web/src/utils/pendingMessages.ts, and in `Pending.Feed` the cache updates of
--              client-web/src/components/ChatArea.tsx: functions on the cached pages of one channel.
--   Channels   client-web/src/store/channels.slice.ts: the store of conversations, one function for
--              each action; `refreshChannels` is cut at its request.
--   Whisper    client-web/src/store/whisperStore.ts (`State`, `Start`, `Send`, `Receive`, `Close`),
--              client-web/src/lib/whisperCrypto.ts (`Crypto`) and client-web/src/lib/whisperDb.ts
--              (`Db`). An action with an `await` between two of its effects is cut there, so that
--              other events can come between its steps.
--   Voice      client-web/src/store/voiceStore.ts: the store of a call, one function for each action
--              (`Voice`, `Voice.Streams`, and `Voice.Actions` for all of them as data).
--   Bridge     client-web/src/store/ws.manager.ts: what an event of the socket does to the stores of
--              channels and calls; `Bridge.Messages` cuts the handlers at the preview they await,
--              `Bridge.Calls` says when a call rings; client-web/src/utils/channel.ts is
--              `Bridge.ChannelName`.
--   Rtc        client-web/src/rtc/WebRTCManager.ts: a call over two peer connections. `Audio` has the
--              gains, `Media` the camera, `Screen` the shared screen, `Signals` the messages of the
--              server, `Call` joining and leaving, `Tracks` what comes in from others, `Speaking` the
--              detection of speech.
--   Wire       client-web/src/ws.ts and client-web/src/store/crypto.slice.ts: the listeners, the
--              connection behind them, the keys of the channels and the messages sent.
--   Session    client-web/src/store/auth.slice.ts: signing in and out, over `Channels` and `Wire`.
--   Avatars    client-web/src/lib/avatarCache.ts: the cached pictures of users.
--   Storage    client-web/src/lib/db.ts: the stored messages and files, their statistics (`Stats`), and
--              the purge of a category (`Purge`).
--   Audio      client-web/src/utils/audio.ts, and the encoder of client-web/src/lib/voicePlayer.ts: WAV
--              files as writes into a byte array (`Bytes`, `Wav`) and what a reader finds in them
--              (`Read`), waveforms and trimming.
--   Player     client-web/src/lib/voicePlayer.ts: the voice player. `Player` has the handlers of its
--              audio element, `Player.Playback` the operations, `Player.Steps` all of them as data.
--   Recorder   client-web/src/components/VoiceRecorder.tsx: recording, trimming and sending a voice
--              message, over `Audio`.
--   Files      client-web/src/utils/file.ts: pictures and files before they are sent, and their reverse.
--   Preview    client-web/src/utils/messagePreview.ts: the line that shows the last message.
--   Api        client-web/src/types/api.ts: channels and messages.
--   Prelude    the shared names, Boolean tests, lists, dictionaries and sets of ids.
--
-- The Whisper store uses the channel store (an accepted invitation opens the conversation with the
-- peer), the cryptography and the database. The socket's frames are what the Whisper store hands to
-- client-web/src/ws.ts.
--
-- Code from outside the repository is a parameter: Web Crypto, base64 and JSON are the record
-- `Whisper.Platform.Platform`, a Dexie table is the record `Whisper.Table.Table`, each with the laws
-- that its documentation states; `Whisper.Tests.Toy` fills both with concrete functions.
-- `Wire.Binary.Browser`
-- is the cipher of the channels with its laws, which `Wire.Tests` fills; `Storage.Table` and
-- `Files.Codec` are a table and the compression and cipher of files, which the tests there fill. Random
-- ids, keys, nonces, the clock, and what the browser answers when it is asked for a camera, a screen or
-- a description, are arguments of the steps that read them.
--
-- No function runs on fuel: every loop is structural recursion. Delays of the socket manager count in
-- 512ths of a millisecond, which keeps the factor 1.5 exact until the limit of 30 seconds cuts in.
-- Times and sizes are natural numbers. The samples of audio count 2 ^ 24ths of full scale.
--
-- Not modelled: the saved copy of the signed-in user; the repeated keyframe requests and the own
-- candidates of client-web/src/rtc/WebRTCManager.ts; the visualizer and the preview playback of
-- client-web/src/components/VoiceRecorder.tsx; the REST client, the rest of the user interface, the
-- server and the desktop shell. The voice player's write to the database is not repeated. The awaits of
-- one negotiation over a peer connection are answered at once. The two loops of
-- client-web/src/lib/whisperCrypto.ts around the browser's `btoa` and `atob` are taken together with
-- these as the platform's `btoa` and `atob`. A write to the database succeeds, and the generation of a
-- key pair does.

pub mod Prelude
pub mod Api
pub mod Pending
pub mod Socket
pub mod Channels
pub mod Ports
pub mod Whisper
pub mod Voice
pub mod Bridge
pub mod Rtc
pub mod Wire
pub mod Session
pub mod Avatars
pub mod Storage
pub mod Audio
pub mod Player
pub mod Files
pub mod Preview
pub mod Recorder
