-- ===== src/Lib.antt =====
-- cled: the clipboard sync program. A copied text or image is read from the clipboard, becomes an
-- item with a content hash, and goes to the paired devices over encrypted connections; each of them
-- decides whether to write it to its own clipboard.
--
-- The parts and their modules:
--   Clipboard/Content   crates/cled-clipboard/src/content.rs: text and images, normalization
--   Clipboard/Snapshot  crates/cled-clipboard/src/snapshot.rs, detector.rs, and `read` of lib.rs
--   Clipboard/Service   crates/cled-clipboard/src/service.rs: the clipboard thread
--   Clipboard/Platform  crates/cled-clipboard/src/platform and backend.rs: what each system tells of
--                       private content and of changes
--   Clipboard/Holder    crates/cled-clipboard/src/holder.rs: keeping content when the app ends
--   Sync/Item           crates/cled-sync/src/item.rs and ids.rs: items and their content hash,
--                       with the text form of ids in Sync/Item/Text
--   Sync/Recent         crates/cled-sync/src/recent.rs: the bounded memory of seen items
--   Sync/Engine         crates/cled-sync/src/engine.rs: what to broadcast and what to apply
--   Lan/Error           crates/cled-lan/src/error.rs: the errors, and results with them
--   Lan/Addr            crates/cled-lan/src/addr.rs: which address to try first
--   Lan/Wire            crates/cled-lan/src/wire.rs: the messages and their encoding
--   Lan/Peers           crates/cled-lan/src/peers.rs: the paired and the removed devices,
--                       and their file in Lan/Peers/File
--   Lan/Merge           the same file, `merge`: taking in the roster of another device
--   Lan/Noise           crates/cled-lan/src/noise.rs: frames, and messages in encrypted chunks,
--                       and the handshake in Lan/Noise/Handshake
--   Lan/Keys            crates/cled-lan/src/keys.rs: the keys of this device and their file
--   Lan/Discovery       crates/cled-lan/src/discovery.rs: the table of devices found by mDNS
--   Lan/Code            crates/cled-lan/src/code.rs: pairing codes
--   Lan/Node            crates/cled-lan/src/node.rs: the node's state and connections, with
--     Node/Group        rosters and removals,
--     Node/Pairing      both sides of pairing,
--     Node/Exchange     the exchange of keys with SPAKE2,
--     Node/Session      the messages of a session,
--     Node/Incoming     the preamble of a connection,
--     Node/Dialing      who is dialed when, and
--     Node/Handle       what the app calls
--   Desktop/Tunnel      apps/desktop/src-tauri/src/tunnel.rs: connections through the relay
--   Desktop/Relay       relay.rs there: roles in pairing, what is desired, the connection task and
--                       its session
--   Desktop/Auth        auth.rs there: the sign-in, its file and its tokens
--   Desktop/Settings    settings.rs there; Desktop/Preview, preview.rs
--   Desktop/Clipboard   clipboard.rs there: what is done with a change of the clipboard
--   Desktop/Sync        sync.rs there: what is done with an event of the node
--   Desktop/Device      device.rs there: the id of this device and its file
--   Desktop/Commands    the commands that change what the relay connection is told
--   Common              tests, lists, maps, bytes and UTF-8; Tests, the theorems at concrete inputs
--
-- A function of the code is a function of the same name; a method takes its object's state first and
-- returns the state after it. The modules below a component hold its theorems.
--
-- Numbers: ids, keys and hashes are the numbers that their bytes spell; `usize` has 64 bits; a time
-- counts nanoseconds from the earliest `SystemTime`. Machine integers that the code adds up are not
-- bounded in the model where they cannot come near their limit.
--
-- Parameters and arguments: BLAKE3, the hasher of the standard library, the encodings of postcard
-- and PNG, JSON, URLs, the text form of a UUID, and the Noise states are functions that the
-- definitions take, and SPAKE2 is one with what its documentation says. New ids, random bytes, the
-- clock, whether a save reaches the disk, what HTTP requests are answered, what a handshake comes
-- to, and what a window system answers are arguments of the calls that need them.
--
-- Fuel: `chunks` runs on as much fuel as its list is long, and `recv` on one more than the bytes that
-- wait in the stream, which is enough since each round takes at least one item; `exchange`, on the
-- messages that are left of a handshake, each of which a round sends or receives. All other functions
-- recur on their data.
--
-- Not modelled: connecting to the window systems, sockets and tasks, logging, failing
-- writes to a socket, the syntax of JSON, and of the app its set-up and windows. An event,
-- a message on a channel and a spawned task are entries of lists in the state of the node.
pub mod Common
pub mod Clipboard
pub mod Sync
pub mod Lan
pub mod Desktop
mod Tests
