-- ===== src/Desktop/Sync/Delivery.antt =====
-- The way of a copy from the clipboard of one device to that of another: apps/desktop/src-tauri/src/clipboard.rs
-- and sync.rs, with the node and the engine between them.
use cled.Common.{
  Bool, List, Option, Option-cases, ap, arith, false, inl, inr, nat_eq, none, refl, some, subst,
  sym, true, ℕ, ◌++◌, map, ◌==◌, ◌∙◌, ◌≡◌,
}
use cled.Clipboard.Content.{Chars, Image, ClipboardContent}
use cled.Clipboard.Snapshot.{content}
use cled.Sync.Item.{DeviceId, ItemId, SystemTime, ClipboardItem, is_intact}
use cled.Sync.Item.Text.{UuidText}
use cled.Sync.Recent
use cled.Sync.Engine.{
  SyncEngine, Current, copied, write, on_local_change, on_remote_item, compare_current,
  is_newer_than,
}
use cled.Sync.Engine.Echo.{Reported, on_local_change-Reported}
use cled.Lan.Error.{Result, Result-cases, ok}
use cled.Lan.Wire.{Message, WireItem, item, encode, decode, from_item, into_item}
use cled.Lan.Wire.Items.{IsMade, arrived, into_item-from_item}
use cled.Lan.Node.{Node, Conn, message, emit, item_received, send_to_all}
use cled.Lan.Node.Handle.{broadcast}
use cled.Lan.Node.Session.{receive}
use cled.Desktop.Clipboard.{report, process_change}

-- What is on the clipboard of a device gives way to an item.
abbrev GivesWay : Option Current → ClipboardItem → Type 0
GivesWay none i = Unit
GivesWay (some c) i = (is_newer_than c i ≡ false) × ((c.hash == i.content_hash) ≡ false)

-- A new item of another device that is not older than what is on the clipboard, and differs from it.
pub record Welcomes (s : SyncEngine) (i : ClipboardItem) : Type 0 where
  pub foreign : (i.origin == s.device) ≡ false
  pub fresh : (Recent.insert s.seen i.id).1 ≡ true
  pub way : GivesWay s.current i

decode-encode :
    (to_stdvec : Message → Result (List ℕ)) (from_bytes : List ℕ → Result Message) (m : Message)
    (bytes : List ℕ)
    → ((m : Message) (bytes : List ℕ) → to_stdvec m ≡ ok bytes → from_bytes bytes ≡ ok m)
    → encode to_stdvec m ≡ ok bytes
    → decode from_bytes bytes ≡ ok m
unfolding encode decode
decode-encode to_stdvec from_bytes m bytes parses h = elim (Result-cases (to_stdvec m)) [
  | inr (e, fails) ↦ absurd (ground (arith, fails))
  | inl (written, w) ↦ ground (arith, w, parses m written w)
]

broadcast_sent :
    (to_stdvec : Message → Result (List ℕ)) (write_png : Image → Result (List ℕ)) (n : Node)
    (i : ClipboardItem) (wire : WireItem) (bytes : List ℕ)
    → from_item write_png i ≡ ok wire
    → encode to_stdvec (item wire) ≡ ok bytes
    → broadcast to_stdvec write_png n i ≡ send_to_all n bytes
unfolding broadcast
broadcast_sent to_stdvec write_png n i wire bytes h sent = rw (broadcast, h) (rw sent refl)

intact_arrived :
    (blake3 : List ℕ → ℕ) (i : ClipboardItem)
    → is_intact blake3 i ≡ true
    → is_intact blake3 (arrived i) ≡ true
unfolding is_intact
intact_arrived blake3 i h = h

welcome_written :
    (blake3 : List ℕ → ℕ) (s : SyncEngine) (i : ClipboardItem)
    → is_intact blake3 i ≡ true
    → Welcomes s i
    → on_remote_item blake3 s i
      ≡ (record s { seen = (Recent.insert s.seen i.id).0; pending_write = some i }, write i.content)
unfolding on_remote_item compare_current
welcome_written blake3 s i intact w = elim (Option-cases s.current) [
  | inl clear ↦ ground (arith, w.foreign, w.fresh)
  | inr (c, shown) ↦
      let way : GivesWay (some c) i = subst (λ d. GivesWay d i) shown w.way in
      ground (arith, w.foreign, w.fresh, way.0, way.1)
]

module _ (blake3 : List ℕ → ℕ) (u : UuidText) (to_stdvec : Message → Result (List ℕ))
    (from_bytes : List ℕ → Result Message) (write_png : Image → Result (List ℕ))
    (read_png : List ℕ → Result (ℕ × ℕ × List ℕ)) (encoded : Image → ℕ → ℕ → Option Chars)
    -- The encodings are read back.
    (parses : (m : Message) (bytes : List ℕ) → to_stdvec m ≡ ok bytes → from_bytes bytes ≡ ok m)
    (reads : (i : Image) (png : List ℕ)
      → write_png i ≡ ok png
      → read_png png ≡ ok (i.width, i.height, i.rgba)) where
  sent_by_watcher :
      (s s' : SyncEngine) (n : Node) (i : ClipboardItem) (c : ClipboardContent) (id : ItemId)
      (now : SystemTime)
      → on_local_change blake3 s id now c ≡ (s', copied i)
      → (process_change blake3 u to_stdvec write_png encoded
          (record { engine = s; node = some n })
          id
          now
          (content c)).0
        ≡ record { engine = s'; node = some (broadcast to_stdvec write_png n i) }
  unfolding process_change report
  sent_by_watcher s s' n i c id now h = rw (process_change, h) refl

  received_from :
      (m : Node) (peer : ℕ) (disk : Bool) (i : ClipboardItem) (wire : WireItem) (bytes : List ℕ)
      → IsMade i.content
      → from_item write_png i ≡ ok wire
      → encode to_stdvec (item wire) ≡ ok bytes
      → receive to_stdvec (into_item read_png) m peer (decode from_bytes bytes) disk
        ≡ (emit m (item_received (arrived i) peer), true)
  unfolding receive
  received_from m peer disk i wire bytes made h sent =
      rw (decode-encode to_stdvec from_bytes (item wire) bytes parses sent)
        (rw (receive, into_item-from_item write_png read_png reads i wire made h) refl)

  -- A copy that the engine of one device reports and that can be sent goes to each device that the first one
  -- is connected to; a session there reads it as that item, but for its time, which is cut to
  -- milliseconds; and the app there, if the item is new to its engine, of another device, and neither
  -- older than what is on the clipboard nor the same, writes the copied content.
  pub copy_delivered :
      (s s' : SyncEngine) (n : Node) (i : ClipboardItem) (c : ClipboardContent) (id : ItemId)
      (now : SystemTime) (wire : WireItem) (bytes : List ℕ) (m : Node) (peer : ℕ) (disk : Bool)
      (there : SyncEngine)
      → IsMade c
      → on_local_change blake3 s id now c ≡ (s', copied i)
      → from_item write_png i ≡ ok wire
      → encode to_stdvec (item wire) ≡ ok bytes
      → Welcomes there (arrived i)
      → ((process_change blake3 u to_stdvec write_png encoded
            (record { engine = s; node = some n })
            id
            now
            (content c)).0
          ≡ record {
            engine = s';
            node = some (record n {
              sent = n.sent ++ map (λ (c : DeviceId × Conn). (c.1.id, message bytes)) n.conns;
            });
          })
        × (receive to_stdvec (into_item read_png) m peer (decode from_bytes bytes) disk
            ≡ (emit m (item_received (arrived i) peer), true))
        × ((on_remote_item blake3 there (arrived i)).1 ≡ write c)
  unfolding send_to_all
  copy_delivered s s' n i c id now wire bytes m peer disk there made h sendable sent welcome =
      let (origin, same, intact, seen, current, pending) : Reported blake3 s c (s', copied i) =
        subst (Reported blake3 s c) h (on_local_change-Reported blake3 s id now c) in
      (
        sent_by_watcher s s' n i c id now h
            ∙ ap (λ n'. record { engine = s'; node = some n' })
                (broadcast_sent to_stdvec write_png n i wire bytes sendable sent),
        received_from m peer disk i wire bytes (subst IsMade (sym same) made) sendable sent,
        ap (λ r. r.1)
              (welcome_written blake3 there (arrived i) (intact_arrived blake3 i intact) welcome)
            ∙ ap write same,
      )
