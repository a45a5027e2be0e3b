-- ===== src/Sync/Item.antt =====
-- crates/cled-sync/src/item.rs and ids.rs. An id is the number that its 16 bytes spell, the
-- highest first, so the numbers' order is the ids'. A time counts nanoseconds from the earliest
-- one that `SystemTime` holds. BLAKE3 is a parameter; a hash is the number of its 32 bytes.
pub mod Identity
pub mod Text
use cled.Common.{nat_eq, Bool, List, [], arith, true, ℕ, ◌++◌, ◌==◌, ◌∷◌, ◌≡◌}
use cled.Common.Bytes.{to_le_bytes}
use cled.Common.Utf8.{as_bytes}
use cled.Clipboard.Content.{ClipboardContent, text, image, identity_text}

abbrev pub DeviceId : Type 0
DeviceId = ℕ

abbrev pub ItemId : Type 0
ItemId = ℕ

abbrev pub ContentHash : Type 0
ContentHash = ℕ

abbrev pub SystemTime : Type 0
SystemTime = ℕ

pub record ClipboardItem : Type 0 where
  pub id : ItemId
  pub origin : DeviceId
  pub content_hash : ContentHash
  pub created_at : SystemTime
  pub content : ClipboardContent

-- `b"cled:text\0"`.
abbrev text_prefix : List ℕ
text_prefix = b'c' ∷ b'l' ∷ b'e' ∷ b'd' ∷ b':' ∷ b't' ∷ b'e' ∷ b'x' ∷ b't' ∷ 0 ∷ []

-- `b"cled:image\0"`.
abbrev image_prefix : List ℕ
image_prefix = b'c' ∷ b'l' ∷ b'e' ∷ b'd' ∷ b':' ∷ b'i' ∷ b'm' ∷ b'a' ∷ b'g' ∷ b'e' ∷ 0 ∷ []

-- What `ContentHash::of` feeds to the hasher.
unfoldable pub hashed_bytes : ClipboardContent → List ℕ
hashed_bytes (text t) = text_prefix ++ as_bytes (identity_text t)
hashed_bytes (image i) =
    image_prefix ++ (to_le_bytes 4 i.width ++ (to_le_bytes 4 i.height ++ i.rgba))

module _ (blake3 : List ℕ → ℕ) where
  unfoldable pub hash_of : ClipboardContent → ContentHash
  hash_of content = blake3 (hashed_bytes content)

  -- `ClipboardItem::new`, with the new id and the clock's time as arguments.
  unfoldable pub new_item : ItemId → SystemTime → DeviceId → ClipboardContent → ClipboardItem
  new_item id now origin content = record {
    id = id;
    origin = origin;
    content_hash = hash_of content;
    created_at = now;
    content = content;
  }

  unfoldable pub is_intact : ClipboardItem → Bool
  is_intact item = hash_of item.content == item.content_hash

  -- A new item is intact.
  new_item-is_intact :
      (id : ItemId) (now : SystemTime) (origin : DeviceId) (content : ClipboardContent)
      → is_intact (new_item id now origin content) ≡ true
  unfolding new_item is_intact
  new_item-is_intact id now origin content = ground arith
