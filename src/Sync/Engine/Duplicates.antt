-- ===== src/Sync/Engine/Duplicates.antt =====
-- Runs of the engine, and items that are delivered twice.
use cled.Common.{
  List, [], ap, arith, false, inl, inr, length, length-append, nat_eq, refl, sym, true, ℕ, ◌++◌,
  ◌<◌, ◌==◌, ◌∙◌, ◌∷◌, ◌≡◌, ◌≤◌, ◌⊎◌,
}
use cled.Clipboard.Content.{ClipboardContent}
use cled.Sync.Item.{ItemId, SystemTime, ClipboardItem, new_item, is_intact}
use cled.Sync.Recent
use cled.Sync.Recent.{RecentSet}
use cled.Sync.Recent.Window.{IsValid}
use cled.Sync.Recent.Memory.{insert_all, insert_all-append, insert-insert_all, new-IsValid}
use cled.Sync.Engine.{
  SyncEngine, write, ignore, duplicate, recent_items, copy, on_local_change, compare_current,
  on_remote_item, on_write_failed, new_engine,
}
use cled.Sync.Engine.Echo.{on_remote_item-Accepted}

-- A call of the engine. A local change comes with the id and the time that a new item would get.
pub data Input : Type 0 where
  changed : ItemId → SystemTime → ClipboardContent → Input
  arrived : ClipboardItem → Input
  failed : Input

pub record Remembers (s : SyncEngine) : Type 0 where
  pub valid : IsValid s.seen
  pub capacity : s.seen.capacity ≡ recent_items

-- A new engine remembers up to 1000 ids.
new_engine-Remembers : (device : ℕ) → Remembers (new_engine device)
unfolding new_engine Recent.new
new_engine-Remembers device = record { valid = new-IsValid recent_items; capacity = refl }

module _ (blake3 : List ℕ → ℕ) where
  unfoldable pub step : SyncEngine → Input → SyncEngine
  step s (changed id now content) = (on_local_change blake3 s id now content).0
  step s (arrived item) = (on_remote_item blake3 s item).0
  step s failed = on_write_failed s

  unfoldable pub run : SyncEngine → List Input → SyncEngine
  run s [] = s
  run s (i ∷ is) = run (step s i) is

  -- The ids noted between two states.
  abbrev Noted : ℕ → SyncEngine → SyncEngine → Type 0
  Noted n s s' = (vs : List ItemId) × (length vs ≤ n) × (s'.seen ≡ insert_all s.seen vs)

  Noted-of :
      (s s' : SyncEngine) (id : ItemId)
      → (s'.seen ≡ s.seen) ⊎ (s'.seen ≡ (Recent.insert s.seen id).0)
      → Noted 1 s s'
  unfolding insert_all
  Noted-of s s' id (inl same) = ([], omega arith, same)
  Noted-of s s' id (inr grown) = (id ∷ [], omega arith, grown)

  changed-Noted :
      (s : SyncEngine) (id : ItemId) (now : SystemTime) (content : ClipboardContent)
      → Noted 1 s (on_local_change blake3 s id now content).0
  unfolding on_local_change copy new_item
  changed-Noted s id now content =
      Noted-of s (on_local_change blake3 s id now content).0 id (ground arith)

  arrived-Noted :
      (s : SyncEngine) (item : ClipboardItem) → Noted 1 s (on_remote_item blake3 s item).0
  unfolding on_remote_item compare_current
  arrived-Noted s item = Noted-of s (on_remote_item blake3 s item).0 item.id (ground arith)

  step-Noted : (s : SyncEngine) (i : Input) → Noted 1 s (step s i)
  unfolding step on_write_failed insert_all
  step-Noted s (changed id now content) = changed-Noted s id now content
  step-Noted s (arrived item) = arrived-Noted s item
  step-Noted s failed = ([], omega arith, refl)

  step-device : (s : SyncEngine) (i : Input) → (step s i).device ≡ s.device
  unfolding step on_local_change copy on_remote_item compare_current on_write_failed
  step-device s (changed id now content) = ground arith
  step-device s (arrived item) = ground arith
  step-device s failed = refl

  run-device : (is : List Input) (s : SyncEngine) → (run s is).device ≡ s.device
  unfolding run
  run-device [] s = refl
  run-device (i ∷ is) s = run-device is (step s i) ∙ step-device s i

  duplicate_of_seen :
      (s : SyncEngine) (item : ClipboardItem)
      → (item.origin == s.device) ≡ false
      → is_intact blake3 item ≡ true
      → (Recent.insert s.seen item.id).1 ≡ false
      → (on_remote_item blake3 s item).1 ≡ ignore duplicate
  unfolding on_remote_item
  duplicate_of_seen s item foreign intact old = ground arith

  run-Noted : (is : List Input) (s : SyncEngine) → Noted (length is) s (run s is)
  unfolding run insert_all
  run-Noted [] s = ([], omega arith, refl)
  run-Noted (i ∷ is) s =
      let (us, few, first) = step-Noted s i in
      let (vs, fewer, rest) = run-Noted is (step s i) in
      (
        us ++ vs,
        omega (arith, length-append us vs),
        rest ∙ ap (λ r. insert_all r vs) first ∙ sym (insert_all-append us vs s.seen),
      )

  -- An item that was written is a duplicate when it comes again, after fewer than 1000 calls of any
  -- kind: no item is written twice.
  pub on_remote_item_twice :
      (s s' : SyncEngine) (item : ClipboardItem) (c : ClipboardContent) (is : List Input)
      → Remembers s
      → on_remote_item blake3 s item ≡ (s', write c)
      → length is < recent_items
      → (on_remote_item blake3 (run s' is) item).1 ≡ ignore duplicate
  on_remote_item_twice s s' item c is m h few =
      let a = on_remote_item-Accepted blake3 s s' item c h in
      let (vs, le, noted) = run-Noted is s' in
      duplicate_of_seen (run s' is) item (rw (run-device is s', a.device) a.foreign) a.intact (
        ap (λ (r : RecentSet ItemId). (Recent.insert r item.id).1)
          (noted ∙ ap (λ r. insert_all r vs) a.seen)
        ∙ insert-insert_all s.seen item.id vs m.valid a.fresh (omega (arith, m.capacity)))
