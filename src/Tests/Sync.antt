-- ===== src/Tests/Sync.antt =====
-- The theorems of the sync engine at concrete inputs. The hash is the number of bytes hashed, which
-- tells the texts below apart.
use mathlib.Core.List.Perm
use cled.Common.{List, [], arith, contains, length, nat_eq, none, not, refl, some, ℕ, ◌+◌, ◌∷◌, ◌≡◌}
use cled.Common.Utf8.{as_bytes, encode_utf8}
use cled.Clipboard.Content.{ClipboardContent, text, is_whitespace, identity_text, trim_end}
use cled.Sync.Item.{ClipboardItem, new_item, is_intact, hash_of, hashed_bytes}
use cled.Sync.Recent
use cled.Sync.Recent.{RecentSet}
use cled.Sync.Recent.Window.{IsValid, note, insert-note}
use cled.Sync.Engine.{
  SyncEngine, copied, echo, write, ignore, duplicate, new_engine, current_of, on_local_change,
  on_remote_item, copy, compare_current, on_write_failed,
}
use cled.Sync.Engine.Echo.{on_local_change-on_remote_item}
use cled.Sync.Engine.Duplicates.{run, on_remote_item_twice, changed}
use cled.Sync.Engine.Converge.{deliver_all, deliver_all-perm}

abbrev hash : List ℕ → ℕ
hash = length

abbrev hello : ClipboardContent
hello = text (b'h' ∷ b'i' ∷ [])

abbrev longer : ClipboardContent
longer = text (b'a' ∷ b'b' ∷ b'c' ∷ [])

abbrev item_of : ℕ → ClipboardContent → ℕ → ClipboardItem
item_of id c n = record {
  id = id;
  origin = 9;
  content_hash = n;
  created_at = 100 + id;
  content = c;
}

abbrev first : ClipboardItem
first = item_of 1 hello 12

abbrev second : ClipboardItem
second = item_of 2 longer 13

abbrev engine : SyncEngine
engine = record {
  device = 5;
  seen = record { order = []; members = []; capacity = 1000 };
  pending_write = none;
  current = none;
}

abbrev waiting : SyncEngine
waiting = record engine {
  seen = record { order = 1 ∷ []; members = 1 ∷ []; capacity = 1000 };
  pending_write = some first;
}

program : Unit {0}
unfolding on_remote_item compare_current on_local_change copy is_intact hash_of hashed_bytes
    identity_text trim_end is_whitespace as_bytes encode_utf8 Recent.insert Recent.new
    Recent.forget_oldest Recent.remove new_item new_engine on_write_failed
program = tt

accepts : on_remote_item hash engine first ≡ (waiting, write hello)
unfolding program
accepts = refl

-- A first copy on a new engine.
copies :
    (on_local_change hash (new_engine 5) 7 50 hello).1
    ≡ copied (record { id = 7; origin = 5; content_hash = 12; created_at = 50; content = hello })
unfolding program
copies = refl

abbrev two : RecentSet ℕ
two = record { order = []; members = []; capacity = 2 }

two-IsValid : IsValid two
two-IsValid = record { agree = λ a. refl; distinct = tt; bounded = omega arith }

insert-note_example :
    ((Recent.insert two 4).0.order ≡ note 2 [] 4)
    × ((Recent.insert two 4).1 ≡ not (contains {A = ℕ} [] 4))
insert-note_example = insert-note two 4 two-IsValid

on_local_change-on_remote_item_example :
    on_local_change hash waiting 7 50 hello
    ≡ (record waiting { pending_write = none; current = some (current_of first) }, echo first)
on_local_change-on_remote_item_example =
    on_local_change-on_remote_item hash engine waiting first hello hello 7 50 accepts refl

on_remote_item_twice_example :
    (on_remote_item hash (run hash waiting (changed 7 50 longer ∷ [])) first).1 ≡ ignore duplicate
on_remote_item_twice_example =
    on_remote_item_twice hash engine waiting first hello (changed 7 50 longer ∷ [])
      (record {
        valid = record { agree = λ a. refl; distinct = tt; bounded = omega arith };
        capacity = refl;
      })
      accepts (omega arith)

-- Every id names a text of the device 9.
abbrev catalogue : ℕ → ClipboardItem
catalogue id = item_of id hello 12

deliver_all-perm_example :
    (deliver_all hash 7 50 catalogue (λ k. refl) engine (1 ∷ 2 ∷ [])).current
    ≡ (deliver_all hash 7 50 catalogue (λ k. refl) engine (2 ∷ 1 ∷ [])).current
unfolding program
deliver_all-perm_example =
    deliver_all-perm hash 7 50 catalogue (λ k. refl) engine engine (1 ∷ 2 ∷ []) (2 ∷ 1 ∷ [])
      (Perm.swap 2 1 []) refl (refl, refl, refl, refl, (refl, refl, refl, refl, tt))
      (refl, refl, refl, refl, (refl, refl, refl, refl, tt))
