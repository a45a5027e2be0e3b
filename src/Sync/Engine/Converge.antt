-- ===== src/Sync/Engine/Converge.antt =====
-- Devices that have received the same items, in any order, hold the same one.
use mathlib.Core.List.{foldl, Permᴰ, Perm}
use mathlib.Core.Logic.{∥∥₁_elim}
use mathlib.Core.Path.{ap₂}
use cled.Common.{
  List, Option, [], ap, arith, contains, false, nat_eq, not, refl, sym, true, ||-eq-false, ℕ, ◌==◌,
  ◌∙◌, ◌∷◌, ◌≡◌,
}
use cled.Sync.Recent.{RecentSet}
use cled.Sync.Item.{ItemId, SystemTime, ClipboardItem, is_intact}
use cled.Sync.Recent
use cled.Sync.Recent.Window.{insert_absent, insert_fresh}
use cled.Sync.Engine.{SyncEngine, Current}
use cled.Sync.Engine.Newest.{newest, newest_comm, deliver, deliver-current, deliver-seen}

foldl-permᴰ {ℓ κ} :
    {A : Type ℓ} {B : Type κ} (f : B → A → B)
    → ((b : B) (x y : A) → f (f b x) y ≡ f (f b y) x)
    → {xs ys : List A} (b : B) → Permᴰ xs ys
    → foldl f b xs ≡ foldl f b ys
foldl-permᴰ f comm b Permᴰ.nil = refl
foldl-permᴰ f comm b (Permᴰ.cons {a = x} {l₂ = ys} e p) =
    foldl-permᴰ f comm (f b x) p ∙ ap (λ z. foldl f (f b z) ys) e
foldl-permᴰ f comm b (Permᴰ.swap {a = x} {b = y} {l = l} e e') =
    ap (λ z. foldl f z l) (comm b x y) ∙ ap₂ (λ u v. foldl f (f (f b u) v) l) e' e
foldl-permᴰ f comm b (Permᴰ.trans p q) = foldl-permᴰ f comm b p ∙ foldl-permᴰ f comm b q

Current-set : IsSet (Option Current)
Current-set = hlevel

-- `item` gives the item behind each id: ids are unique.
module _ (blake3 : List ℕ → ℕ) (at : ItemId) (now : SystemTime) (item : ItemId → ClipboardItem)
    (named : (k : ItemId) → (item k).id ≡ k) where
  -- The items come from other devices, intact, and none is known or comes twice.
  abbrev Arriving : SyncEngine → List ItemId → Type 0
  Arriving s [] = Unit {0}
  Arriving s (k ∷ ks) =
      (((item k).origin == s.device) ≡ false)
      × (is_intact blake3 (item k) ≡ true)
      × (contains s.seen.members k ≡ false)
      × (contains ks k ≡ false)
      × Arriving s ks

  unfoldable pub deliver_all : SyncEngine → List ItemId → SyncEngine
  deliver_all s [] = s
  deliver_all s (k ∷ ks) = deliver_all (deliver blake3 at now s (item k)) ks

  unknown :
      (s : SyncEngine) (k : ItemId)
      → contains s.seen.members k ≡ false
      → (Recent.insert s.seen (item k).id).1 ≡ true
  unknown s k h =
      ap (λ j. (Recent.insert s.seen j).1) (named k) ∙ (insert_fresh s.seen k ∙ ap not h)

  Arriving-deliver :
      (ks : List ItemId) (s : SyncEngine) (k : ItemId)
      → ((item k).origin == s.device) ≡ false
      → is_intact blake3 (item k) ≡ true
      → contains s.seen.members k ≡ false
      → contains ks k ≡ false
      → Arriving s ks
      → Arriving (deliver blake3 at now s (item k)) ks
  Arriving-deliver [] s k foreign intact new once h = tt
  Arriving-deliver (l ∷ ls) s k foreign intact new once (foreign', intact', new', once', rest) =
      let (seen, device) = deliver-seen blake3 at now s (item k) foreign intact (unknown s k new) in
      let (other, once) = ||-eq-false (l == k) (contains ls k) once in
      let apart : (k == l) ≡ false = ground arith in
      (
        ap (◌==◌ (item l).origin) device ∙ foreign',
        intact',
        ap (λ (r : RecentSet ItemId). contains r.members l)
              (seen ∙ ap (λ j. (Recent.insert s.seen j).0) (named k))
            ∙ insert_absent s.seen k l new' apart,
        once',
        Arriving-deliver ls s k foreign intact new once rest,
      )

  deliver_all-current :
      (ks : List ItemId) (s : SyncEngine)
      → Arriving s ks
      → (deliver_all s ks).current ≡ foldl (λ c k. newest c (item k)) s.current ks
  unfolding deliver_all
  deliver_all-current [] s a = refl
  deliver_all-current (k ∷ ks) s (foreign, intact, new, once, rest) =
      deliver_all-current ks _ (Arriving-deliver ks s k foreign intact new once rest)
      ∙ ap (λ c. foldl (λ c k. newest c (item k)) c ks)
          (deliver-current blake3 at now s (item k) foreign intact (unknown s k new))

  -- Two devices that agree and receive the same items, each in an order of its own, agree on what is
  -- on the clipboard afterwards.
  pub deliver_all-perm :
      (s t : SyncEngine) (ks ls : List ItemId)
      → Perm ks ls
      → s.current ≡ t.current
      → Arriving s ks
      → Arriving t ls
      → (deliver_all s ks).current ≡ (deliver_all t ls).current
  deliver_all-perm s t ks ls p same a b =
      deliver_all-current ks s a
      ∙ (ap (λ c. foldl (λ c k. newest c (item k)) c ks) same
          ∙ (∥∥₁_elim p (Current-set _ _) (foldl-permᴰ _ comm t.current)
              ∙ sym (deliver_all-current ls t b)))
    where
      comm :
          (c : Option Current) (i j : ItemId)
          → newest (newest c (item i)) (item j) ≡ newest (newest c (item j)) (item i)
      comm c i j = newest_comm c (item i) (item j) (λ e. ap item (sym (named i) ∙ e ∙ named j))
