-- ===== src/Lan/Peers/File/Reload.antt =====
-- What crates/cled-lan/src/peers.rs saves is what it loads.
use cled.Common.{
  List, Option, Option-cases, [], all, ap, arith, inl, inr, length, ltb, map, nat_eq, refl, some,
  true, ℕ, ◌<◌, ◌^◌, ◌∙◌, ◌∷◌, ◌≡◌,
}
use cled.Common.Bytes.{
  AreBytes, to_be_bytes, to_le_bytes, from_be_bytes-to_be_bytes, to_be_bytes-AreBytes,
}
use cled.Common.Utf8.{as_bytes-ascii}
use cled.Sync.Item.Text.{UuidText, parse_id-display}
use cled.Lan.Error.{ok, ok_injective}
use cled.Lan.Keys.{key_len, hex}
use cled.Lan.Keys.Hex.{from_hex-hex, to_key-ok}
use cled.Lan.Peers.{Peer, Removed}
use cled.Lan.Peers.File.{
  PeerFile, collect, read_key, to_record, peer_of, from_record, to_removed, removed_of,
  from_removed, file_of, lists_of, parse, contents, loaded, load, saved_bytes, both,
}

-- An id of 16 bytes and a key of 32.
abbrev IsStorable : Peer → Type 0
IsStorable p = (p.device_id < 2 ^ 128) × (p.public_key < 256 ^ 32)

abbrev pub All {ℓ} : {A : Type ℓ} → (A → Type 0) → List A → Type 0
All P [] = Unit {0}
All P (a ∷ rest) = P a × All P rest

length-key : (n : ℕ) → length (to_be_bytes key_len n) ≡ key_len
unfolding to_be_bytes to_le_bytes
length-key n = refl

hex-ascii : (bytes : List ℕ) → AreBytes bytes → all (λ c. ltb c 0x80) (hex bytes) ≡ true
unfolding hex
hex-ascii [] h = refl
hex-ascii (b ∷ bs) h = ground (arith, h, hex-ascii bs h.1)

read_key-hex : (n : ℕ) → n < 256 ^ 32 → read_key (hex (to_be_bytes key_len n)) ≡ some n
unfolding read_key
read_key-hex n h =
    rw
      (
        read_key,
        as_bytes-ascii (hex (to_be_bytes key_len n))
            (hex-ascii (to_be_bytes key_len n) (to_be_bytes-AreBytes key_len n)),
        from_hex-hex (to_be_bytes key_len n) (to_be_bytes-AreBytes key_len n),
        to_key-ok (to_be_bytes key_len n) (length-key n),
      )
      (ap some (from_be_bytes-to_be_bytes 32 n h))

collect-map :
    {A B : Type 0} (f : A → B) (g : B → Option A) (P : A → Type 0) (xs : List A)
    → ((a : A) → P a → g (f a) ≡ some a)
    → All P xs
    → collect g (map f xs) ≡ some xs
collect-map f g P [] each h = refl
collect-map f g P (x ∷ xs) each h = rw (each x h.0, collect-map f g P xs each h.1) refl

module _ (u : UuidText) where
  from_record-to_record : (p : Peer) → IsStorable p → from_record u (to_record u p) ≡ some p
  unfolding from_record to_record peer_of
  from_record-to_record p h =
      rw (from_record, to_record, parse_id-display u p.device_id h.0, read_key-hex p.public_key h.1)
        refl

  from_removed-to_removed :
      (r : Removed) → IsStorable r.peer → from_removed u (to_removed u r) ≡ some r
  unfolding from_removed to_removed
  from_removed-to_removed r h = ap (removed_of u (to_removed u r)) (from_record-to_record r.peer h)

  lists_of-file_of :
      (peers : List Peer) (removed : List Removed)
      → All IsStorable peers
      → All (λ (r : Removed). IsStorable r.peer) removed
      → lists_of u (file_of u peers removed) ≡ some (peers, removed)
  unfolding lists_of file_of
  lists_of-file_of peers removed hp hr =
      ap (λ ps. both u ps (collect (from_removed u) (map (to_removed u) removed)))
        (collect-map (to_record u) (from_record u) IsStorable peers from_record-to_record hp)
      ∙ ap (both u (some peers)) (
          collect-map (to_removed u) (from_removed u) (λ r. IsStorable r.peer) removed
            from_removed-to_removed hr)

  parse-read :
      (from_slice : List ℕ → Option PeerFile) (bytes : List ℕ) (file : PeerFile)
      → from_slice bytes ≡ some file
      → parse u from_slice bytes ≡ lists_of u file
  unfolding parse
  parse-read from_slice bytes file h = rw (parse, h) refl

  -- The lists of peers that were saved are loaded again, where ids have 16 bytes and keys 32, if serde_json
  -- reads back the file that it wrote.
  pub load-saved_bytes :
      (to_vec : PeerFile → Option (List ℕ)) (from_slice : List ℕ → Option PeerFile)
      (peers : List Peer) (removed : List Removed) (bytes : List ℕ)
      → ((file : PeerFile) (json : List ℕ) → to_vec file ≡ some json → from_slice json ≡ some file)
      → All IsStorable peers
      → All (λ (r : Removed). IsStorable r.peer) removed
      → saved_bytes u to_vec peers removed ≡ ok bytes
      → load u from_slice (contents bytes) ≡ ok (loaded (some (peers, removed)))
  unfolding load saved_bytes
  load-saved_bytes to_vec from_slice peers removed bytes reads hp hr h =
      elim (Option-cases (to_vec (file_of u peers removed))) [
        | inl failed ↦ absurd (ground (arith, h, failed))
        | inr (json, made) ↦
            let same : json ≡ bytes = ok_injective (rw (saved_bytes, made) at h) in
            ap (λ lists. ok (loaded lists))
              (parse-read from_slice bytes _
                  (reads (file_of u peers removed) bytes (made ∙ ap some same))
                ∙ lists_of-file_of peers removed hp hr)
      ]
