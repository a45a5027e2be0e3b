-- ===== src/Clipboard/Error.antt =====
-- crates/cled-clipboard/src/error.rs. The texts that errors carry are left out.

pub data ClipboardError : Type 0 where
  unavailable busy conversion service_stopped other : ClipboardError

pub data Result {ℓ} (A : Type ℓ) : Type ℓ where
  done : A → Result A
  failed : ClipboardError → Result A
