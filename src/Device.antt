-- ===== src/Device.antt =====
-- trusted_applet/internal/storage/slots/journal.go: the interface BlockReaderWriter.
-- The storage is a state `S` that a write returns anew, also with an error.
pub mod Stream
pub mod Laws
use armored_witness_applet.Prelude.{ℕ, List}
use armored_witness_applet.Result.{Result}

-- `read_blocks s lba b` returns what the buffer `b` holds after the call.
pub record Device (S : Type 0) : Type 0 where
  pub block_size : ℕ
  pub read_blocks : S → ℕ → List ℕ → Result (List ℕ)
  pub write_blocks : S → ℕ → List ℕ → Result ℕ × S
