-- ===== src/Journal/Record.antt =====
-- trusted_applet/internal/storage/slots/journal.go: unmarshalEntry and marshalEntry.
use armored_witness_applet.Prelude.{
  ℕ, not, List, ◌++◌, leb, ◌==◌, if◌then◌else◌, bytes_equal, get_uint, put_uint32, put_uint64,
}
use armored_witness_applet.Result.{
  Result, ok, err, panic, ◌>>=◌, wrap, read_magic, invalid_magic, read_revision, zero_revision,
  read_data_len, read_data_sha256, read_data, incorrect_sha256,
}
use armored_witness_applet.Device.{Device}
use armored_witness_applet.Journal.{Entry, magic0}
use armored_witness_applet.Journal.BlockReader.{Reader, read_full}

-- `make` panics on a length that cannot be allocated.
unfoldable pub make_bytes : ℕ → ℕ → Result ℕ
make_bytes max_alloc n = if leb n max_alloc then ok n else panic

module _ (sha256 : List ℕ → List ℕ) where
  unfoldable pub marshal_entry : Entry → Result (List ℕ)
  marshal_entry e =
      if not (bytes_equal e.magic magic0)
      then err invalid_magic
      else if not (bytes_equal (sha256 e.bytes) e.data_sha256)
      then err incorrect_sha256
      else ok (
          e.magic
          ++ (put_uint32 e.revision ++ (put_uint64 e.data_len ++ (e.data_sha256 ++ e.bytes))))

module _ {S : Type 0} (dev : Device S) (sha256 : List ℕ → List ℕ) (max_alloc : ℕ) where
  unfoldable pub unmarshal_entry : S → Reader → Result (Entry × Reader)
  unmarshal_entry s r = wrap read_magic (read_full dev 4 s r 4) >>= λ m.
      if not (bytes_equal m.0 magic0)
      then err invalid_magic
      else wrap read_revision (read_full dev 4 s m.1 4) >>= λ v.
          if get_uint 0 v.0 == 0
          then err zero_revision
          else wrap read_data_len (read_full dev 8 s v.1 8) >>= λ l.
              wrap read_data_sha256 (read_full dev 32 s l.1 32) >>= λ h.
              make_bytes max_alloc (get_uint 0 l.0) >>= λ n.
              wrap read_data (read_full dev n s h.1 n) >>= λ d.
              if not (bytes_equal (sha256 d.0) h.0)
              then err incorrect_sha256
              else ok (
                record {
                  magic = m.0;
                  revision = get_uint 0 v.0;
                  data_len = get_uint 0 l.0;
                  data_sha256 = h.0;
                  bytes = d.0;
                },
                d.1,
              )
