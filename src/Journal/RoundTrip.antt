-- ===== src/Journal/RoundTrip.antt =====
-- trusted_applet/internal/storage/slots/journal.go: unmarshalEntry after marshalEntry.
use mathlib.Core.Path.{subst}
use mathlib.Core.List.{append_assoc}
use armored_witness_applet.Prelude.{
  ℕ, ◌*◌, ◌^◌, ◌≤◌, ◌<◌, ◌≡◌, refl, sym, ap, ◌∙◌, List, ◌++◌, arith, length, word, length-append,
  take-length-append, drop-length-append, bytes_equal, bytes_equal_refl, get_uint, put_uint32,
  put_uint64, length-put_uint32, length-put_uint64, get-put_uint32, get-put_uint64, leb, true,
  false, ◌==◌, Bool, not, if◌then◌else◌, Bool-cases, bytes_equal_sound, ◌≢◌, inl, inr,
}
use armored_witness_applet.Result.{ok, err, incorrect_sha256}
use armored_witness_applet.Device.{Device}
use armored_witness_applet.Device.Laws.{IsBlockStore}
use armored_witness_applet.Journal.{Entry, magic0, size}
use armored_witness_applet.Journal.BlockReader.{Reader, read_full}
use armored_witness_applet.Journal.Filling.{Reads}
use armored_witness_applet.Journal.Reading.{read_full_lem}
use armored_witness_applet.Journal.Record.{make_bytes, marshal_entry, unmarshal_entry}

-- An entry that `Update` makes: what its header says is so, within the widths of its fields.
pub record IsSound (sha256 : List ℕ → List ℕ) (max_alloc : ℕ) (e : Entry) : Type 0 where
  pub prefix : e.magic ≡ magic0
  pub revision_pos : 0 < e.revision
  pub revision_lt : e.revision < 2 ^ 32
  pub counted : e.data_len ≡ length e.bytes
  pub data_len_lt : e.data_len < 2 ^ 64
  pub allocated : e.data_len ≤ max_alloc
  pub digest : e.data_sha256 ≡ sha256 e.bytes
  pub digest_size : length e.data_sha256 ≡ 32

if_not : {A : Type 0} → (x y : A) (b : Bool) → (if not b then x else y) ≡ (if b then y else x)
if_not x y true = refl
if_not x y false = refl

-- The record of an entry on storage.
abbrev pub encode : Entry → List ℕ
encode e =
    e.magic ++ (put_uint32 e.revision ++ (put_uint64 e.data_len ++ (e.data_sha256 ++ e.bytes)))

encode-append :
    (e : Entry) (more : List ℕ)
    → encode e ++ more
      ≡ e.magic
        ++ (put_uint32 e.revision
            ++ (put_uint64 e.data_len ++ (e.data_sha256 ++ (e.bytes ++ more))))
encode-append e more = simp append_assoc

module _ (sha256 : List ℕ → List ℕ) (max_alloc : ℕ) where
  pub length-encode : (e : Entry) → IsSound sha256 max_alloc e → length (encode e) ≡ size e
  length-encode e h = omega (
    arith,
    ap length h.prefix,
    h.digest_size,
    length-put_uint32 e.revision,
    length-put_uint64 e.data_len,
    length-append e.magic
        (put_uint32 e.revision ++ (put_uint64 e.data_len ++ (e.data_sha256 ++ e.bytes))),
    length-append (put_uint32 e.revision) (put_uint64 e.data_len ++ (e.data_sha256 ++ e.bytes)),
    length-append (put_uint64 e.data_len) (e.data_sha256 ++ e.bytes),
    length-append e.data_sha256 e.bytes,
  )

  -- A sound entry is marshalled.
  pub marshal_entry_lem :
      (e : Entry) → IsSound sha256 max_alloc e → marshal_entry sha256 e ≡ ok (encode e)
  unfolding marshal_entry
  marshal_entry_lem e h = rw (h.prefix, h.digest, bytes_equal_refl (sha256 e.bytes))

  module _ {S : Type 0} (dev : Device S) (s : S) where
    -- The calls of io.ReadFull that `unmarshalEntry` makes, on the parts of a record with the data `d`.
    pub record Parts (e : Entry) (d : List ℕ) (r₀ r₅ : Reader) : Type 0 where
      r₁ : Reader
      r₂ : Reader
      r₃ : Reader
      r₄ : Reader
      magic : read_full dev 4 s r₀ 4 ≡ ok (e.magic, r₁)
      revision : read_full dev 4 s r₁ 4 ≡ ok (put_uint32 e.revision, r₂)
      data_len : read_full dev 8 s r₂ 8 ≡ ok (put_uint64 e.data_len, r₃)
      data_sha256 : read_full dev 32 s r₃ 32 ≡ ok (e.data_sha256, r₄)
      bytes : read_full dev e.data_len s r₄ e.data_len ≡ ok (d, r₅)

    -- A record is read back exactly where its digest is that of its data.
    unmarshal-Parts :
        (e : Entry) (d : List ℕ) (r₀ r₅ : Reader)
        → IsSound sha256 max_alloc e
        → Parts e d r₀ r₅
        → unmarshal_entry dev sha256 max_alloc s r₀ ≡ (
            if bytes_equal (sha256 d) e.data_sha256
            then ok (record e { bytes = d }, r₅)
            else err incorrect_sha256)
    unfolding unmarshal_entry make_bytes
    unmarshal-Parts e d r₀ r₅ h p =
        let good_magic : bytes_equal e.magic magic0 ≡ true = rw h.prefix refl in
        let revision : get_uint 0 (put_uint32 e.revision) ≡ e.revision =
          get-put_uint32 e.revision h.revision_lt in
        let nonzero : (e.revision == 0) ≡ false = ground (arith, h.revision_pos) in
        let data_len : get_uint 0 (put_uint64 e.data_len) ≡ e.data_len =
          get-put_uint64 e.data_len h.data_len_lt in
        let enough : leb e.data_len max_alloc ≡ true = ground (arith, h.allocated) in
        rw
          (
            p.magic, good_magic, p.revision, revision, nonzero, p.data_len, p.data_sha256, data_len,
            enough, p.bytes,
          )
          (if_not (err incorrect_sha256) (ok (record e { bytes = d }, r₅))
            (bytes_equal (sha256 d) e.data_sha256))

  module _ {S : Type 0} {dev : Device S} {capacity : ℕ} {Valid : S → Type 0}
      {block : S → ℕ → List ℕ} (laws : IsBlockStore dev capacity Valid block) (top : ℕ) (s : S)
      (valid : Valid s) (top_in : top ≤ capacity) (fits : top * dev.block_size ≤ word) where
    -- io.ReadFull delivers the part that a run begins with.
    read_part :
        (br : Reader) (part more : List ℕ) (n : ℕ)
        → Reads laws top s valid top_in fits br (part ++ more)
        → length part ≡ n
        → (br' : Reader) × (read_full dev n s br n ≡ ok (part, br'))
          × Reads laws top s valid top_in fits br' more
    read_part br part more n r e =
        let (br', ran, r') =
          read_full_lem laws top s valid top_in fits n br (part ++ more) n r
            (omega (arith, length-append part more)) (omega arith) in
        (
          br',
          ran ∙ ap (λ l. ok (l, br')) (take-length-append n part more (sym e)),
          subst (λ l. Reads laws top s valid top_in fits br' l)
              (drop-length-append n part more (sym e)) r',
        )

    -- The parts of a record whose header is that of a sound entry, and whose data has its length.
    read-Parts :
        (e : Entry) (d : List ℕ) (br : Reader) (more : List ℕ)
        → IsSound sha256 max_alloc e
        → length d ≡ e.data_len
        → Reads laws top s valid top_in fits br (encode (record e { bytes = d }) ++ more)
        → (br' : Reader) × Parts dev s e d br br' × Reads laws top s valid top_in fits br' more
    read-Parts e d br more h size r =
        let (r₁, p₁, at₁) =
          read_part br e.magic
            (put_uint32 e.revision ++ (put_uint64 e.data_len ++ (e.data_sha256 ++ (d ++ more)))) 4
            (subst (Reads laws top s valid top_in fits br)
              (encode-append (record e { bytes = d }) more) r)
            (ap length h.prefix) in
        let (r₂, p₂, at₂) =
          read_part r₁ (put_uint32 e.revision)
            (put_uint64 e.data_len ++ (e.data_sha256 ++ (d ++ more))) 4 at₁
            (length-put_uint32 e.revision) in
        let (r₃, p₃, at₃) =
          read_part r₂ (put_uint64 e.data_len) (e.data_sha256 ++ (d ++ more)) 8 at₂
            (length-put_uint64 e.data_len) in
        let (r₄, p₄, at₄) = read_part r₃ e.data_sha256 (d ++ more) 32 at₃ h.digest_size in
        let (r₅, p₅, at₅) = read_part r₄ d more e.data_len at₄ size in
        (
          r₅,
          record {
            r₁ = r₁;
            r₂ = r₂;
            r₃ = r₃;
            r₄ = r₄;
            magic = p₁;
            revision = p₂;
            data_len = p₃;
            data_sha256 = p₄;
            bytes = p₅;
          },
          at₅,
        )

    -- `unmarshalEntry` reads back a sound entry, and leaves the reader behind its record.
    pub unmarshal_entry_lem :
        (e : Entry) (br : Reader) (more : List ℕ)
        → IsSound sha256 max_alloc e
        → Reads laws top s valid top_in fits br (encode e ++ more)
        → (br' : Reader) × (unmarshal_entry dev sha256 max_alloc s br ≡ ok (e, br'))
          × Reads laws top s valid top_in fits br' more
    unmarshal_entry_lem e br more h r =
        let (br', parts, left) = read-Parts e e.bytes br more h (sym h.counted) r in
        let good : bytes_equal (sha256 e.bytes) e.data_sha256 ≡ true =
          rw h.digest (bytes_equal_refl (sha256 e.bytes)) in
        (
          br',
          unmarshal-Parts dev s e e.bytes br br' h parts
              ∙ ap (λ b. if b then ok (e, br') else err incorrect_sha256) good,
          left,
        )

    -- `unmarshalEntry` refuses a record whose data has another digest than its header says.
    pub unmarshal_entry-torn :
        (e : Entry) (d : List ℕ) (br : Reader) (more : List ℕ)
        → IsSound sha256 max_alloc e
        → length d ≡ e.data_len
        → sha256 d ≢ e.data_sha256
        → Reads laws top s valid top_in fits br (encode (record e { bytes = d }) ++ more)
        → unmarshal_entry dev sha256 max_alloc s br ≡ err incorrect_sha256
    unmarshal_entry-torn e d br more h size differs r =
        let (br', parts, left) = read-Parts e d br more h size r in
        unmarshal-Parts dev s e d br br' h parts
        ∙ elim (Bool-cases (bytes_equal (sha256 d) e.data_sha256)) [
          | inl t ↦ absurd (differs (bytes_equal_sound (sha256 d) e.data_sha256 t))
          | inr f ↦ ap (λ b. if b then ok (record e { bytes = d }, br') else err incorrect_sha256) f
        ]
