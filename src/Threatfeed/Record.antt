-- ===== src/Threatfeed/Record.antt =====
-- internal/threatfeed/record.go and the decoding half of feed.go: the record codec.
use Prim.Native.Nat.{bit_and}
use keelix.Prelude.{
  ℕ, ◌+◌, ◌*◌, ◌/◌, ◌%◌, ◌<◌, ◌≡◌, refl, Bool, not, List, [], ◌∷◌, ◌++◌, Option, none, some, arith,
  ltb, ◌==◌, if◌then◌else◌, All, length,
}
use keelix.Text.{Text}

pub record Record : Type 0 where
  pub year : ℕ
  pub seq : ℕ
  pub flags : ℕ
  pub pctl : ℕ

abbrev pub record_size : ℕ
record_size = 8

abbrev flag_kev : ℕ
flag_kev = 1

abbrev flag_epss : ℕ
flag_epss = 2

abbrev pub pctl_buckets : ℕ
pctl_buckets = 200

-- record.kevListed
unfoldable pub has_kev : Record → Bool
has_kev r = not (bit_and r.flags flag_kev == 0)

-- record.epssPresent
unfoldable pub epss_present : Record → Bool
epss_present r = not (bit_and r.flags flag_epss == 0)

-- record.percentile, in 200ths
unfoldable pub percentile : Record → ℕ
percentile r = if ltb pctl_buckets r.pctl then pctl_buckets else r.pctl

-- encodeRecord, with the little-endian PutUint16 and PutUint32 written out
unfoldable pub encode_record : Record → Text
encode_record r =
    (r.year % 256)
    ∷ (r.year / 256 % 256)
    ∷ (r.seq % 256)
    ∷ (r.seq / 256 % 256)
    ∷ (r.seq / 65536 % 256)
    ∷ (r.seq / 16777216 % 256)
    ∷ r.flags
    ∷ r.pctl
    ∷ []

-- decodeRecord, on the eight bytes of one record
unfoldable pub decode_record : ℕ → ℕ → ℕ → ℕ → ℕ → ℕ → ℕ → ℕ → Record
decode_record y0 y1 s0 s1 s2 s3 f p = record {
  year = y0 + y1 * 256;
  seq = s0 + s1 * 256 + s2 * 65536 + s3 * 16777216;
  flags = f;
  pctl = p;
}

decode_all : Text → List Record
decode_all (y0 ∷ y1 ∷ s0 ∷ s1 ∷ s2 ∷ s3 ∷ f ∷ p ∷ raw) =
    decode_record y0 y1 s0 s1 s2 s3 f p ∷ decode_all raw
decode_all _ = []

-- The type tableState: none for a load error.
abbrev pub Table : Type 0
Table = Option (List Record)

-- load, after the blob has been unzipped; none where unzipping failed
unfoldable pub load : Option Text → Table
unfolding decode_all decode_record
load none = none
load (some raw) = if length raw % record_size == 0 then some (decode_all raw) else none

-- The ranges of the machine types uint16, uint32 and uint8.
pub record IsRecord (r : Record) : Type 0 where
  pub year_bound : r.year < 65536
  pub seq_bound : r.seq < 4294967296
  pub flags_bound : r.flags < 256
  pub pctl_bound : r.pctl < 256

-- encodeTable of gen/build.go
abbrev pub encode_table : List Record → Text
encode_table [] = []
encode_table (r ∷ rs) = encode_record r ++ encode_table rs

decode-encode_bytes :
    (r : Record)
    → IsRecord r
    → decode_record
        (r.year % 256)
        (r.year / 256 % 256)
        (r.seq % 256)
        (r.seq / 256 % 256)
        (r.seq / 65536 % 256)
        (r.seq / 16777216 % 256)
        r.flags
        r.pctl
      ≡ r
unfolding decode_record
decode-encode_bytes r v =
    λ i. record { year = year_back i; seq = seq_back i; flags = r.flags; pctl = r.pctl }
  where
    year_back : r.year % 256 + r.year / 256 % 256 * 256 ≡ r.year
    year_back = omega (arith, v.year_bound)

    seq_back :
        r.seq % 256
          + r.seq / 256 % 256 * 256
          + r.seq / 65536 % 256 * 65536
          + r.seq / 16777216 % 256 * 16777216
        ≡ r.seq
    seq_back = omega (arith, v.seq_bound)

decode_all-encode_table : (rs : List Record) → All IsRecord rs → decode_all (encode_table rs) ≡ rs
unfolding decode_all encode_record
decode_all-encode_table [] h = refl
decode_all-encode_table (r ∷ rs) (v, h) = rw (decode-encode_bytes r v, decode_all-encode_table rs h)

length-encode_table : (rs : List Record) → length (encode_table rs) ≡ length rs * 8
unfolding encode_record
length-encode_table [] = refl
length-encode_table (r ∷ rs) = omega (arith, length-encode_table rs)

-- Loading the bytes of any table of records within the ranges of their machine types gives the
-- table back, with no load error.
pub load-encode_table :
    (rs : List Record) → All IsRecord rs → load (some (encode_table rs)) ≡ some rs
unfolding load
load-encode_table rs h =
    let whole : length (encode_table rs) % 8 ≡ 0 = omega (arith, length-encode_table rs) in
    rw (decode_all-encode_table rs h) (ground arith)
