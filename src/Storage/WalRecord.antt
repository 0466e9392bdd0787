-- ===== src/Storage/WalRecord.antt =====
-- storage/wal_format.go: the binary records of the write-ahead log. Signed fields are 64-bit words.
use veltrix_db.Base.{
  ℕ, ◌+◌, Bool, not, ◌&&◌, ◌||◌, Option, none, some, List, [], ◌∷◌, ◌++◌, ltb, leb, ◌==◌,
  if◌then◌else◌, length, take, drop, put_le, get_le, crc32c,
}
use veltrix_db.Storage.Int64.{is_positive}
use veltrix_db.Storage.Clock.{has_flag}

-- WALEntry; keys and values are their bytes
pub record WalEntry : Type 0 where
  pub timestamp : ℕ
  pub is_tombstone : Bool
  pub key : List ℕ
  pub value : List ℕ
  pub value_len : ℕ
  pub checksum : ℕ
  pub version : ℕ
  pub vlog_offset : ℕ
  pub packed : Bool
  pub disk_value_len : ℕ
  pub xform_flags : ℕ
  pub ttl_expiry_us : ℕ

-- walReplayEntry
pub record WalReplayEntry : Type 0 where
  pub key : List ℕ
  pub is_tombstone : Bool
  pub packed : Bool
  pub value_len : ℕ
  pub disk_len : ℕ
  pub crc : ℕ
  pub xflags : ℕ
  pub timestamp_ns : ℕ
  pub version : ℕ
  pub vlog_offset : ℕ
  pub ttl_expiry_us : ℕ
  pub value : List ℕ

abbrev pub wal_bin_magic : ℕ
wal_bin_magic = 177

abbrev pub wal_bin_header_size : ℕ
wal_bin_header_size = 48

abbrev pub wal_bin_ttl_size : ℕ
wal_bin_ttl_size = 8

abbrev pub wal_bin_trailer : ℕ
wal_bin_trailer = 4

abbrev pub wal_max_record_field : ℕ
wal_max_record_field = 1_073_741_824

-- The value stands in the record.
abbrev pub is_inline : WalEntry → Bool
is_inline e = not e.is_tombstone && ltb 0 (length e.value) && e.vlog_offset == 0

-- The three flags, which are different bits.
abbrev pub flags_of : Bool → Bool → Bool → ℕ
flags_of tombstone packed inline =
    (if tombstone then 1 else 0) + (if packed then 2 else 0) + (if inline then 4 else 0)

-- The length on disk, the plain length where nothing was transformed.
abbrev pub disk_len_of : WalEntry → ℕ
disk_len_of e = if e.disk_value_len == 0 then e.value_len else e.disk_value_len

abbrev pub inline_value : WalEntry → List ℕ
inline_value e = if is_inline e then e.value else []

-- The header, with its deadline where the entry has one.
abbrev pub wal_header : WalEntry → List ℕ
wal_header e =
    wal_bin_magic
      ∷ (if is_positive e.ttl_expiry_us then 2 else 1)
      ∷ put_le 2 (flags_of e.is_tombstone e.packed (is_inline e))
    ++ put_le 4 (length e.key)
    ++ put_le 4 e.value_len
    ++ put_le 4 (disk_len_of e)
    ++ put_le 4 e.checksum
    ++ e.xform_flags ∷ 0 ∷ 0 ∷ 0 ∷ put_le 8 e.timestamp
    ++ put_le 8 e.version
    ++ put_le 8 e.vlog_offset
    ++ (if is_positive e.ttl_expiry_us then put_le 8 e.ttl_expiry_us else [])

-- appendWALRecordBinary, on an empty buffer
unfoldable pub append_wal_record_binary : WalEntry → List ℕ
append_wal_record_binary e =
    let r = wal_header e ++ (e.key ++ inline_value e) in r ++ put_le 4 (crc32c r)

-- `w` bytes of a record at an offset, as a number
abbrev pub field : List ℕ → ℕ → ℕ → ℕ
field bs off w = get_le (take w (drop off bs))

abbrev pub inline_flag : List ℕ → Bool
inline_flag bs = has_flag (field bs 2 2) 4

abbrev pub hdr_len : List ℕ → ℕ
hdr_len bs =
    if field bs 1 1 == 2 then wal_bin_header_size + wal_bin_ttl_size else wal_bin_header_size

abbrev pub body_len : List ℕ → ℕ
body_len bs = field bs 4 4 + (if inline_flag bs then field bs 8 4 else 0)

-- All bytes of a record are there, and its version and lengths are possible.
abbrev pub has_record : List ℕ → Bool
has_record bs =
    leb wal_bin_header_size (length bs)
    && (field bs 1 1 == 1 || field bs 1 1 == 2)
    && leb (hdr_len bs) (length bs)
    && not (ltb wal_max_record_field (field bs 4 4))
    && not (inline_flag bs && ltb wal_max_record_field (field bs 8 4))
    && leb (hdr_len bs + body_len bs + wal_bin_trailer) (length bs)

abbrev pub body_of : List ℕ → List ℕ
body_of bs = take (body_len bs) (drop (hdr_len bs) bs)

abbrev pub value_of : List ℕ → List ℕ
value_of bs = if inline_flag bs then drop (field bs 4 4) (body_of bs) else []

-- The deadline of a record, where it has one that is positive.
abbrev pub ttl_of : List ℕ → ℕ
ttl_of bs = if field bs 1 1 == 2 && is_positive (field bs 48 8) then field bs 48 8 else 0

-- The entry of a record whose checksums are right.
unfoldable pub read_entry : List ℕ → WalReplayEntry
read_entry bs = record {
  key = take (field bs 4 4) (body_of bs);
  is_tombstone = has_flag (field bs 2 2) 1;
  packed = has_flag (field bs 2 2) 2;
  value_len = field bs 8 4;
  disk_len = if field bs 12 4 == 0 then field bs 8 4 else field bs 12 4;
  crc = field bs 16 4;
  xflags = field bs 20 1;
  timestamp_ns = field bs 24 8;
  version = field bs 32 8;
  vlog_offset = field bs 40 8;
  ttl_expiry_us = ttl_of bs;
  value = value_of bs;
}

-- nextBinary: the entry and the bytes after it, none for errWALTail; the bytes end as a file does
unfoldable pub next_binary : List ℕ → Option (WalReplayEntry × List ℕ)
unfolding read_entry
next_binary bs =
    let n = hdr_len bs + body_len bs in
    if has_record bs
      && crc32c (take n bs) == field bs n 4
      && (not (inline_flag bs) || crc32c (value_of bs) == field bs 16 4)
    then some (read_entry bs, drop (n + wal_bin_trailer) bs)
    else none
