-- ===== src/Storage/WalFields.antt =====
-- wal_format.go: the fields that the header of a binary record holds.
use veltrix_db.Base.{
  ℕ, ◌≤◌, ◌<◌, ◌^◌, ◌≡◌, ◌⊎◌, inl, inr, refl, Bool, false, List, ◌++◌, arith, Bool-cases,
  if◌then◌else◌, length, get_le-put_le, crc32c,
}
use veltrix_db.Storage.Int64.{is_positive}
use veltrix_db.Storage.Clock.{has_flag}
use veltrix_db.Storage.WalRecord.{
  WalEntry, WalReplayEntry, wal_max_record_field, is_inline, flags_of, disk_len_of, inline_value,
  wal_header, field, hdr_len, ttl_of,
}

-- The entry fits a record: its fields fit their words, its key is not too long, and a value that stands
-- in the record is not too long, with its length and its checksum.
pub record FitsWal (e : WalEntry) : Type 0 where
  pub key_fits : length e.key ≤ wal_max_record_field
  pub value_len_fits : e.value_len < 2 ^ 32
  pub disk_fits : e.disk_value_len < 2 ^ 32
  pub checksum_fits : e.checksum < 2 ^ 32
  pub xform_fits : e.xform_flags < 256
  pub timestamp_fits : e.timestamp < 2 ^ 64
  pub version_fits : e.version < 2 ^ 64
  pub offset_fits : e.vlog_offset < 2 ^ 64
  pub ttl_fits : e.ttl_expiry_us < 2 ^ 64
  pub inline_fits :
      (is_inline e ≡ false)
      ⊎ ((e.value_len ≡ length e.value)
          × (e.value_len ≤ wal_max_record_field)
          × (e.checksum ≡ crc32c e.value))

-- What replay sees of an entry.
abbrev pub replay_of : WalEntry → WalReplayEntry
replay_of e = record {
  key = e.key;
  is_tombstone = e.is_tombstone;
  packed = e.packed;
  value_len = e.value_len;
  disk_len = disk_len_of e;
  crc = e.checksum;
  xflags = e.xform_flags;
  timestamp_ns = e.timestamp;
  version = e.version;
  vlog_offset = e.vlog_offset;
  ttl_expiry_us = if is_positive e.ttl_expiry_us then e.ttl_expiry_us else 0;
  value = inline_value e;
}

flags_lt : (t p i : Bool) → flags_of t p i < 256 ^ 2
flags_lt t p i = ground arith

pub flag_tombstone_back : (t p i : Bool) → has_flag (flags_of t p i) 1 ≡ t
unfolding has_flag
flag_tombstone_back t p i = ground arith

pub flag_packed_back : (t p i : Bool) → has_flag (flags_of t p i) 2 ≡ p
unfolding has_flag
flag_packed_back t p i = ground arith

pub flag_inline_back : (t p i : Bool) → has_flag (flags_of t p i) 4 ≡ i
unfolding has_flag
flag_inline_back t p i = ground arith

-- The fields of a record that begins with the header of an entry.
pub record HasFields (e : WalEntry) (bs : List ℕ) : Type 0 where
  pub version_byte : field bs 1 1 ≡ (if is_positive e.ttl_expiry_us then 2 else 1)
  pub flags : field bs 2 2 ≡ flags_of e.is_tombstone e.packed (is_inline e)
  pub key_length : field bs 4 4 ≡ length e.key
  pub value_length : field bs 8 4 ≡ e.value_len
  pub disk_length : field bs 12 4 ≡ disk_len_of e
  pub checksum : field bs 16 4 ≡ e.checksum
  pub xflags : field bs 20 1 ≡ e.xform_flags
  pub timestamp : field bs 24 8 ≡ e.timestamp
  pub version : field bs 32 8 ≡ e.version
  pub offset : field bs 40 8 ≡ e.vlog_offset
  pub deadline : ttl_of bs ≡ (if is_positive e.ttl_expiry_us then e.ttl_expiry_us else 0)
  pub header : hdr_len bs ≡ length (wal_header e)

pub wal_header-HasFields :
    (e : WalEntry) (tail : List ℕ) → FitsWal e → HasFields e (wal_header e ++ tail)
wal_header-HasFields e tail w = record {
  version_byte = omega arith;
  flags =
      get_le-put_le 2 (flags_of e.is_tombstone e.packed (is_inline e))
        (flags_lt e.is_tombstone e.packed (is_inline e));
  key_length = get_le-put_le 4 (length e.key) (omega (arith, w.key_fits));
  value_length = get_le-put_le 4 e.value_len (omega (arith, w.value_len_fits));
  disk_length = get_le-put_le 4 (disk_len_of e) (ground (arith, w.value_len_fits, w.disk_fits));
  checksum = get_le-put_le 4 e.checksum (omega (arith, w.checksum_fits));
  xflags = omega arith;
  timestamp = get_le-put_le 8 e.timestamp (omega (arith, w.timestamp_fits));
  version = get_le-put_le 8 e.version (omega (arith, w.version_fits));
  offset = get_le-put_le 8 e.vlog_offset (omega (arith, w.offset_fits));
  deadline = elim (Bool-cases (is_positive e.ttl_expiry_us)) [
    | inl p ↦
        let f = get_le-put_le 8 e.ttl_expiry_us (omega (arith, w.ttl_fits)) in
        rw p (rw f (rw p refl))
    | inr p ↦ rw p refl
  ];
  header = elim (Bool-cases (is_positive e.ttl_expiry_us)) [
    | inl p ↦ rw p refl
    | inr p ↦ rw p refl
  ];
}
