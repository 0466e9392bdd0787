-- ===== src/Raft/Records.antt =====
-- consensus/raft_storage.go: the bytes of the log file after its header.
use veltrix_db.Base.{
  ℕ, zero, suc, ◌+◌, Bool, not, ◌&&◌, ◌||◌, Option, none, some, List, [], ◌∷◌, ◌++◌, ltb, ◌==◌,
  if◌then◌else◌, length, take, drop, put_le, get_le, crc32c,
}
use veltrix_db.Raft.Types.{EntryType, entry_normal, entry_config, entry_other, LogEntry}
use veltrix_db.Raft.Store.{replay_record}

abbrev pub rec_hdr_len : ℕ
rec_hdr_len = 8

abbrev pub rec_fixed_len : ℕ
rec_fixed_len = 17

abbrev pub max_rec_payload : ℕ
max_rec_payload = 1_073_741_824

-- byte(e.Type)
abbrev pub type_byte : EntryType → ℕ
type_byte entry_normal = 0
type_byte entry_config = 1
type_byte (entry_other b) = b

-- EntryType(payload[16])
abbrev pub byte_type : ℕ → EntryType
byte_type b = if b == 0 then entry_normal else if b == 1 then entry_config else entry_other b

-- The term, the index, the type and the command of an entry.
abbrev pub payload_of : LogEntry → List ℕ
payload_of e = put_le 8 e.term ++ put_le 8 e.index ++ type_byte e.typ ∷ e.command

-- encodeRecords, one entry
unfoldable pub encode_record : LogEntry → List ℕ
encode_record e =
    let payload = payload_of e in
    put_le 4 (rec_fixed_len + length e.command) ++ put_le 4 (crc32c payload) ++ payload

-- encodeRecords
unfoldable pub encode_records : List LogEntry → List ℕ
encode_records [] = []
encode_records (e ∷ es) = encode_record e ++ encode_records es

-- The entry of a payload whose checksum is right.
abbrev pub entry_of : List ℕ → LogEntry
entry_of payload = record {
  term = get_le (take 8 payload);
  index = get_le (take 8 (drop 8 payload));
  typ = byte_type (get_le (take 1 (drop 16 payload)));
  command = drop rec_fixed_len payload;
}

-- The length and the checksum that a record header gives.
abbrev pub claimed_len : List ℕ → ℕ
claimed_len bs = get_le (take 4 bs)

abbrev pub claimed_crc : List ℕ → ℕ
claimed_crc bs = get_le (take 4 (drop 4 bs))

-- The length of a record is possible, and its bytes are in the file.
abbrev pub has_payload : List ℕ → Bool
has_payload bs = not (
    ltb (length bs) rec_hdr_len
    || ltb (claimed_len bs) rec_fixed_len
    || ltb max_rec_payload (claimed_len bs)
    || ltb (length (drop rec_hdr_len bs)) (claimed_len bs))

-- One turn of the loop of `replay`: the next good record and the bytes after it.
unfoldable pub next_record : List ℕ → Option (LogEntry × List ℕ)
next_record bs =
    let n = claimed_len bs in
    let rest = drop rec_hdr_len bs in
    if has_payload bs && crc32c (take n rest) == claimed_crc bs
    then some (entry_of (take n rest), drop n rest)
    else none

-- The loop of `replay`, on fuel: the log, the last index before a gap, and the bytes that are not good.
unfoldable pub replay_bytes : ℕ → List LogEntry × ℕ → List ℕ → (List LogEntry × ℕ) × List ℕ
replay_bytes zero st bs = (st, bs)
replay_bytes (suc fuel) st bs = elim (next_record bs) [
  | none ↦ (st, bs)
  | some (e, rest) ↦ replay_bytes fuel (replay_record st e) rest
]

-- replay, of the bytes after the header of the file
unfoldable pub replay_file : List ℕ → (List LogEntry × ℕ) × List ℕ
replay_file bs = replay_bytes (suc (length bs)) ([], 0) bs
