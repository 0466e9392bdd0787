-- ===== src/Raft/RecordLaws.antt =====
-- raft_storage.go: records that are read back, and a record torn by a crash.
use veltrix_db.Base.{
  ℕ, zero, suc, ◌+◌, ◌-◌, ◌*◌, ◌≤◌, ◌<◌, ◌^◌, ◌≡◌, refl, ap, ◌∙◌, true, false, none, some, List, [],
  ◌∷◌, ◌++◌, arith, ◌==◌, ==_iff, length, take, drop, length-append, length-take, length-drop,
  take-take, dec_lt, take_prefix, drop_prefix, get_le, get_le-put_le, crc32c, crc32c-lt,
}
use mathlib.Core.List.{append_assoc}
use veltrix_db.Raft.Types.{EntryType, entry_normal, entry_config, entry_other, LogEntry}
use veltrix_db.Raft.Store.{replay, replay_record}
use veltrix_db.Raft.Records.{
  rec_hdr_len, rec_fixed_len, max_rec_payload, type_byte, byte_type, payload_of, encode_record,
  encode_records, entry_of, claimed_len, claimed_crc, has_payload, next_record, replay_bytes,
  replay_file,
}

-- A byte of the type that is read as the same type.
abbrev pub IsType : EntryType → Type 0
IsType entry_normal = Unit
IsType entry_config = Unit
IsType (entry_other b) = (2 ≤ b) × (b < 256)

-- The entry fits a record: words of 64 bits, and a payload that replay accepts.
pub record Fits (e : LogEntry) : Type 0 where
  pub term_fits : e.term < 2 ^ 64
  pub index_fits : e.index < 2 ^ 64
  pub typ_fits : IsType e.typ
  pub command_fits : rec_fixed_len + length e.command ≤ max_rec_payload

type_back : (t : EntryType) → IsType t → byte_type (get_le (type_byte t ∷ [])) ≡ t
type_back entry_normal h = refl
type_back entry_config h = refl
type_back (entry_other b) h =
    let z : b + 256 * 0 ≡ b = omega arith in
    let n0 : (b == 0) ≡ false = ground arith in
    let n1 : (b == 1) ≡ false = ground arith in rw (z, n0, n1) refl

entry_of-payload_of : (e : LogEntry) → Fits e → entry_of (payload_of e) ≡ e
entry_of-payload_of e w =
    rw
      (
        get_le-put_le 8 e.term w.term_fits,
        get_le-put_le 8 e.index w.index_fits,
        type_back e.typ w.typ_fits,
      )
      refl

next_record_found :
    (bs rest payload : List ℕ) (n : ℕ)
    → has_payload bs ≡ true
    → claimed_len bs ≡ n
    → take n (drop rec_hdr_len bs) ≡ payload
    → drop n (drop rec_hdr_len bs) ≡ rest
    → claimed_crc bs ≡ crc32c payload
    → next_record bs ≡ some (entry_of payload, rest)
unfolding next_record
next_record_found bs rest payload n has len tk dr crc =
    let same : (crc32c payload == crc32c payload) ≡ true =
      (==_iff (crc32c payload) (crc32c payload)).1 refl in
    rw (has, len, tk, dr, crc, same) refl

next_record_short : (bs : List ℕ) → has_payload bs ≡ false → next_record bs ≡ none
unfolding next_record
next_record_short bs h = rw h refl

payload_length : (e : LogEntry) → length (payload_of e) ≡ rec_fixed_len + length e.command
payload_length e = omega arith

claimed_len-encode :
    (e : LogEntry) (rest : List ℕ)
    → Fits e
    → claimed_len (encode_record e ++ rest) ≡ rec_fixed_len + length e.command
unfolding encode_record
claimed_len-encode e rest w =
    get_le-put_le 4 (rec_fixed_len + length e.command) (omega (arith, w.command_fits))

-- A record is read back whatever follows it.
pub next_record-encode_record :
    (e : LogEntry) (rest : List ℕ) → Fits e → next_record (encode_record e ++ rest) ≡ some (e, rest)
unfolding encode_record
next_record-encode_record e rest w =
    let payload = payload_of e in
    let n = rec_fixed_len + length e.command in
    let bs = encode_record e ++ rest in
    let len = claimed_len-encode e rest w in
    let has : has_payload bs ≡ true =
      ground (arith, len, w.command_fits, length-append payload rest, payload_length e) in
    next_record_found bs rest payload n has len (take_prefix payload rest n (payload_length e))
      (drop_prefix payload rest n (payload_length e))
      (get_le-put_le 4 (crc32c payload) (crc32c-lt payload))
    ∙ ap (λ x. some (x, rest)) (entry_of-payload_of e w)

record_len :
    (e : LogEntry) → Fits e → claimed_len (encode_record e) ≡ rec_fixed_len + length e.command
unfolding encode_record
record_len e w = get_le-put_le 4 (rec_fixed_len + length e.command) (omega (arith, w.command_fits))

length-encode_record :
    (e : LogEntry) → length (encode_record e) ≡ rec_hdr_len + (rec_fixed_len + length e.command)
unfolding encode_record
length-encode_record e = omega (arith, payload_length e)

-- The first bytes of a record alone are no record.
torn_record :
    (e : LogEntry) (k : ℕ)
    → Fits e
    → k < length (encode_record e)
    → next_record (take k (encode_record e)) ≡ none
torn_record e k w h =
    let bs = encode_record e in
    let count : length (take k bs) ≡ k = omega (arith, length-take k bs) in
    let rest : length (drop rec_hdr_len (take k bs)) ≡ k - rec_hdr_len =
      omega (arith, length-drop rec_hdr_len (take k bs), count) in
    next_record_short (take k bs) (elim (dec_lt k rec_hdr_len) [
      | yes short ↦ ground (arith, count)
      | no long ↦
          let len : claimed_len (take k bs) ≡ rec_fixed_len + length e.command =
            ap get_le (take-take 4 k bs (omega arith)) ∙ record_len e w in
          ground (arith, count, rest, len, length-encode_record e)
    ])

-- Every entry fits a record.
abbrev pub AllFit : List LogEntry → Type 0
AllFit [] = Unit
AllFit (e ∷ es) = Fits e × AllFit es

replay_bytes-encode :
    (es : List LogEntry) (fuel : ℕ) (st : List LogEntry × ℕ) (torn : List ℕ)
    → AllFit es
    → length es < fuel
    → next_record torn ≡ none
    → replay_bytes fuel st (encode_records es ++ torn) ≡ (replay st es, torn)
unfolding replay_bytes encode_records replay
replay_bytes-encode es zero st torn w h t = absurd (omega arith)
replay_bytes-encode [] (suc fuel) st torn w h t = rw (t, replay_bytes) refl
replay_bytes-encode (e ∷ es) (suc fuel) st torn w h t =
    let rest = encode_records es ++ torn in
    let bs = append_assoc (encode_record e) (encode_records es) torn in
    rw (bs, next_record-encode_record e rest w.0, replay_bytes)
      (replay_bytes-encode es fuel (replay_record st e) torn w.1 (omega arith) t)

records_le : (es : List LogEntry) → length es ≤ length (encode_records es)
unfolding encode_records
records_le [] = omega arith
records_le (e ∷ es) = omega (
  arith,
  records_le es,
  length-append (encode_record e) (encode_records es),
  length-encode_record e,
)

-- A log file that ends in the first bytes of a record, as a crash within a write leaves it, replays to
-- the log of the whole records before it, and the bytes that are cut off are those of the torn record, if
-- all entries fit records.
pub replay_file-encode_records :
    (es : List LogEntry) (e : LogEntry) (k : ℕ)
    → AllFit es
    → Fits e
    → k < length (encode_record e)
    → let torn = take k (encode_record e) in
      replay_file (encode_records es ++ torn) ≡ (replay ([], 0) es, torn)
unfolding replay_file
replay_file-encode_records es e k w x h =
    let torn = take k (encode_record e) in
    replay_bytes-encode es (suc (length (encode_records es ++ torn))) ([], 0) torn w
      (omega (arith, records_le es, length-append (encode_records es) torn)) (torn_record e k x h)
