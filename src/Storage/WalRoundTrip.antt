-- ===== src/Storage/WalRoundTrip.antt =====
-- wal_format.go: a binary record is read back as it was written.
use veltrix_db.Base.{
  ℕ, ◌+◌, ◌≤◌, ◌≡◌, ◌⊎◌, inl, inr, refl, sym, subst, ap, ◌∙◌, Bool, true, false, not, ◌&&◌, ◌||◌,
  some, List, [], ◌++◌, arith, ltb, leb, ◌==◌, ==_iff, Bool-cases, if◌then◌else◌, length, take,
  drop, length-append, take_prefix, drop_prefix, put_le, get_le, get_le-put_le, crc32c, crc32c-lt,
}
use mathlib.Core.List.{append_assoc, append-nil}
use veltrix_db.Storage.Int64.{is_positive}
use veltrix_db.Storage.Clock.{has_flag}
use veltrix_db.Storage.WalRecord.{
  WalEntry, wal_max_record_field, is_inline, disk_len_of, inline_value, wal_header,
  append_wal_record_binary, field, inline_flag, hdr_len, body_len, has_record, body_of, value_of,
  read_entry, next_binary,
}
use veltrix_db.Storage.WalFields.{
  FitsWal, replay_of, flag_tombstone_back, flag_packed_back, flag_inline_back, HasFields,
  wal_header-HasFields,
}

-- The bytes of a record up to its checksum.
abbrev summed : WalEntry → List ℕ
summed e = wal_header e ++ (e.key ++ inline_value e)

next_binary_found :
    (bs rest : List ℕ)
    → has_record bs ≡ true
    → (crc32c (take (hdr_len bs + body_len bs) bs) == field bs (hdr_len bs + body_len bs) 4) ≡ true
    → (not (inline_flag bs) || crc32c (value_of bs) == field bs 16 4) ≡ true
    → drop (hdr_len bs + body_len bs + 4) bs ≡ rest
    → next_binary bs ≡ some (read_entry bs, rest)
unfolding next_binary
next_binary_found bs rest has crc value dr = rw (has, crc, value, dr) refl

if_same :
    (b : Bool) (x v : List ℕ)
    → x ≡ (if b then v else [])
    → (if b then x else []) ≡ (if b then v else [])
if_same true x v h = h
if_same false x v h = refl

pub hdr_len_ge : (bs : List ℕ) → 48 ≤ hdr_len bs
hdr_len_ge bs = at_least (field bs 1 1)
  where
    at_least : (v : ℕ) → 48 ≤ (if v == 2 then 56 else 48)
    at_least v = ground arith

tests_hold :
    (n h b v k l : ℕ) (i : Bool)
    → 48 ≤ h
    → (v ≡ 1) ⊎ (v ≡ 2)
    → k ≤ wal_max_record_field
    → (i ≡ false) ⊎ (l ≤ wal_max_record_field)
    → h + b + 4 ≤ n
    → (leb 48 n
        && (v == 1 || v == 2)
        && leb h n
        && not (ltb wal_max_record_field k)
        && not (i && ltb wal_max_record_field l)
        && leb (h + b + 4) n)
      ≡ true
tests_hold n h b v k l i p q r s t = ground arith

body_sum :
    (i : Bool) (k l : ℕ) (key value : List ℕ)
    → k ≡ length key
    → (i ≡ false) ⊎ (l ≡ length value)
    → k + (if i then l else 0) ≡ length (key ++ (if i then value else []))
body_sum true k l key value h g = ground (arith, length-append key value)
body_sum false k l key value h g = omega (arith, h, length-append key [])

disk_back :
    (e : WalEntry) → (if disk_len_of e == 0 then e.value_len else disk_len_of e) ≡ disk_len_of e
disk_back e = ground arith

-- The checksum of a record, and what follows it.
abbrev trailer : WalEntry → List ℕ → List ℕ
trailer e rest = put_le 4 (crc32c (summed e)) ++ rest

module _ (e : WalEntry) (rest bs : List ℕ) (w : FitsWal e)
    (bytes : bs ≡ summed e ++ trailer e rest) where
  bytes_split : bs ≡ wal_header e ++ ((e.key ++ inline_value e) ++ trailer e rest)
  bytes_split = bytes ∙ append_assoc (wal_header e) (e.key ++ inline_value e) (trailer e rest)

  bs-HasFields : HasFields e bs
  bs-HasFields =
      subst (HasFields e) (sym bytes_split)
        (wal_header-HasFields e ((e.key ++ inline_value e) ++ trailer e rest) w)

  inline_same : inline_flag bs ≡ is_inline e
  inline_same =
      ap (λ x. has_flag x 4) bs-HasFields.flags
      ∙ flag_inline_back e.is_tombstone e.packed (is_inline e)

  value_choice : (is_inline e ≡ false) ⊎ (field bs 8 4 ≡ length e.value)
  value_choice = elim w.inline_fits [
    | inl absent ↦ inl absent
    | inr (len, _, _) ↦ inr (bs-HasFields.value_length ∙ len)
  ]

  -- The key and the value.
  body_length : body_len bs ≡ length (e.key ++ inline_value e)
  body_length =
      ap (λ i. field bs 4 4 + (if i then field bs 8 4 else 0)) inline_same
      ∙ body_sum (is_inline e) (field bs 4 4) (field bs 8 4) e.key e.value bs-HasFields.key_length
          value_choice

  length-summed : hdr_len bs + body_len bs ≡ length (summed e)
  length-summed = omega (
    arith,
    bs-HasFields.header,
    body_length,
    length-append (wal_header e) (e.key ++ inline_value e),
  )

  body_same : body_of bs ≡ e.key ++ inline_value e
  body_same =
      let after = (e.key ++ inline_value e) ++ trailer e rest in
      ap (take (body_len bs)) (
        ap (drop (hdr_len bs)) bytes_split
        ∙ drop_prefix (wal_header e) after (hdr_len bs) (sym bs-HasFields.header))
      ∙ take_prefix (e.key ++ inline_value e) (trailer e rest) (body_len bs) (sym body_length)

  key_same : take (field bs 4 4) (body_of bs) ≡ e.key
  key_same =
      ap (take (field bs 4 4)) body_same
      ∙ take_prefix e.key (inline_value e) (field bs 4 4) (sym bs-HasFields.key_length)

  value_same : value_of bs ≡ inline_value e
  value_same =
      let x = drop (field bs 4 4) (body_of bs) in
      ap (λ b. if b then x else []) inline_same
      ∙ if_same (is_inline e) x e.value (
          ap (drop (field bs 4 4)) body_same
          ∙ drop_prefix e.key (inline_value e) (field bs 4 4) (sym bs-HasFields.key_length))

  sum_same :
      (crc32c (take (hdr_len bs + body_len bs) bs) == field bs (hdr_len bs + body_len bs) 4) ≡ true
  sum_same =
      let n = hdr_len bs + body_len bs in
      let before : take n bs ≡ summed e =
        ap (take n) bytes ∙ take_prefix (summed e) (trailer e rest) n (sym length-summed) in
      let after : field bs n 4 ≡ crc32c (summed e) =
        ap (λ l. get_le (take 4 l))
          (ap (drop n) bytes ∙ drop_prefix (summed e) (trailer e rest) n (sym length-summed))
        ∙ get_le-put_le 4 (crc32c (summed e)) (crc32c-lt (summed e)) in
      (==_iff (crc32c (take n bs)) (field bs n 4)).1 (ap crc32c before ∙ sym after)

  value_sum_same : (not (inline_flag bs) || crc32c (value_of bs) == field bs 16 4) ≡ true
  value_sum_same =
      choose (inline_flag bs) (crc32c (value_of bs)) (field bs 16 4) (elim w.inline_fits [
        | inl absent ↦ inl (inline_same ∙ absent)
        | inr (_, _, sum) ↦ elim (Bool-cases (is_inline e)) [
          | inr absent ↦ inl (inline_same ∙ absent)
          | inl h ↦ inr (
              ap crc32c (value_same ∙ ap (λ b. if b then e.value else []) h)
              ∙ sym sum
              ∙ sym bs-HasFields.checksum)
        ]
      ])
    where
      choose : (i : Bool) (a b : ℕ) → (i ≡ false) ⊎ (a ≡ b) → (not i || a == b) ≡ true
      choose i a b h = ground arith

  rest_same : drop (hdr_len bs + body_len bs + 4) bs ≡ rest
  rest_same =
      let c = put_le 4 (crc32c (summed e)) in
      ap (drop (hdr_len bs + body_len bs + 4)) (bytes ∙ sym (append_assoc (summed e) c rest))
      ∙ drop_prefix (summed e ++ c) rest (hdr_len bs + body_len bs + 4)
          (omega (arith, length-summed, length-append (summed e) c))

  bytes_length : hdr_len bs + body_len bs + 4 ≤ length bs
  bytes_length =
      omega (arith, ap length bytes, length-summed, length-append (summed e) (trailer e rest))

  whole : has_record bs ≡ true
  whole =
      let f = bs-HasFields in
      tests_hold (length bs) (hdr_len bs) (body_len bs) (field bs 1 1) (field bs 4 4) (field bs 8 4)
        (inline_flag bs) (hdr_len_ge bs)
        (elim (Bool-cases (is_positive e.ttl_expiry_us)) [
          | inl p ↦ inr (f.version_byte ∙ ap (λ b. if b then 2 else 1) p)
          | inr p ↦ inl (f.version_byte ∙ ap (λ b. if b then 2 else 1) p)
        ])
        (omega (arith, f.key_length, w.key_fits))
        (elim w.inline_fits [
          | inl absent ↦ inl (inline_same ∙ absent)
          | inr (_, le, _) ↦ inr (omega (arith, f.value_length, le))
        ])
        bytes_length

  entry_same : read_entry bs ≡ replay_of e
  unfolding read_entry
  entry_same =
      let f = bs-HasFields in
      rw
        (
          key_same,
          value_same,
          f.flags,
          flag_tombstone_back e.is_tombstone e.packed (is_inline e),
          flag_packed_back e.is_tombstone e.packed (is_inline e),
          f.value_length,
          f.disk_length,
          disk_back e,
          f.checksum,
          f.xflags,
          f.timestamp,
          f.version,
          f.offset,
          f.deadline,
        )
        refl

-- The lengths that a record alone claims are its own.
pub record_span :
    (e : WalEntry)
    → FitsWal e
    → let bs = append_wal_record_binary e in hdr_len bs + body_len bs + 4 ≡ length bs
unfolding append_wal_record_binary
record_span e w =
    let bs = append_wal_record_binary e in
    let c = put_le 4 (crc32c (summed e)) in
    let split : bs ≡ summed e ++ trailer e [] = ap (λ l. summed e ++ l) (sym (append-nil c)) in
    omega (arith, length-summed e [] bs w split, length-append (summed e) c)

-- A binary record of the log is read back as the entry that it was written for, and the bytes after it
-- are left, if the entry fits a record.
pub next_binary-append_wal_record_binary :
    (e : WalEntry) (rest : List ℕ)
    → FitsWal e
    → next_binary (append_wal_record_binary e ++ rest) ≡ some (replay_of e, rest)
unfolding append_wal_record_binary
next_binary-append_wal_record_binary e rest w =
    let bs = append_wal_record_binary e ++ rest in
    let split : bs ≡ summed e ++ trailer e rest =
      append_assoc (summed e) (put_le 4 (crc32c (summed e))) rest in
    next_binary_found bs rest (whole e rest bs w split) (sum_same e rest bs w split)
      (value_sum_same e rest bs w split) (rest_same e rest bs w split)
    ∙ ap (λ r. some (r, rest)) (entry_same e rest bs w split)
