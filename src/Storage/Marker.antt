-- ===== src/Storage/Marker.antt =====
-- storage/raft_applied.go: the marker of the raft applied index as bytes.
use veltrix_db.Base.{
  ℕ, zero, suc, ◌+◌, ◌-◌, ◌*◌, Bool, not, ◌&&◌, ◌||◌, Option, none, some, List, [], ◌∷◌, ◌++◌, ltb,
  ◌==◌, if◌then◌else◌, length, take, drop, put_le, get_le, crc32c, put_uvarint, get_uvarint,
  bytes_eq,
}

-- versionRange, from `lo` exclusive to `hi` inclusive
pub record VersionRange : Type 0 where
  pub lo : ℕ
  pub hi : ℕ

unfoldable pub range_contains : VersionRange → ℕ → Bool
range_contains r v = ltb r.lo v && not (ltb r.hi v)

-- appliedMarker; the int64 times are their 64-bit words
pub record AppliedMarker : Type 0 where
  pub index : ℕ
  pub term : ℕ
  pub flags : ℕ
  pub ver : ℕ
  pub dead : List VersionRange
  pub clock : ℕ
  pub floor : ℕ

-- appliedMarkerMagic, "VXAI", and appliedMarkerFormat
abbrev pub applied_marker_magic : List ℕ
applied_marker_magic = 86 ∷ 88 ∷ 65 ∷ 73 ∷ []

abbrev pub applied_marker_format : ℕ
applied_marker_format = 2

unfoldable pub put_ranges : List VersionRange → List ℕ
put_ranges [] = []
put_ranges (r ∷ rs) = put_le 8 r.lo ++ (put_le 8 r.hi ++ put_ranges rs)

-- The optional times at the end.
unfoldable pub clock_trailer : AppliedMarker → List ℕ
clock_trailer m =
    if m.clock == 0 && m.floor == 0 then [] else put_uvarint m.clock ++ put_uvarint m.floor

-- What the checksum of `encode` covers.
unfoldable pub marker_body : AppliedMarker → List ℕ
unfolding put_ranges clock_trailer
marker_body m =
    applied_marker_magic
    ++ applied_marker_format
      ∷ m.flags
      ∷ (put_le 8 m.index
          ++ (put_le 8 m.term
              ++ (put_le 8 m.ver
                  ++ (put_uvarint (length m.dead) ++ (put_ranges m.dead ++ clock_trailer m)))))

-- appliedMarker.encode
unfoldable pub encode_marker : AppliedMarker → List ℕ
unfolding marker_body
encode_marker m = marker_body m ++ put_le 4 (crc32c (marker_body m))

unfoldable pub get_ranges : ℕ → List ℕ → List VersionRange
get_ranges zero bs = []
get_ranges (suc n) bs =
    record { lo = get_le (take 8 bs); hi = get_le (take 8 (drop 8 bs)) } ∷ get_ranges n (drop 16 bs)

-- The times at the end, none for bytes that are not two numbers.
unfoldable pub get_clock : List ℕ → Option (ℕ × ℕ)
get_clock [] = some (0, 0)
get_clock (b ∷ bs) = elim (get_uvarint (b ∷ bs)) [
  | none ↦ none
  | some (clock, k1) ↦ elim (get_uvarint (drop k1 (b ∷ bs))) [
    | none ↦ none
    | some (floor, k2) ↦ if k1 + k2 == length (b ∷ bs) then some (clock, floor) else none
  ]
]

-- a field of the header
abbrev pub word_at : List ℕ → ℕ → ℕ
word_at b at = get_le (take 8 (drop at b))

unfoldable pub byte_at : List ℕ → ℕ → ℕ
byte_at b at = get_le (take 1 (drop at b))

-- The marker with `n` dead ranges in `rest`, after its header in `b`.
unfoldable pub get_marker : List ℕ → ℕ → List ℕ → Option AppliedMarker
unfolding get_ranges get_clock byte_at
get_marker b n rest = elim (get_clock (drop (n * 16) rest)) [
  | none ↦ none
  | some (clock, floor) ↦ some (record {
    index = word_at b 6;
    term = word_at b 14;
    flags = byte_at b 5;
    ver = word_at b 22;
    dead = get_ranges n rest;
    clock = clock;
    floor = floor;
  })
]

-- Too short, or not a marker of this format.
unfoldable pub not_marker : List ℕ → Bool
unfolding byte_at
not_marker b =
    ltb (length b) 35
    || not (bytes_eq (take 4 b) applied_marker_magic)
    || not (byte_at b 4 == applied_marker_format)

-- What follows the header of the body: the number of dead ranges, the ranges and the times. The product
-- does not wrap, since `n` is then a length of `rest` at most.
unfoldable pub get_tail : List ℕ → List ℕ → Option AppliedMarker
unfolding get_marker
get_tail b rest = elim (get_uvarint rest) [
  | none ↦ none
  | some (n, k) ↦
      if ltb (length rest) n || ltb (length rest - k) (n * 16)
      then none
      else get_marker b n (drop k rest)
]

-- decodeAppliedMarker
unfoldable pub decode_marker : List ℕ → Option AppliedMarker
unfolding not_marker get_tail
decode_marker b =
    let body = take (length b - 4) b in
    if not_marker b || not (crc32c body == get_le (drop (length b - 4) b))
    then none
    else get_tail b (drop 30 body)
