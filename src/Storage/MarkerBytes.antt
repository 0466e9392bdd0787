-- ===== src/Storage/MarkerBytes.antt =====
-- raft_applied.go: a marker is read back as it was written.
use veltrix_db.Base.{
  ℕ, ◌+◌, ◌-◌, ◌*◌, ◌≤◌, ◌<◌, ◌^◌, ◌≡◌, refl, sym, ap, ◌∙◌, true, false, ◌&&◌, some, List, [], ◌∷◌,
  ◌++◌, ltb, arith, ◌==◌, length, take, drop, put_le, get_le, crc32c, crc32c-lt, put_uvarint,
  get_uvarint, get_le-put_le, length-put_le, get_uvarint-put_uvarint, length-put_uvarint, All,
  length-append, take_prefix, drop_prefix, and-true, ==_iff, Bool-cases, inl, inr,
}
use veltrix_db.Storage.Marker.{
  VersionRange, AppliedMarker, put_ranges, clock_trailer, marker_body, encode_marker, get_ranges,
  get_clock, word_at, byte_at, get_marker, not_marker, get_tail, decode_marker,
}
use mathlib.Core.List.{append-nil}

-- A marker whose fields fit their words.
pub record FitsMarker (m : AppliedMarker) : Type 0 where
  pub index : m.index < 2 ^ 64
  pub term : m.term < 2 ^ 64
  pub flags : m.flags < 256
  pub ver : m.ver < 2 ^ 64
  pub count : length m.dead < 2 ^ 64
  pub dead : All (λ (r : VersionRange). (r.lo < 2 ^ 64) × (r.hi < 2 ^ 64)) m.dead
  pub clock : m.clock < 2 ^ 64
  pub floor : m.floor < 2 ^ 64

length-put_ranges : (rs : List VersionRange) → length (put_ranges rs) ≡ length rs * 16
unfolding put_ranges
length-put_ranges [] = refl
length-put_ranges (r ∷ rs) = omega (arith, length-put_ranges rs)

get_ranges-put_ranges :
    (rs : List VersionRange) (tail : List ℕ)
    → All (λ (r : VersionRange). (r.lo < 2 ^ 64) × (r.hi < 2 ^ 64)) rs
    → get_ranges (length rs) (put_ranges rs ++ tail) ≡ rs
unfolding get_ranges put_ranges
get_ranges-put_ranges [] tail h = refl
get_ranges-put_ranges (r ∷ rs) tail h =
    let lo = get_le-put_le 8 r.lo h.0.0 in
    let hi = get_le-put_le 8 r.hi h.0.1 in
    let rest = get_ranges-put_ranges rs tail h.1 in λ i. record { lo = lo i; hi = hi i } ∷ rest i

get_clock_nil : get_clock [] ≡ some (0, 0)
unfolding get_clock
get_clock_nil = refl

get_clock-pair :
    (bs : List ℕ) (c f k1 k2 : ℕ)
    → 0 < length bs
    → get_uvarint bs ≡ some (c, k1)
    → get_uvarint (drop k1 bs) ≡ some (f, k2)
    → k1 + k2 ≡ length bs
    → get_clock bs ≡ some (c, f)
unfolding get_clock
get_clock-pair [] c f k1 k2 h p q e = absurd (omega arith)
get_clock-pair (b ∷ bs) c f k1 k2 h p q e = ground (arith, p, q, e)

get_clock-clock_trailer :
    (m : AppliedMarker)
    → m.clock < 2 ^ 64
    → m.floor < 2 ^ 64
    → get_clock (clock_trailer m) ≡ some (m.clock, m.floor)
unfolding clock_trailer
get_clock-clock_trailer m c f = elim (Bool-cases (m.clock == 0 && m.floor == 0)) [
  | inl q ↦
      let (c0, f0) = and-true (m.clock == 0) (m.floor == 0) q in
      let c' : m.clock ≡ 0 = (==_iff m.clock 0).0 c0 in
      let f' : m.floor ≡ 0 = (==_iff m.floor 0).0 f0 in
      rw q (get_clock_nil ∙ λ i. some (sym c' i, sym f' i))
  | inr q ↦
      let x = put_uvarint m.clock in
      let y = put_uvarint m.floor in
      let second : get_uvarint (drop (length x) (x ++ y)) ≡ some (m.floor, length y) =
        rw (drop_prefix x y (length x) refl)
          (rw (append-nil y) at (get_uvarint-put_uvarint m.floor [] f)) in
      rw q (
        get_clock-pair (x ++ y) m.clock m.floor (length x) (length y)
          (omega (arith, length-append x y, length-put_uvarint m.clock))
          (get_uvarint-put_uvarint m.clock y c) second (omega (arith, length-append x y)))
]

-- The tail of the body, after the header.
abbrev after_header : AppliedMarker → List ℕ
after_header m = put_uvarint (length m.dead) ++ (put_ranges m.dead ++ clock_trailer m)

-- The header of any bytes that begin as `marker_body` does.
record HasHeader (m : AppliedMarker) (b : List ℕ) : Type 0 where
  long : not_marker b ≡ false
  index : word_at b 6 ≡ m.index
  term : word_at b 14 ≡ m.term
  flags : byte_at b 5 ≡ m.flags
  ver : word_at b 22 ≡ m.ver

length-marker_body : (m : AppliedMarker) → 31 ≤ length (marker_body m)
unfolding marker_body
length-marker_body m = omega (
  arith,
  length-append (put_uvarint (length m.dead)) (put_ranges m.dead ++ clock_trailer m),
  length-put_uvarint (length m.dead),
)

marker_body-HasHeader :
    (m : AppliedMarker) (sum : List ℕ)
    → FitsMarker m
    → length sum ≡ 4
    → HasHeader m (marker_body m ++ sum)
unfolding marker_body not_marker byte_at
marker_body-HasHeader m sum w four =
    let long : ltb (length (marker_body m ++ sum)) 35 ≡ false =
      ground (arith, length-append (marker_body m) sum, length-marker_body m, four) in
    record {
      long = rw long refl;
      index = get_le-put_le 8 m.index w.index;
      term = get_le-put_le 8 m.term w.term;
      flags = omega (arith, w.flags);
      ver = get_le-put_le 8 m.ver w.ver;
    }

get_tail-counted :
    (b rest : List ℕ) (n k : ℕ)
    → get_uvarint rest ≡ some (n, k)
    → n ≤ length rest
    → n * 16 ≤ length rest - k
    → get_tail b rest ≡ get_marker b n (drop k rest)
unfolding get_tail
get_tail-counted b rest n k q l1 l2 = ground (arith, q)

decode_marker-checked :
    (b body : List ℕ)
    → not_marker b ≡ false
    → take (length b - 4) b ≡ body
    → get_le (drop (length b - 4) b) ≡ crc32c body
    → decode_marker b ≡ get_tail b (drop 30 body)
unfolding decode_marker
decode_marker-checked b body n k c =
    let same : (crc32c (take (length b - 4) b) == get_le (drop (length b - 4) b)) ≡ true =
      rw (k, c) ((==_iff (crc32c body) (crc32c body)).1 refl) in
    rw (n, same) (ap (λ x. get_tail b (drop 30 x)) k)

module _ (m : AppliedMarker) (w : FitsMarker m) (b : List ℕ) (h : HasHeader m b) where
  get_marker-ranges : get_marker b (length m.dead) (put_ranges m.dead ++ clock_trailer m) ≡ some m
  unfolding get_marker
  get_marker-ranges =
      let n : length m.dead * 16 ≡ length (put_ranges m.dead) = sym (length-put_ranges m.dead) in
      let rest : get_clock (drop (length m.dead * 16) (put_ranges m.dead ++ clock_trailer m))
          ≡ some (m.clock, m.floor) =
        ap get_clock
          (drop_prefix (put_ranges m.dead) (clock_trailer m) (length m.dead * 16) (sym n))
        ∙ get_clock-clock_trailer m w.clock w.floor in
      let dead = get_ranges-put_ranges m.dead (clock_trailer m) w.dead in
      rw (rest, get_marker)
        (λ i. some (record {
          index = h.index i;
          term = h.term i;
          flags = h.flags i;
          ver = h.ver i;
          dead = dead i;
          clock = m.clock;
          floor = m.floor;
        }))

  get_tail-after_header : get_tail b (after_header m) ≡ some m
  unfolding get_tail
  get_tail-after_header =
      let count = put_uvarint (length m.dead) in
      let more = put_ranges m.dead ++ clock_trailer m in
      let first = get_uvarint-put_uvarint (length m.dead) more w.count in
      let size : length (count ++ more)
          ≡ length count + length m.dead * 16 + length (clock_trailer m) =
        omega (
          arith,
          length-append count more,
          length-append (put_ranges m.dead) (clock_trailer m),
          length-put_ranges m.dead,
        ) in
      get_tail-counted b (count ++ more) (length m.dead) (length count) first (omega (arith, size))
        (omega (arith, size))
      ∙ ap (get_marker b (length m.dead)) (drop_prefix count more (length count) refl)
      ∙ get_marker-ranges

-- A marker whose fields fit their words is decoded from its bytes as it was.
pub decode_marker-encode_marker :
    (m : AppliedMarker) → FitsMarker m → decode_marker (encode_marker m) ≡ some m
unfolding decode_marker encode_marker
decode_marker-encode_marker m w =
    let body = marker_body m in
    let sum = put_le 4 (crc32c body) in
    let b = body ++ sum in
    let h = marker_body-HasHeader m sum w (length-put_le 4 (crc32c body)) in
    let cut : length b - 4 ≡ length body =
      omega (arith, length-append body sum, length-put_le 4 (crc32c body)) in
    let kept : take (length b - 4) b ≡ body = take_prefix body sum (length b - 4) (sym cut) in
    let rest : drop (length b - 4) b ≡ sum = drop_prefix body sum (length b - 4) (sym cut) in
    let check : get_le sum ≡ crc32c body = get_le-put_le 4 (crc32c body) (crc32c-lt body) in
    decode_marker-checked b body h.long kept (ap get_le rest ∙ check)
    ∙ ap (get_tail b) (after m)
    ∙ get_tail-after_header m w b h
  where
    after : (x : AppliedMarker) → drop 30 (marker_body x) ≡ after_header x
    after x = refl
