-- ===== src/Base/Uvarint.antt =====
-- encoding/binary: AppendUvarint and Uvarint of a uint64.
use Prim.Native.Nat.{ℕ, zero, suc, ◌+◌, ◌*◌, ◌/◌, ◌%◌, ◌^◌, ◌<◌}
use mathlib.Core.Path.{◌≡◌, refl}
use mathlib.Core.Logic.{inl, inr}
use mathlib.Core.Bool.{◌&&◌}
use mathlib.Core.List.{List, [], ◌∷◌, ◌++◌}
use mathlib.Core.Option.{Option, none, some}
use native.Mathlib.Omega.{arith}
use native.Mathlib.Numerals.{unary_clauses}
use veltrix_db.Base.Tests.{if◌then◌else◌, ◌==◌, ltb, Bool-cases}
use veltrix_db.Base.Lists.{length}

-- On fuel: the groups of seven bits after the first. A uint64 has nine of them.
unfoldable pub put_groups : ℕ → ℕ → List ℕ
put_groups zero x = x ∷ []
put_groups (suc fuel) x =
    let more = (x % 128 + 128) ∷ put_groups fuel (x / 128) in if ltb x 128 then x ∷ [] else more

unfoldable pub put_uvarint : ℕ → List ℕ
unfolding put_groups
put_uvarint x = put_groups 9 x

-- The value and the number of bytes read, none where Go's count is not positive: the bytes end, or they
-- make no uint64. `i` bytes stand before.
unfoldable pub get_groups : ℕ → List ℕ → Option (ℕ × ℕ)
get_groups i [] = none
get_groups i (b ∷ bs) =
    let rest : Option (ℕ × ℕ) = elim (get_groups (i + 1) bs) [
      | none ↦ none
      | some (v, k) ↦ some (b % 128 + 128 * v, k + 1)
    ] in
    if i == 10
    then none
    else if ltb b 128
    then (if i == 9 && ltb 1 b then none else some (b, 1))
    else rest

unfoldable pub get_uvarint : List ℕ → Option (ℕ × ℕ)
unfolding get_groups
get_uvarint bs = get_groups 0 bs

get_groups-put_groups :
    (fuel i x : ℕ) (tail : List ℕ)
    → i + fuel ≡ 9
    → x < 2 * 128 ^ fuel
    → get_groups i (put_groups fuel x ++ tail) ≡ some (x, length (put_groups fuel x))
unfolding get_groups put_groups
get_groups-put_groups zero i x tail h l = ground arith
get_groups-put_groups (suc fuel) i x tail h l = elim (Bool-cases (ltb x 128)) [
  | inl small ↦ rw small (ground arith)
  | inr large ↦
      let below : x < 2 * 128 ^ fuel * 128 = smaller (128 ^ fuel) (simp unary_clauses at l) in
      let ih = get_groups-put_groups fuel (i + 1) (x / 128) tail (omega arith) (omega arith) in
      let bits : (x % 128 + 128) % 128 + 128 * (x / 128) ≡ x = omega arith in
      rw large (ground (arith, ih, bits))
]
  where
    smaller : (p : ℕ) → x < 2 * (p * 128) → x < 2 * p * 128
    smaller p h' = omega arith

pub get_uvarint-put_uvarint :
    (x : ℕ) (tail : List ℕ)
    → x < 2 ^ 64
    → get_uvarint (put_uvarint x ++ tail) ≡ some (x, length (put_uvarint x))
unfolding get_uvarint put_uvarint
get_uvarint-put_uvarint x tail h = get_groups-put_groups 9 0 x tail refl h

pub length-put_uvarint : (x : ℕ) → 0 < length (put_uvarint x)
unfolding put_uvarint put_groups
length-put_uvarint x = ground arith
