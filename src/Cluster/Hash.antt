-- ===== src/Cluster/Hash.antt =====
-- cluster/partition_map.go: where a key and a virtual node stand on the ring.
use Prim.Native.Nat.{bit_xor}
use veltrix_db.Base.{
  ℕ, zero, suc, ◌+◌, ◌*◌, ◌/◌, ◌%◌, ◌^◌, ◌||◌, Option, none, some, List, [], ◌∷◌, ◌++◌, ltb, ◌==◌,
  if◌then◌else◌, take, drop, bytes_eq,
}

-- fnv.New64a, over the bytes of a text
unfoldable pub fnv64a : ℕ → List ℕ → ℕ
fnv64a h [] = h
fnv64a h (b ∷ bs) = fnv64a (bit_xor h b * 1_099_511_628_211 % 2 ^ 64) bs

-- fmix64
unfoldable pub fmix64 : ℕ → ℕ
fmix64 k =
    let a = bit_xor k (k / 2 ^ 33) * 18_397_679_294_719_823_053 % 2 ^ 64 in
    let b = bit_xor a (a / 2 ^ 33) * 14_181_476_777_654_086_739 % 2 ^ 64 in bit_xor b (b / 2 ^ 33)

-- hashValue
unfoldable pub hash_value : List ℕ → ℕ
unfolding fnv64a fmix64
hash_value s = fmix64 (fnv64a 14_695_981_039_346_656_037 s)

-- the digits of a number, on fuel
unfoldable pub put_decimal : ℕ → ℕ → List ℕ
put_decimal zero n = []
put_decimal (suc fuel) n =
    let rest = put_decimal fuel (n / 10) ++ (48 + n % 10) ∷ [] in
    if ltb n 10 then (48 + n) ∷ [] else rest

-- fmt.Sprintf("%s:%d", nodeID, i)
unfoldable pub vnode_name : List ℕ → ℕ → List ℕ
unfolding put_decimal
vnode_name id i = id ++ 58 ∷ put_decimal 20 i

-- vectorKeyPrefix, textKeyPrefix and indexKeyPrefix, "@vec/", "@txt/" and "@idx/"
abbrev pub vector_key_prefix : List ℕ
vector_key_prefix = 64 ∷ 118 ∷ 101 ∷ 99 ∷ 47 ∷ []

abbrev pub text_key_prefix : List ℕ
text_key_prefix = 64 ∷ 116 ∷ 120 ∷ 116 ∷ 47 ∷ []

abbrev pub index_key_prefix : List ℕ
index_key_prefix = 64 ∷ 105 ∷ 100 ∷ 120 ∷ 47 ∷ []

-- rest[strings.IndexByte(rest, '/')+1:], none if there is no slash
unfoldable pub after_slash : List ℕ → Option (List ℕ)
after_slash [] = none
after_slash (b ∷ bs) = let rest = after_slash bs in if b == 47 then some bs else rest

-- the loop that drops components
unfoldable pub skip_components : ℕ → List ℕ → Option (List ℕ)
unfolding after_slash
skip_components zero rest = some rest
skip_components (suc skip) rest = elim (after_slash rest) [
  | none ↦ none
  | some r ↦ skip_components skip r
]

-- how many components follow the prefix, none for a key with no prefix of a derived key
unfoldable pub skip_of : List ℕ → Option ℕ
skip_of prefix =
    if bytes_eq prefix vector_key_prefix || bytes_eq prefix text_key_prefix
    then some 1
    else if bytes_eq prefix index_key_prefix
    then some 2
    else none

-- a routed key, or the key itself if nothing is left to route by
unfoldable pub routed : List ℕ → Option (List ℕ) → List ℕ
routed key none = key
routed key (some []) = key
routed key (some (b ∷ bs)) = b ∷ bs

-- RoutingKey
unfoldable pub routing_key : List ℕ → List ℕ
unfolding skip_components skip_of routed
routing_key key = elim (skip_of (take 5 key)) [
  | none ↦ key
  | some skip ↦ routed key (skip_components skip (drop 5 key))
]

-- HashKey
unfoldable pub hash_key : List ℕ → ℕ
unfolding hash_value routing_key
hash_key key = hash_value (routing_key key)
