-- ===== src/Storage/WalTorn.antt =====
-- wal_format.go: a write-ahead log whose last record is torn.
use veltrix_db.Base.{
  ℕ, zero, suc, ◌+◌, ◌≤◌, ◌<◌, ◌≡◌, refl, ap, Bool, false, not, ◌&&◌, ◌||◌, Option, none, List, [],
  ◌∷◌, ◌++◌, map, arith, ltb, leb, ◌==◌, if◌then◌else◌, length, take, drop, length-append,
  length-take, take-take, get_le, dec_lt,
}
use mathlib.Core.List.{append_assoc}
use veltrix_db.Storage.Clock.{has_flag}
use veltrix_db.Storage.WalRecord.{
  WalEntry, WalReplayEntry, wal_max_record_field, append_wal_record_binary, field, inline_flag,
  hdr_len, body_len, has_record, next_binary,
}
use veltrix_db.Storage.WalFields.{FitsWal, replay_of}
use veltrix_db.Storage.WalRoundTrip.{next_binary-append_wal_record_binary, record_span, hdr_len_ge}
use veltrix_db.Storage.WalReplay.{read_one, next, next_of, read_entries, replay_wal}

drop-take {ℓ} :
    {A : Type ℓ} (off w k : ℕ) (xs : List A)
    → off + w ≤ k
    → take w (drop off (take k xs)) ≡ take w (drop off xs)
drop-take zero w k xs h = take-take w k xs (omega arith)
drop-take (suc off) w zero xs h = absurd (omega arith)
drop-take (suc off) w (suc k) [] h = refl
drop-take (suc off) w (suc k) (x ∷ xs) h = drop-take off w k xs (omega arith)

field-take : (bs : List ℕ) (off w k : ℕ) → off + w ≤ k → field (take k bs) off w ≡ field bs off w
field-take bs off w k h = ap get_le (drop-take off w k bs h)

no_record : (bs : List ℕ) → has_record bs ≡ false → next_binary bs ≡ none
unfolding next_binary
no_record bs h = rw h refl

tests_fail :
    (n h b v k l : ℕ) (i : Bool)
    → n < h + b + 4
    → (leb 48 n
        && (v == 1 || v == 2)
        && leb h n
        && not (ltb wal_max_record_field k)
        && not (i && ltb wal_max_record_field l)
        && leb (h + b + 4) n)
      ≡ false
tests_fail n h b v k l i lt = ground arith

-- The span that the header of a record claims is the same in its first bytes, from the header on.
span-take :
    (bs : List ℕ) (k : ℕ)
    → 48 ≤ k
    → hdr_len (take k bs) + body_len (take k bs) ≡ hdr_len bs + body_len bs
span-take bs k h =
    span (field-take bs 1 1 k (omega arith)) (field-take bs 2 2 k (omega arith))
      (field-take bs 4 4 k (omega arith)) (field-take bs 8 4 k (omega arith))
  where
    span :
        {v v' f f' a a' l l' : ℕ}
        → v ≡ v'
        → f ≡ f'
        → a ≡ a'
        → l ≡ l'
        → (if v == 2 then 56 else 48) + (a + (if has_flag f 4 then l else 0))
          ≡ (if v' == 2 then 56 else 48) + (a' + (if has_flag f' 4 then l' else 0))
    span p q r s = cc

torn_binary :
    (e : WalEntry) (k : ℕ)
    → FitsWal e
    → k < length (append_wal_record_binary e)
    → next_binary (take k (append_wal_record_binary e)) ≡ none
torn_binary e k w h =
    let bs = append_wal_record_binary e in
    let t = take k bs in
    let count : length t ≡ k = omega (arith, length-take k bs) in
    no_record t (
      tests_fail (length t) (hdr_len t) (body_len t) (field t 1 1) (field t 4 4) (field t 8 4)
        (inline_flag t)
        (elim (dec_lt k 48) [
          | yes short ↦ omega (arith, count, hdr_len_ge t)
          | no long ↦ omega (arith, count, h, span-take bs k (omega arith), record_span e w)
        ]))

-- Every entry fits a record.
abbrev pub AllFitWal : List WalEntry → Type 0
AllFitWal [] = Unit
AllFitWal (e ∷ es) = FitsWal e × AllFitWal es

-- The records of entries, one after another.
abbrev pub append_all : List WalEntry → List ℕ
append_all [] = []
append_all (e ∷ es) = append_wal_record_binary e ++ append_all es

module _ (next_text : List ℕ → Option (WalReplayEntry × List ℕ)) where
  next_record_of :
      (e : WalEntry) (rest : List ℕ)
      → FitsWal e
      → next next_text (append_wal_record_binary e ++ rest) ≡ read_one (replay_of e) rest
  unfolding next append_wal_record_binary
  next_record_of e rest w = ap next_of (next_binary-append_wal_record_binary e rest w)

  nothing_read :
      (fuel : ℕ) (e : WalEntry) (k : ℕ)
      → FitsWal e
      → k < length (append_wal_record_binary e)
      → read_entries next_text fuel (take k (append_wal_record_binary e)) ≡ []
  unfolding read_entries next append_wal_record_binary
  nothing_read zero e k w h = refl
  nothing_read (suc fuel) e zero w h = refl
  nothing_read (suc fuel) e (suc k) w h = ap (λ o. read_from o) (torn_binary e (suc k) w h)
    where
      read_from : Option (WalReplayEntry × List ℕ) → List WalReplayEntry
      read_from o = elim (next_of o) [
        | read_one x rest ↦ x ∷ read_entries next_text fuel rest
        | _ ↦ []
      ]

  read_all :
      (es : List WalEntry) (e : WalEntry) (k fuel : ℕ)
      → AllFitWal es
      → FitsWal e
      → k < length (append_wal_record_binary e)
      → length es < fuel
      → read_entries next_text fuel (append_all es ++ take k (append_wal_record_binary e))
        ≡ map replay_of es
  unfolding read_entries
  read_all es e k zero w x h l = absurd (omega arith)
  read_all [] e k (suc fuel) w x h l = nothing_read (suc fuel) e k x h
  read_all (f ∷ es) e k (suc fuel) w x h l =
      let torn = take k (append_wal_record_binary e) in
      let split = append_assoc (append_wal_record_binary f) (append_all es) torn in
      let n = next_record_of f (append_all es ++ torn) w.0 in
      rw (split, n, read_entries)
        (ap (λ r. replay_of f ∷ r) (read_all es e k fuel w.1 x h (omega arith)))

  records_le : (es : List WalEntry) → AllFitWal es → length es ≤ length (append_all es)
  records_le [] w = omega arith
  records_le (e ∷ es) w = omega (
    arith,
    records_le es w.1,
    record_span e w.0,
    hdr_len_ge (append_wal_record_binary e),
    length-append (append_wal_record_binary e) (append_all es),
  )

  -- Whatever decodes its text records, a log of binary records that ends in the first bytes of a record, as
  -- a crash within a write leaves it, replays to the entries of its whole records, if all entries fit
  -- records.
  pub replay_wal-append_all :
      (es : List WalEntry) (e : WalEntry) (k : ℕ)
      → AllFitWal es
      → FitsWal e
      → k < length (append_wal_record_binary e)
      → replay_wal next_text (append_all es ++ take k (append_wal_record_binary e))
        ≡ map replay_of es
  unfolding replay_wal
  replay_wal-append_all es e k w x h =
      let torn = take k (append_wal_record_binary e) in
      read_all es e k (suc (length (append_all es ++ torn))) w x h
        (omega (arith, records_le es w, length-append (append_all es) torn))
