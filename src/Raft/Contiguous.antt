-- ===== src/Raft/Contiguous.antt =====
-- Logs whose indices follow one another from the snapshot on, read by position.
use veltrix_db.Base.{
  ℕ, zero, suc, ◌+◌, ◌-◌, ◌≤◌, ◌<◌, ◌^◌, ◌≡◌, refl, Option, none, some, List, [], ◌∷◌, ◌++◌, arith,
  length, take, drop, ltb, false, get_elem?,
}
use veltrix_db.Raft.Types.{LogEntry}
use veltrix_db.Raft.Log.{
  Node, last_index_over, first_index_over, last_log_index, log_first_index, find_entry, log_term,
  from_entries, entries_from,
}

-- The indices of the entries are head + 1, head + 2, and so on.
abbrev pub IsContiguous : ℕ → List LogEntry → Type 0
IsContiguous head [] = Unit
IsContiguous head (e ∷ es) = (e.index ≡ head + 1) × IsContiguous (head + 1) es

-- The terms of a log.
abbrev pub terms : List LogEntry → List ℕ
terms [] = []
terms (e ∷ es) = e.term ∷ terms es

pub last_index_over_lem :
    (h : ℕ) (es : List LogEntry) → IsContiguous h es → last_index_over h es ≡ h + length es
unfolding last_index_over
last_index_over_lem h [] c = omega arith
last_index_over_lem h (e ∷ es) c = rw c.0 (omega (arith, last_index_over_lem (h + 1) es c.1))

pub take-IsContiguous :
    (k h : ℕ) (es : List LogEntry) → IsContiguous h es → IsContiguous h (take k es)
take-IsContiguous zero h es c = tt
take-IsContiguous (suc k) h [] c = tt
take-IsContiguous (suc k) h (e ∷ es) c = (c.0, take-IsContiguous k (h + 1) es c.1)

add_zero : (a : ℕ) → a + 0 ≡ a
add_zero a = omega arith

pub append-IsContiguous :
    (h : ℕ) (es fs : List LogEntry)
    → IsContiguous h es
    → IsContiguous (h + length es) fs
    → IsContiguous h (es ++ fs)
append-IsContiguous h [] fs c d = rw (add_zero h) at d
append-IsContiguous h (e ∷ es) fs c d =
    (c.0, append-IsContiguous (h + 1) es fs c.1 (rw (shift h (length es)) at d))
  where
    shift : (a b : ℕ) → a + suc b ≡ a + 1 + b
    shift a b = omega arith

first_index_over_lem :
    (h : ℕ) (es : List LogEntry) → IsContiguous h es → first_index_over h es ≡ h + 1
unfolding first_index_over
first_index_over_lem h [] c = refl
first_index_over_lem h (e ∷ es) c = c.0

abbrev pub term_or_zero : Option LogEntry → ℕ
term_or_zero none = 0
term_or_zero (some e) = e.term

pub find_entry_lem :
    (h : ℕ) (es : List LogEntry) (last i : ℕ)
    → IsContiguous h es
    → last ≡ h + length es
    → i < length es
    → find_entry es last (h + 1 + i) ≡ get_elem? es i
unfolding find_entry
find_entry_lem h [] last i c e l = elim l [ ]
find_entry_lem h (x ∷ es) last i c e l = rw c.0 (
    let d : h + 1 + i - (h + 1) ≡ i = omega arith in
    let low : ltb (h + 1 + i) (h + 1) ≡ false = ground arith in
    let high : ltb last (h + 1 + i) ≡ false = ground arith in rw (low, high, d))

-- An invariant of a node: its log follows its snapshot, and its indices fit their words.
pub record IsLog (n : Node) : Type 0 where
  pub contiguous : IsContiguous n.last_included_index n.entries
  pub fits : n.last_included_index + length n.entries + 1 < 2 ^ 64

module _ (n : Node) (w : IsLog n) where
  pub last_log_index_lem : last_log_index n ≡ n.last_included_index + length n.entries
  unfolding last_log_index
  last_log_index_lem = last_index_over_lem n.last_included_index n.entries w.contiguous

  pub log_first_index_lem : log_first_index n ≡ n.last_included_index + 1
  unfolding log_first_index
  log_first_index_lem = first_index_over_lem n.last_included_index n.entries w.contiguous

  -- The term of the entry at position `i` of the log.
  pub log_term-position :
      (i : ℕ)
      → i < length n.entries
      → log_term n (n.last_included_index + 1 + i) ≡ term_or_zero (get_elem? n.entries i)
  unfolding log_term
  log_term-position i h =
      let e =
        find_entry_lem n.last_included_index n.entries (last_log_index n) i w.contiguous
          last_log_index_lem h in
      ground (arith, e)

  -- The entries from an index of the log on.
  pub entries_from-drop :
      (idx : ℕ)
      → n.last_included_index < idx
      → idx ≤ last_log_index n
      → entries_from n idx ≡ drop (idx - (n.last_included_index + 1)) n.entries
  unfolding entries_from from_entries
  entries_from-drop idx lo hi = from n.entries w.contiguous
    where
      from :
          (es : List LogEntry)
          → IsContiguous n.last_included_index es
          → from_entries es (last_log_index n) idx ≡ drop (idx - (n.last_included_index + 1)) es
      from [] c = nothing (idx - (n.last_included_index + 1))
        where
          nothing : (k : ℕ) → [] ≡ drop {A = LogEntry} k []
          nothing zero = refl
          nothing (suc k) = refl
      from (e ∷ es) c = let q : ltb (last_log_index n) idx ≡ false = ground arith in rw (q, c.0)
