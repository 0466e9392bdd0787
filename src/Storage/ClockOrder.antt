-- ===== src/Storage/ClockOrder.antt =====
-- raft_clock.go: the order of versions, and what a node's own clock cannot change.
use veltrix_db.Base.{
  ℕ, ◌+◌, ◌≤◌, ◌<◌, ◌^◌, ◌≡◌, ◌⊎◌, inl, refl, subst, ap, true, false, none, List, [], ◌∷◌, map,
  arith, length, All, add64,
}
use veltrix_db.Storage.Int64.{is_positive}
use veltrix_db.Storage.Clock.{
  ApplyTime, RaftClock, IndexEntry, next_raft_apply_time, apply_times, expiry_cutoff_us,
  version_token, is_expired, is_tombstone, clear_apply_time,
}

-- The stamps grow from one command to the next, from above `last` on.
abbrev pub Increasing : ℕ → List ApplyTime → Type 0
Increasing last [] = Unit
Increasing last (t ∷ ts) = (last < t.stamp_us) × Increasing t.stamp_us ts

-- Commands that a leader stamped, below a bound.
abbrev pub Stamped : ℕ → List (ℕ × ℕ) → Type 0
Stamped bound [] = Unit
Stamped bound ((local, ts) ∷ cs) = (0 < ts) × (ts ≤ bound) × Stamped bound cs

-- Commands with a stamp below a bound, or without one (0).
abbrev pub Below : ℕ → List (ℕ × ℕ) → Type 0
Below bound [] = Unit
Below bound ((local, ts) ∷ cs) = (ts ≤ bound) × Below bound cs

Below-weaken : (a b : ℕ) (cs : List (ℕ × ℕ)) → Below a cs → a ≤ b → Below b cs
Below-weaken a b [] s h = tt
Below-weaken a b ((local, ts) ∷ cs) s h = (omega (arith, s.0), Below-weaken a b cs s.1 h)

Stamped-weaken : (a b : ℕ) (cs : List (ℕ × ℕ)) → Stamped a cs → a ≤ b → Stamped b cs
Stamped-weaken a b [] s h = tt
Stamped-weaken a b ((local, ts) ∷ cs) s h = (s.0, omega (arith, s.1), Stamped-weaken a b cs s.2 h)

next_stamp :
    (local : ℕ) (c : RaftClock) (ts bound : ℕ)
    → 0 < c.last
    → c.last ≤ bound
    → ts ≤ bound
    → bound + 1 < 2 ^ 63
    → let r = next_raft_apply_time local c ts in
      (c.last < r.0.stamp_us) × (r.1.last ≡ r.0.stamp_us) × (r.0.stamp_us ≤ bound + 1)
unfolding next_raft_apply_time add64
next_stamp local c ts bound pos l t b = ground arith

-- Once the clock runs, the stamps of any commands, with or without a time of their leader, grow strictly
-- from the last time on, provided that the times and their number stay below 2 ^ 63.
pub apply_times-Increasing :
    (c : RaftClock) (cs : List (ℕ × ℕ)) (bound : ℕ)
    → 0 < c.last
    → c.last ≤ bound
    → Below bound cs
    → bound + length cs < 2 ^ 63
    → Increasing c.last (apply_times c cs).0
unfolding apply_times
apply_times-Increasing c [] bound pos l s b = tt
apply_times-Increasing c ((local, ts) ∷ cs) bound pos l s b =
    let (t, c') = next_raft_apply_time local c ts in
    let (up, last, le) = next_stamp local c ts bound pos l s.0 (omega arith) in
    let ih =
      apply_times-Increasing (clear_apply_time c') cs (bound + 1) (omega (arith, last, up))
        (omega (arith, last, le)) (Below-weaken bound (bound + 1) cs s.1 (omega arith))
        (omega arith) in
    (up, subst (λ i. Increasing i (apply_times (clear_apply_time c') cs).0) last ih)

same_next :
    (l k : ℕ) (c : RaftClock) (ts : ℕ)
    → 0 < ts
    → ts < 2 ^ 63
    → next_raft_apply_time l c ts ≡ next_raft_apply_time k c ts
unfolding next_raft_apply_time
same_next l k c ts h b = let p : is_positive ts ≡ true = ground arith in rw p refl

-- Two nodes that apply the same commands, all stamped by their leader below 2 ^ 63, from the same
-- clock give them the same times and end with the same clock, whatever their own clocks show.
pub apply_times-same :
    (c : RaftClock) (cs ds : List (ℕ × ℕ)) (bound : ℕ)
    → map (λ (x : ℕ × ℕ). x.1) cs ≡ map (λ (x : ℕ × ℕ). x.1) ds
    → Stamped bound cs
    → bound < 2 ^ 63
    → apply_times c cs ≡ apply_times c ds
unfolding apply_times
apply_times-same c [] [] bound h s b = refl
apply_times-same c [] (d ∷ ds) bound h s b = cc
apply_times-same c (x ∷ cs) [] bound h s b = cc
apply_times-same c ((l, t) ∷ cs) ((k, u) ∷ ds) bound h s b =
    let e : t ≡ u = cc in
    let es : map (λ (x : ℕ × ℕ). x.1) cs ≡ map (λ (x : ℕ × ℕ). x.1) ds = cc in
    let v = same_next l k c u (omega (arith, s.0, e)) (omega (arith, s.1, e)) in
    let c' = clear_apply_time (next_raft_apply_time k c u).1 in
    let ih = apply_times-same c' cs ds bound es s.2 b in
    rw (e, v)
      (ap (λ (r : List ApplyTime × RaftClock). ((next_raft_apply_time k c u).0 ∷ r.0, r.1)) ih)

expired_later :
    (e : IndexEntry) (a b : ℕ)
    → is_expired e a ≡ true
    → (a ≤ b) ⊎ (2 ^ 63 ≤ a)
    → b < 2 ^ 63
    → is_expired e b ≡ true
unfolding is_expired
expired_later e a b h le lt = ground arith

-- What a command that its leader stamped judges expiry at.
stamped_now :
    (local : ℕ) (c : RaftClock) (ts bound : ℕ)
    → 0 < c.last
    → c.last ≤ bound
    → 0 < ts
    → ts ≤ bound
    → bound + 1 < 2 ^ 63
    → let r = next_raft_apply_time local c ts in
      (c.last < r.0.now_us) × (r.1.last ≡ r.0.now_us) × (r.0.now_us ≤ bound + 1)
unfolding next_raft_apply_time add64
stamped_now local c ts bound pos l s t b = ground arith

-- A key that is expired at a time up to the last command's is expired for all that follow it.
is_expired-All :
    (e : IndexEntry) (c : RaftClock) (cs : List (ℕ × ℕ)) (bound : ℕ)
    → 0 < c.last
    → c.last ≤ bound
    → Stamped bound cs
    → bound + length cs < 2 ^ 63
    → is_expired e c.last ≡ true
    → All (λ t. is_expired e t.now_us ≡ true) (apply_times c cs).0
unfolding apply_times
is_expired-All e c [] bound pos l s b h = tt
is_expired-All e c ((local, ts) ∷ cs) bound pos l s b h =
    let (t, c') = next_raft_apply_time local c ts in
    let (up, last, le) = stamped_now local c ts bound pos l s.0 s.1 (omega arith) in
    let now = expired_later e c.last t.now_us h (inl (omega (arith, up))) (omega (arith, le)) in
    let ih =
      is_expired-All e (clear_apply_time c') cs (bound + 1) (omega (arith, last, up))
        (omega (arith, last, le)) (Stamped-weaken bound (bound + 1) cs s.2 (omega arith))
        (omega arith) (rw last now) in
    (now, ih)

-- Outside a command, on a node whose clock runs, a key that is expired at the cutoff for tombstones is
-- expired at the time of every command that comes later, if the leaders stamped them and the times and
-- their number stay below 2 ^ 63.
pub expiry_cutoff-expired :
    (e : IndexEntry) (local : ℕ) (c : RaftClock) (cs : List (ℕ × ℕ)) (bound : ℕ)
    → c.cur ≡ none
    → 0 < c.last
    → c.last ≤ bound
    → Stamped bound cs
    → bound + length cs < 2 ^ 63
    → is_expired e (expiry_cutoff_us local c) ≡ true
    → All (λ t. is_expired e t.now_us ≡ true) (apply_times c cs).0
unfolding expiry_cutoff_us
expiry_cutoff-expired e local c cs bound idle pos l s b h =
    is_expired-All e c cs bound pos l s b
      (expired_later e (expiry_cutoff_us local c) c.last h (ground arith) (omega arith))

-- The version that a command stamped by its leader writes, on a clock that runs, is later than the
-- version of every entry whose stamp is at most the last time, whenever the two are read, if the entry
-- it writes is there and not expired, the floor is at most the last time and the times stay below 2 ^
-- 63.
pub version_token-later :
    (local : ℕ) (c : RaftClock) (ts : ℕ) (old new : IndexEntry) (then_us now_us : ℕ)
    → 0 < c.last
    → c.last + 1 < 2 ^ 63
    → 0 < ts
    → ts < 2 ^ 63
    → c.floor ≤ c.last
    → old.write_timestamp_us ≤ c.last
    → new.write_timestamp_us ≡ (next_raft_apply_time local c ts).0.stamp_us
    → is_tombstone new ≡ false
    → is_expired new now_us ≡ false
    → let floor = (next_raft_apply_time local c ts).1.floor in
      version_token old then_us floor < version_token new now_us floor
unfolding version_token next_raft_apply_time add64
version_token-later local c ts old new then_us now_us pos lim t0 t1 fl ow nw tomb ex = ground arith
