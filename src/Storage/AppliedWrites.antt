-- ===== src/Storage/AppliedWrites.antt =====
-- raft_applied.go: the markers that the engine writes are trusted when they are replayed.
use veltrix_db.Base.{
  ℕ, ◌+◌, ◌-◌, ◌<◌, ◌^◌, ◌%◌, ◌≡◌, refl, sym, ap, subst, ◌∙◌, Bool, true, false, not, ◌&&◌, ◌||◌,
  Option, none, some, arith, ltb, ◌==◌, if◌then◌else◌, length, add64, add64-eq-add, bytes_eq,
  bytes_eq_refl, length-append, length-put_le, put_le, crc32c,
}
use veltrix_db.Storage.WalRecord.{WalEntry, WalReplayEntry}
use veltrix_db.Storage.WalFields.{replay_of}
use veltrix_db.Storage.Marker.{AppliedMarker, marker_body, encode_marker, decode_marker}
use veltrix_db.Storage.MarkerBytes.{FitsMarker, decode_marker-encode_marker}
use veltrix_db.Storage.Applied.{
  AppliedTracker, AppliedState, applied_marker_key, is_applied_marker, marker_record,
  raft_applied_state, write_applied_marker, set_raft_applied_state, begin_raft_restore,
  checkpoint_cut,
}

some_bytes : (m : AppliedMarker) → 0 < length (encode_marker m)
unfolding encode_marker
some_bytes m = omega (
  arith,
  length-append (marker_body m) (put_le 4 (crc32c (marker_body m))),
  length-put_le 4 (crc32c (marker_body m)),
)

passes :
    (key tombstone : Bool) (size version : ℕ) (o : Option AppliedMarker) (m : AppliedMarker)
    → key ≡ true
    → tombstone ≡ false
    → 0 < size
    → o ≡ some m
    → m.ver ≡ version
    → (if not key || tombstone || size == 0 then none else elim o as (λ x. Option AppliedMarker) [
      | none ↦ none
      | some m' ↦ if m'.ver == version then some m' else none
    ])
      ≡ some m
passes key tombstone size version o m k t l d v = ground (arith, k, t, l, d, v)

is_applied_marker-trusted :
    (e : WalReplayEntry) (m : AppliedMarker)
    → e.key ≡ applied_marker_key
    → e.is_tombstone ≡ false
    → 0 < length e.value
    → decode_marker e.value ≡ some m
    → m.ver ≡ e.version
    → is_applied_marker e ≡ some m
unfolding is_applied_marker
is_applied_marker-trusted e m k t l d v =
    passes (bytes_eq e.key applied_marker_key) e.is_tombstone (length e.value) e.version
      (decode_marker e.value) m
      (ap (λ x. bytes_eq x applied_marker_key) k ∙ bytes_eq_refl applied_marker_key) t l d v

marker_record-trusted :
    (now : ℕ) (m : AppliedMarker)
    → FitsMarker m
    → is_applied_marker (replay_of (marker_record now m)) ≡ some m
unfolding marker_record
marker_record-trusted now m w =
    let e = replay_of (marker_record now m) in
    let long : ltb 0 (length (encode_marker m)) ≡ true = ground (arith, some_bytes m) in
    let value : e.value ≡ encode_marker m = rw long refl in
    is_applied_marker-trusted e m refl refl (rw value (some_bytes m))
      (ap decode_marker value ∙ decode_marker-encode_marker m w) refl

if_true {ℓ} : {A : Type ℓ} (b : Bool) (x y : A) → b ≡ true → (if b then x else y) ≡ x
if_true b x y h = rw h refl

and_true : (a b : Bool) → a ≡ true → b ≡ true → (a && b) ≡ true
and_true a b h k = ground arith

-- What is written: a record that replay trusts as the marker that the engine then has.
pub record Wrote (now version : ℕ) (t : AppliedTracker) (w : Option WalEntry × ℕ × AppliedTracker)
    : Type 0 where
  pub newer : w.1 ≡ version + 1
  pub stored : WalEntry
  pub queued : w.0 ≡ some stored
  pub trusted : is_applied_marker (replay_of stored) ≡ some w.2.m
  pub dead : w.2.m.dead ≡ t.m.dead
  pub checkpoint : checkpoint_cut now w.2 ≡ some (w.1, stored)

write_applied_marker-Wrote :
    (now version : ℕ) (m : AppliedMarker) (t : AppliedTracker)
    → t.enabled ≡ true
    → version + 1 < 2 ^ 64
    → FitsMarker m
    → m.dead ≡ t.m.dead
    → Wrote now version t (write_applied_marker now version m t)
unfolding write_applied_marker checkpoint_cut
write_applied_marker-Wrote now version m t on b w d =
    let ver = add64 version 1 in
    let m' : AppliedMarker = record m { ver = ver } in
    let t' : AppliedTracker = record t { m = m'; present = true; ver = ver } in
    let next : ver ≡ version + 1 = add64-eq-add version 1 b in
    let v : write_applied_marker now version m t ≡ (some (marker_record now m'), ver, t') =
      if_true t.enabled _ _ on in
    subst (Wrote now version t) (sym v) (record {
      newer = next;
      stored = marker_record now m';
      queued = refl;
      trusted = marker_record-trusted now m' (record {
        index = w.index;
        term = w.term;
        flags = w.flags;
        ver = omega (arith, next);
        count = w.count;
        dead = w.dead;
        clock = w.clock;
        floor = w.floor;
      });
      dead = d;
      checkpoint = if_true (t.enabled && true) _ _ (and_true t.enabled true on refl);
    })

abbrev state_with : ℕ → ℕ → Bool → Option AppliedState
state_with index term restoring =
    some (record { index = index; term = term; restoring = restoring })

state_of :
    (now version : ℕ) (m : AppliedMarker) (t : AppliedTracker)
    → t.enabled ≡ true
    → raft_applied_state (write_applied_marker now version m t).2
      ≡ some (record { index = m.index; term = m.term; restoring = m.flags % 2 == 1 })
unfolding write_applied_marker raft_applied_state
state_of now version m t on =
    let ver = add64 version 1 in
    let m' : AppliedMarker = record m { ver = ver } in
    let t' : AppliedTracker = record t { m = m'; present = true; ver = ver } in
    let v : write_applied_marker now version m t ≡ (some (marker_record now m'), ver, t') =
      if_true t.enabled _ _ on in
    ap (λ x. raft_applied_state x.2) v
    ∙ if_true (t.enabled && true) _ _ (and_true t.enabled true on refl)

flag_cleared : (f : ℕ) → ((f - f % 2) % 2 == 1) ≡ false
flag_cleared f = let even : (f - f % 2) % 2 ≡ 0 = omega arith in rw even refl

flag_set : (f : ℕ) → ((f - f % 2 + 1) % 2 == 1) ≡ true
flag_set f = let odd : (f - f % 2 + 1) % 2 ≡ 1 = omega arith in rw odd refl

-- The record that `SetRaftAppliedState` queues, of an engine that keeps markers, is trusted when it is
-- replayed, as the marker that the engine then has, with the dead ranges of before and the version after
-- the engine's last; a checkpoint carries the same record at its version; and the recorded state is the
-- given index and term, with no restore in progress; provided that the fields fit their words.
pub set_raft_applied_state-Wrote :
    (now version clock floor : ℕ) (st : AppliedState) (t : AppliedTracker)
    → t.enabled ≡ true
    → version + 1 < 2 ^ 64
    → FitsMarker t.m
    → st.index < 2 ^ 64
    → st.term < 2 ^ 64
    → clock < 2 ^ 64
    → floor < 2 ^ 64
    → let w = set_raft_applied_state now version (clock, floor) st t in
      Wrote now version t w
      × (raft_applied_state w.2
          ≡ some (record { index = st.index; term = st.term; restoring = false }))
unfolding set_raft_applied_state raft_applied_state
set_raft_applied_state-Wrote now version clock floor st t on b w i e c f =
    let m : AppliedMarker = record t.m {
      index = st.index;
      term = st.term;
      flags = t.m.flags - t.m.flags % 2;
      clock = clock;
      floor = floor;
    } in
    let written =
      write_applied_marker-Wrote now version m t on b
        (record {
          index = i;
          term = e;
          flags = omega (arith, w.flags);
          ver = w.ver;
          count = w.count;
          dead = w.dead;
          clock = c;
          floor = f;
        })
        refl in
    (
      written,
      state_of now version m t on ∙ ap (state_with st.index st.term) (flag_cleared t.m.flags),
    )

-- The same of `BeginRaftRestore`, after which the recorded state says that a restore is in progress.
pub begin_raft_restore-Wrote :
    (now version : ℕ) (t : AppliedTracker)
    → t.enabled ≡ true
    → version + 1 < 2 ^ 64
    → FitsMarker t.m
    → let w = begin_raft_restore now version t in
      Wrote now version t w
      × (raft_applied_state w.2
          ≡ some (record { index = t.m.index; term = t.m.term; restoring = true }))
unfolding begin_raft_restore
begin_raft_restore-Wrote now version t on b w =
    let m : AppliedMarker = record t.m { flags = t.m.flags - t.m.flags % 2 + 1 } in
    let written =
      write_applied_marker-Wrote now version m t on b
        (record {
          index = w.index;
          term = w.term;
          flags = omega (arith, w.flags);
          ver = w.ver;
          count = w.count;
          dead = w.dead;
          clock = w.clock;
          floor = w.floor;
        })
        refl in
    (written, state_of now version m t on ∙ ap (state_with t.m.index t.m.term) (flag_set t.m.flags))
