-- ===== src/Raft/Replicate.antt =====
-- consensus/pipeline.go: the replicators of a leader, the requests that they send.
use veltrix_db.Base.{
  ℕ, zero, suc, ◌+◌, ◌-◌, ◌*◌, String, Bool, true, false, not, ◌&&◌, ◌||◌, Option, none, some, List,
  [], ◌∷◌, map, ltb, leb, ◌==◌, if◌then◌else◌, length, add64, str_eq,
}
use veltrix_db.Raft.Types.{LogEntry, PeerRepl, AppendEntriesArgs}
use veltrix_db.Raft.Log.{Node, last_log_index, log_term, entries_from}
use veltrix_db.Raft.Role.{is_leader}

abbrev pub max_append_entries : ℕ
max_append_entries = 1024

abbrev pub max_append_bytes : ℕ
max_append_bytes = 4 * 1_048_576

-- aeSend
pub record AeSend : Type 0 where
  pub args : AppendEntriesArgs
  pub entries : Bool
  pub epoch : ℕ
  pub snap_hb : Bool

abbrev pub find_repl : List PeerRepl → String → Option PeerRepl
find_repl [] p = none
find_repl (r ∷ rs) p = if str_eq r.peer p then some r else find_repl rs p

-- An update of the replicator of a peer.
abbrev pub update_repl : (PeerRepl → PeerRepl) → String → Node → Node
update_repl f p n = record n { repl = map (λ r. if str_eq r.peer p then f r else r) n.repl }

-- wake, of a replicator that is not stopped
abbrev pub wake : String → Node → Node
wake = update_repl (λ r. record r { kicked = true })

abbrev pub set_next : String → ℕ → Node → Node
set_next p i n = record n { next_index = λ q. if str_eq q p then i else n.next_index q }

abbrev pub set_match : String → ℕ → Node → Node
set_match p i n = record n { match_index = λ q. if str_eq q p then i else n.match_index q }

-- appendArgsLocked
unfoldable pub append_args : Node → ℕ → List LogEntry → AppendEntriesArgs
append_args n prev ents = record {
  term = n.current_term;
  leader_id = n.id;
  prev_log_index = prev;
  prev_log_term = log_term n prev;
  entries = ents;
  leader_commit = n.commit_index;
  want_match = true;
}

-- The batch of one request, from `count` entries and `bytes` bytes on.
unfoldable pub batch_of : ℕ → ℕ → List LogEntry → List LogEntry
batch_of count bytes [] = []
batch_of count bytes (e ∷ es) =
    let rest = batch_of (count + 1) (bytes + length e.command) es in
    if ltb count max_append_entries
      && (count == 0 || leb (bytes + length e.command) max_append_bytes)
    then e ∷ rest
    else []

-- What the loop of `replicate` has done: the requests, the next index and how many are in flight.
pub record Fill : Type 0 where
  pub sends : List AeSend
  pub next : ℕ
  pub inflight : ℕ

-- The loop ends: a snapshot is needed, or nothing is left to send, or the window is full.
abbrev pub ends_fill : Node → ℕ → ℕ → ℕ → Bool
ends_fill n window next inflight =
    leb next n.last_included_index || ltb (last_log_index n) next || leb window inflight

abbrev pub send_batch : Node → ℕ → ℕ → List LogEntry → AeSend
send_batch n epoch next ents = record {
  args = append_args n (next - 1) ents;
  entries = true;
  epoch = epoch;
  snap_hb = false;
}

-- The loop of `replicate`, on fuel.
unfoldable pub fill_window : ℕ → Node → ℕ → ℕ → ℕ → ℕ → Fill
fill_window zero n epoch window next inflight = record {
  sends = [];
  next = next;
  inflight = inflight;
}
fill_window (suc fuel) n epoch window next inflight =
    let ents = batch_of 0 0 (entries_from n next) in
    let rest = fill_window fuel n epoch window (add64 next (length ents)) (inflight + 1) in
    if ends_fill n window next inflight
    then (record { sends = []; next = next; inflight = inflight })
    else (record rest { sends = send_batch n epoch next ents ∷ rest.sends })

-- The heartbeat that is due where nothing else is sent.
unfoldable pub heartbeat_of : Node → PeerRepl → List AeSend
heartbeat_of n pr =
    let next = n.next_index pr.peer in
    if not pr.snapshotting && ltb n.last_included_index next
    then (record {
      args = append_args n (next - 1) [];
      entries = false;
      epoch = pr.epoch;
      snap_hb = false;
    })
      ∷ []
    else if ltb 0 n.last_included_index
    then (record {
      args = append_args n n.last_included_index [];
      entries = false;
      epoch = pr.epoch;
      snap_hb = true;
    })
      ∷ []
    else []

-- What a replicator that runs sends: the requests, whether a snapshot transfer is to start, and the
-- node. A transfer does not start on a node that is stopped.
unfoldable pub replicate_to : ℕ → PeerRepl → Node → List AeSend × Bool × Node
replicate_to now pr n =
    let next =
      if n.next_index pr.peer == 0 then add64 (last_log_index n) 1 else n.next_index pr.peer in
    let window = if pr.probing then 1 else n.pipeline_window in
    let loop = fill_window (suc (window - pr.inflight)) n pr.epoch window next pr.inflight in
    let filled =
      if pr.snapshotting
      then (record { sends = []; next = n.next_index pr.peer; inflight = pr.inflight })
      else loop in
    let snap =
      not pr.snapshotting
      && leb filled.next n.last_included_index
      && filled.inflight == 0
      && leb pr.snap_retry_at now in
    let pr' : PeerRepl = record pr {
      hb_due = false;
      inflight = filled.inflight;
      snapshotting = pr.snapshotting || snap;
    } in
    let n' = set_next pr.peer filled.next n in
    let beats =
      if pr.hb_due && leb (length filled.sends) 0 then heartbeat_of n' pr' else filled.sends in
    (
      beats,
      snap && not n.stopped,
      update_repl (λ r. record pr' { snapshotting = pr.snapshotting || snap && not n.stopped })
          pr.peer n',
    )

-- replicate, at the time `now`, of the replicator of a peer
unfoldable pub replicate : ℕ → String → Node → List AeSend × Bool × Node
replicate now p n = elim (find_repl n.repl p) [
  | none ↦ ([], false, n)
  | some pr ↦
      if is_leader n.role && pr.term == n.current_term
      then replicate_to now pr n
      else ([], false, n)
]
