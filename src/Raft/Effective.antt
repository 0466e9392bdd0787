-- ===== src/Raft/Effective.antt =====
-- consensus/membership.go: the effective configuration of a node. A configuration takes effect when
-- its entry is appended. The gob decoder of the entry's bytes is the parameter `decode`; the callback
-- that tells the application of a configuration is not modelled.
use veltrix_db.Base.{
  ℕ, String, not, Option, none, some, List, [], ◌∷◌, ◌++◌, ltb, if◌then◌else◌, filter_if, str_eq,
}
use veltrix_db.Raft.Types.{entry_normal, entry_config, entry_other, LogEntry, Configuration}
use veltrix_db.Raft.Config.{contains, is_member}
use veltrix_db.Raft.Log.{Node}
use veltrix_db.Raft.Role.{sync_replicators}

abbrev pub others : Node → List String → List String
others n ids = filter_if (λ s. not (str_eq s n.id)) ids

-- setConfig
unfoldable pub set_config : Node → Configuration → ℕ → Node
set_config n cfg index = sync_replicators (record n {
  config = cfg;
  config_index = index;
  peers = others n cfg.servers ++ others n cfg.learners;
  voter_peers = others n cfg.servers;
  removed = not (is_member cfg n.id);
  voter = contains cfg n.id;
})

module _ (decode : List ℕ → Option Configuration) where
  -- The configuration that an entry carries; one that does not decode is skipped.
  abbrev pub config_of : LogEntry → Option (Configuration × ℕ)
  config_of e = elim e.typ [
    | entry_normal ↦ none
    | entry_other b ↦ none
    | entry_config ↦ elim (decode e.command) [ none ↦ none | some c ↦ some (c, e.index) ]
  ]

  -- the last one of a list of entries
  unfoldable pub latest_config : List LogEntry → Option (Configuration × ℕ)
  latest_config [] = none
  latest_config (e ∷ es) = elim (latest_config es) [ some r ↦ some r | none ↦ config_of e ]

  -- refreshConfigFromLog
  unfoldable pub refresh_config_from_log : Node → Node
  refresh_config_from_log n = elim (latest_config n.entries) [
    | some (c, index) ↦ set_config n c index
    | none ↦ set_config n n.base_config n.base_config_index
  ]

  -- configAt, whose loop ends at the first entry above `idx`
  unfoldable pub config_at : ℕ → Configuration × ℕ → List LogEntry → Configuration × ℕ
  config_at idx best [] = best
  config_at idx best (e ∷ es) =
      let rest = config_at idx (elim (config_of e) [ none ↦ best | some r ↦ r ]) es in
      if ltb idx e.index then best else rest
