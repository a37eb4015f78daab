-- ===== src/Config/Search.antt =====
-- The protocol configuration over the search for events: `get_config_update_event` of the keeper contract.
mod Examples
use v3_keeper.Base.{ℕ, ◌≤◌, ◌≡◌, ◌≢◌, refl, Option, some, List, last?, M, Sys, done}
use v3_keeper.Contracts.Events.{get_last_event}
use v3_keeper.Contracts.Events.Refinement.{events_in, IsOrdered, get_last_event-last?}
use v3_keeper.Config.{OraclesCache, Settings, Chain, get_protocol_config}
use v3_keeper.Config.Refresh.{last_update, Answers, IsCurrent, get_protocol_config-last_update}

module _ {E J P W : Type 0} (chain : Chain E J P W) (get_logs : ℕ → ℕ → M W (List E))
    (search : v3_keeper.Contracts.Events.Settings) where
  -- `KeeperContract.get_config_update_event`
  unfoldable pub get_config_update_event : ℕ → ℕ → M W (Option E)
  get_config_update_event from_block to_block = get_last_event get_logs search from_block to_block

  -- The chain of the service, with that search.
  abbrev pub searched : Chain E J P W
  searched = record chain { get_config_update_event = get_config_update_event }

  module _ (settings : Settings) (block : E → ℕ) (log : List E) (content : E → J) where
    -- With the chunked, batched search over a node that answers from an ordered log, a concurrency of at least 1,
    -- a cache that is current, checkpoint constants that are right, and a finalized block not before the
    -- checkpoints: the configuration that is returned is built of the content of the last update up to the
    -- finalized block, and the cache is current again, with that block as its checkpoint.
    pub get_protocol_config-get_last_event :
        IsOrdered block log
        → ((f t : ℕ) (w : W) → get_logs f t w ≡ done (events_in block f t log) w)
        → ((e : E) (w : W) → chain.fetch_json e w ≡ done (content e) w)
        → search.concurrency ≢ 0
        → (s : Sys (OraclesCache J) W) (to_block threshold : ℕ) (e : E) (p : P) (w v u : W)
        → IsCurrent searched settings block log content s.mem
        → last_update searched settings block log content settings.checkpoint
          ≡ last? (events_in block settings.event_block settings.event_block log)
        → settings.checkpoint ≤ to_block
        → ((c : ℕ) → s.mem.checkpoint_block ≡ some c → c ≤ to_block)
        → last_update searched settings block log content to_block ≡ some e
        → chain.finalized_block s.env ≡ done to_block w
        → chain.get_rewards_threshold w ≡ done threshold v
        → chain.build_protocol_config (content e) threshold v ≡ done p u
        → (t : Sys (OraclesCache J) W) × (get_protocol_config searched settings s ≡ done p t)
          × IsCurrent searched settings block log content t.mem
          × (t.mem.checkpoint_block ≡ some to_block)
    unfolding get_config_update_event
    get_protocol_config-get_last_event ordered logs fetched several =
        get_protocol_config-last_update searched settings block log content (record {
          ordered = ordered;
          events =
              λ f t w. get_last_event-last? block get_logs log logs ordered search f t w several;
          fetched = fetched;
        })
