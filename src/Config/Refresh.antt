-- ===== src/Config/Refresh.antt =====
-- What `get_protocol_config` takes for the current configuration, and what it leaves in its cache.
use v3_keeper.Base.{
  ℕ, ◌+◌, ◌≤◌, ◌≡◌, refl, sym, ap, ◌∙◌, leb, List, Option, some, last?, prefer, last?-append, arith,
  done, raised, Sys, Exn, Option-cases, Bool-cases, inl, inr,
}
use v3_keeper.Contracts.Events.Refinement.{events_in, IsOrdered, events_in_split}
use mathlib.Core.Option.{some-injective}
use v3_keeper.Config.{
  OraclesCache, Settings, Chain, event_since_checkpoint, cold_config, warm_config, current_config,
  refresh, get_protocol_config,
}

module _ {E J P W : Type 0} (chain : Chain E J P W) (settings : Settings) where
  -- If the refresh raises, the cache is as before, so that the next run scans the same blocks again.
  pub refresh_raised :
      (s t : Sys (OraclesCache J) W) (x : Exn)
      → refresh chain settings s ≡ raised x t
      → t.mem ≡ s.mem
  unfolding refresh
  refresh_raised s t x h = ground arith

  module _ (block : E → ℕ) (log : List E) (content : E → J) where
    -- The last update up to a block.
    abbrev pub last_update : ℕ → Option E
    last_update b = last? (events_in block 0 b log)

    -- The chain answers from an ordered log, and IPFS has the content of each update.
    pub record Answers : Type 0 where
      pub ordered : IsOrdered block log
      pub events :
          (f t : ℕ) (w : W)
          → chain.get_config_update_event f t w ≡ done (last? (events_in block f t log)) w
      pub fetched : (e : E) (w : W) → chain.fetch_json e w ≡ done (content e) w

    -- The cache, if it is warm, holds the content of the last update up to its checkpoint.
    abbrev pub IsCurrent : OraclesCache J → Type 0
    IsCurrent cache =
        (c : ℕ)
        → cache.checkpoint_block ≡ some c
        → (e : E) × (last_update c ≡ some e) × (cache.config ≡ content e)

    -- The last update up to `b` is the last one after `a`, or else the last one up to `a`.
    last_update_split :
        Answers
        → (a b : ℕ) → a ≤ b
        → last_update b ≡ prefer (last? (events_in block (a + 1) b log)) (last_update a)
    last_update_split ok a b h =
        rw (events_in_split block 0 a b log ok.ordered (omega arith) h)
          (last?-append (events_in block 0 a log) (events_in block (a + 1) b log))

    cold_config-last_update :
        Answers
        → (to_block : ℕ) (e : E) (w : W)
        → last_update settings.checkpoint
          ≡ last? (events_in block settings.event_block settings.event_block log)
        → settings.checkpoint ≤ to_block
        → last_update to_block ≡ some e
        → cold_config chain settings to_block w ≡ done (content e) w
    unfolding cold_config event_since_checkpoint
    cold_config-last_update ok to_block e w known scanned latest =
        let checkpoint = settings.checkpoint in
        let split = last_update_split ok checkpoint to_block scanned in
        let asked = ok.events (checkpoint + 1) to_block w in
        elim (Option-cases (last? (events_in block (checkpoint + 1) to_block log))) [
          | inl miss ↦
              let q = asked ∙ ap (λ o. done o w) miss in
              let older : last_update checkpoint ≡ some e = sym (rw miss at split) ∙ latest in
              let q' =
                ok.events settings.event_block settings.event_block w
                ∙ ap (λ o. done o w) (sym known ∙ older) in
              rw (q, q') (ok.fetched e w)
          | inr (d, hit) ↦
              let q = asked ∙ ap (λ o. done o w) hit in
              let same : d ≡ e = some-injective d e (sym (rw hit at split) ∙ latest) in
              rw (q, same) (ok.fetched e w)
        ]

    warm_config-last_update :
        Answers
        → (c to_block : ℕ) (d e : E) (config : J) (w : W) → config ≡ content d
        → c ≤ to_block
        → last_update c ≡ some d
        → last_update to_block ≡ some e
        → warm_config chain settings c config to_block w ≡ done (content e) w
    unfolding warm_config
    warm_config-last_update ok c to_block d e config w held forward cached latest =
        let split = last_update_split ok c to_block forward in
        let asked = ok.events (c + 1) to_block w in
        elim (Bool-cases (leb (c + 1) to_block)) [
          | inl scan ↦ elim (Option-cases (last? (events_in block (c + 1) to_block log))) [
            | inl miss ↦
                let q = asked ∙ ap (λ o. done o w) miss in
                let same : d ≡ e =
                  some-injective d e (sym cached ∙ sym (rw miss at split) ∙ latest) in
                rw (scan, q, held, same) refl
            | inr (a, hit) ↦
                let q = asked ∙ ap (λ o. done o w) hit in
                let same : a ≡ e = some-injective a e (sym (rw hit at split) ∙ latest) in
                rw (scan, q, same) (ok.fetched e w)
          ]
          | inr old ↦
              let here : c ≡ to_block = ground arith in
              let same : d ≡ e = some-injective d e (sym cached ∙ ap last_update here ∙ latest) in
              rw (old, held, same) refl
        ]

    current_config-last_update :
        Answers
        → (cache : OraclesCache J) (to_block : ℕ) (e : E) (w : W) → IsCurrent cache
        → last_update settings.checkpoint
          ≡ last? (events_in block settings.event_block settings.event_block log)
        → settings.checkpoint ≤ to_block
        → ((c : ℕ) → cache.checkpoint_block ≡ some c → c ≤ to_block)
        → last_update to_block ≡ some e
        → current_config chain settings cache to_block w ≡ done (content e) w
    unfolding current_config
    current_config-last_update ok cache to_block e w current known scanned forward latest =
        elim (Option-cases cache.checkpoint_block) [
          | inl cold ↦
              rw (cold, current_config)
                (cold_config-last_update ok to_block e w known scanned latest)
          | inr (c, warm) ↦
              let (d, cached, same) = current c warm in
              rw (warm, current_config)
                (warm_config-last_update ok c to_block d e cache.config w same (forward c warm)
                  cached latest)
        ]

    -- Over a chain that answers from an ordered log, with a cache that is current, checkpoint constants
    -- that are right, and a finalized block behind neither, a run returns the protocol configuration
    -- of the last update up to the finalized block, and leaves a cache that is current there.
    pub get_protocol_config-last_update :
        Answers
        → (s : Sys (OraclesCache J) W) (to_block threshold : ℕ) (e : E) (p : P) (w v u : W)
        → IsCurrent s.mem
        → last_update settings.checkpoint
          ≡ last? (events_in block settings.event_block settings.event_block log)
        → settings.checkpoint ≤ to_block
        → ((c : ℕ) → s.mem.checkpoint_block ≡ some c → c ≤ to_block)
        → last_update to_block ≡ some e
        → chain.finalized_block s.env ≡ done to_block w
        → chain.get_rewards_threshold w ≡ done threshold v
        → chain.build_protocol_config (content e) threshold v ≡ done p u
        → (t : Sys (OraclesCache J) W) × (get_protocol_config chain settings s ≡ done p t)
          × IsCurrent t.mem
          × (t.mem.checkpoint_block ≡ some to_block)
    unfolding get_protocol_config
    get_protocol_config-last_update ok s to_block threshold e p w v u current known scanned forward
          latest final min built =
        let config =
          current_config-last_update ok s.mem to_block e w current known scanned forward latest in
        let cache : OraclesCache J = record {
          checkpoint_block = some to_block;
          config = content e;
          rewards_threshold = threshold;
        } in
        (
          record { mem = cache; env = u },
          rw (final, config, min, built) refl,
          (λ c h.
              let here : to_block ≡ c = some-injective to_block c h in
              (e, rw (← here) latest, refl)),
          refl,
        )
