-- ===== src/Config/Search/Examples.antt =====
-- A warm cache over a node with three updates, searched in chunks of six blocks.
use v3_keeper.Base.{ℕ, ◌≡◌, refl, List, [], ◌∷◌, none, some, arith, M, Sys, done}
use v3_keeper.Contracts.Events.Refinement.{events_in}
use v3_keeper.Config.{OraclesCache, Settings, Chain, get_protocol_config}
use v3_keeper.Config.Refresh.{IsCurrent}
use v3_keeper.Config.Search.{searched, get_protocol_config-get_last_event}

abbrev log : List ℕ
log = 3 ∷ 17 ∷ 40 ∷ []

abbrev get_logs : ℕ → ℕ → M ℕ (List ℕ)
get_logs f t w = done (events_in (λ b. b) f t log) w

abbrev chain : Chain ℕ ℕ (ℕ × ℕ) ℕ
chain = record {
  finalized_block = λ w. done w w;
  get_config_update_event = λ f t w. done none w;
  fetch_json = λ e w. done e w;
  get_rewards_threshold = λ w. done 6 w;
  build_protocol_config = λ c t w. done (c, t) w;
}

abbrev search : v3_keeper.Contracts.Events.Settings
search = record { range_sec = 60; concurrency = 2; seconds_per_block = 12 }

abbrev settings : Settings
settings = record { checkpoint = 20; event_block = 17 }

abbrev warm : Sys (OraclesCache ℕ) ℕ
warm = record {
  mem = record { checkpoint_block = some 30; config = 17; rewards_threshold = 6 };
  env = 50;
}

get_protocol_config-get_last_event_example :
    (t : Sys (OraclesCache ℕ) ℕ) × (get_protocol_config
        (searched chain get_logs search)
        settings
        warm
      ≡ done (40, 6) t)
    × IsCurrent (searched chain get_logs search) settings (λ b. b) log (λ e. e) t.mem
    × (t.mem.checkpoint_block ≡ some 50)
get_protocol_config-get_last_event_example =
    get_protocol_config-get_last_event chain get_logs search settings (λ b. b) log (λ e. e)
      (omega arith) (λ f t w. refl) (λ e w. refl) (λ h. absurd (omega (arith, h))) warm 50 6 40
      (40, 6) 50 50 50 (λ c h. (17, ground arith, refl)) refl (omega arith) (λ c h. ground arith)
      refl refl refl refl
