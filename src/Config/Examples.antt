-- ===== src/Config/Examples.antt =====
-- The configuration cache on a small chain, and its theorems at concrete inputs.
use v3_keeper.Base.{
  ℕ, ◌≡◌, refl, List, [], ◌∷◌, none, some, arith, last?, Sys, done, raised, response_error,
}
use v3_keeper.Contracts.Events.Refinement.{events_in}
use v3_keeper.Config.{OraclesCache, Settings, Chain, refresh, get_protocol_config}
use v3_keeper.Config.Refresh.{Answers, IsCurrent, get_protocol_config-last_update}

abbrev log : List ℕ
log = 3 ∷ 17 ∷ 40 ∷ []

-- An event is its block number, and its configuration too.
abbrev chain : Chain ℕ ℕ (ℕ × ℕ) ℕ
chain = record {
  finalized_block = λ w. done w w;
  get_config_update_event = λ f t w. done (last? (events_in (λ b. b) f t log)) w;
  fetch_json = λ e w. done e w;
  get_rewards_threshold = λ w. done 6 w;
  build_protocol_config = λ c t w. done (c, t) w;
}

abbrev settings : Settings
settings = record { checkpoint = 20; event_block = 17 }

abbrev warm : Sys (OraclesCache ℕ) ℕ
warm = record {
  mem = record { checkpoint_block = some 30; config = 17; rewards_threshold = 6 };
  env = 50;
}

abbrev cold : Sys (OraclesCache ℕ) ℕ
cold = record {
  mem = record { checkpoint_block = none; config = 0; rewards_threshold = 0 };
  env = 39;
}

warm-refreshed :
    get_protocol_config chain settings warm
    ≡ done
        (40, 6)
        (record {
          mem = record { checkpoint_block = some 50; config = 40; rewards_threshold = 6 };
          env = 50;
        })
unfolding get_protocol_config
warm-refreshed = refl

cold-fallback :
    get_protocol_config chain settings cold
    ≡ done
        (17, 6)
        (record {
          mem = record { checkpoint_block = some 39; config = 17; rewards_threshold = 6 };
          env = 39;
        })
unfolding get_protocol_config
cold-fallback = refl

chain-Answers : Answers chain settings (λ b. b) log (λ e. e)
chain-Answers = record { ordered = omega arith; events = λ f t w. refl; fetched = λ e w. refl }

warm-IsCurrent : IsCurrent chain settings (λ b. b) log (λ e. e) warm.mem
warm-IsCurrent c h = (17, ground arith, refl)

get_protocol_config-last_update_example :
    (t : Sys (OraclesCache ℕ) ℕ) × (get_protocol_config chain settings warm ≡ done (40, 6) t)
    × IsCurrent chain settings (λ b. b) log (λ e. e) t.mem
    × (t.mem.checkpoint_block ≡ some 50)
get_protocol_config-last_update_example =
    get_protocol_config-last_update chain settings (λ b. b) log (λ e. e) chain-Answers warm 50 6 40
      (40, 6) 50 50 50 warm-IsCurrent refl (omega arith) (λ c h. ground arith) refl refl refl refl

-- IPFS fails, and the cache stays.
abbrev offline : Chain ℕ ℕ (ℕ × ℕ) ℕ
offline = record chain { fetch_json = λ e w. raised response_error w }

offline-raises : refresh offline settings warm ≡ raised response_error warm
unfolding get_protocol_config
offline-raises = refl
