-- ===== src/Ltv/Frame.antt =====
-- What the calls of the LTV's service keep, a run of the service keeps.
use v3_keeper.Base.{
  ℕ, List, [], ◌∷◌, Option, none, some, Text, text_beq, pure, if◌then◌else◌, Keeps, Keeps-then,
  Keeps-pure, Keeps-raise, OnEnv, keeps_rules,
}
use v3_keeper.State.{AppState}
use v3_keeper.Graph.{HarvestParams, Vault, Codec, GraphNode}
use v3_keeper.Graph.Frame.{graph_get_vaults-Keeps, sync-Keeps}
use v3_keeper.Ltv.{
  VaultMaxLtvUser, LtvGraph, Tracker, Chain, first_network, graph_get_ostoken_vaults,
  first_allocator, graph_get_vault_max_ltv_allocator, max_ltv_user, collect_users,
  get_max_ltv_users, check_receipt, handle_max_ltv_user, update_users, update_ltv,
  process_vault_max_ltv_user,
}

-- The queries of the graph keep `R`.
pub record GraphKept {W : Type 0} (R : W → Type 0) (graph : LtvGraph W) : Type 0 where
  pub networks : (block_number : ℕ) → Keeps R (graph.networks block_number)
  pub allocators : (vault : Text) (block_number : ℕ) → Keeps R (graph.allocators vault block_number)

-- The calls of the tracker do.
pub record TrackerKept {W : Type 0} (R : W → Type 0) (tracker : Tracker W) : Type 0 where
  pub get_vault_max_ltv :
      (vault : Text) (params : Option HarvestParams)
      → Keeps R (tracker.get_vault_max_ltv vault params)
  pub get_max_ltv_user : (vault : Text) → Keeps R (tracker.get_max_ltv_user vault)
  pub update_vault_max_ltv_user :
      (vault user : Text) (params : Option HarvestParams)
      → Keeps R (tracker.update_vault_max_ltv_user vault user params)

-- Those of the clock and of the node do.
pub record ChainKept {W : Type 0} (R : W → Type 0) (chain : Chain W) : Type 0 where
  pub time : Keeps R chain.time
  pub finalized_block : Keeps R chain.finalized_block

module _ {W : Type 0} {R : W → Type 0} (codec : Codec) (node : GraphNode W)
    (node_kept : v3_keeper.Graph.Frame.Kept R node) (graph : LtvGraph W)
    (graph_kept : GraphKept R graph) (tracker : Tracker W)
    (tracker_kept : TrackerKept R tracker) where
  first_network-Keeps :
      (networks : List (List Text)) → Keeps R (first_network codec node graph tracker networks)
  first_network-Keeps [] = Keeps-raise _
  first_network-Keeps (vaults ∷ networks) = search keeps_rules

  vaults-Keeps :
      (block_number : ℕ) → Keeps R (graph_get_ostoken_vaults codec node graph tracker block_number)
  unfolding graph_get_ostoken_vaults
  vaults-Keeps block_number = search (keeps_rules, GraphKept.networks, first_network-Keeps)

  first_allocator-Keeps :
      (allocators : List Text) → Keeps R (first_allocator codec node graph tracker allocators)
  first_allocator-Keeps [] = Keeps-pure none
  first_allocator-Keeps (a ∷ allocators) = search keeps_rules depth 20

  allocator-Keeps :
      (vault : Text) (block_number : ℕ)
      → Keeps R (graph_get_vault_max_ltv_allocator codec node graph tracker vault block_number)
  unfolding graph_get_vault_max_ltv_allocator
  allocator-Keeps vault block_number =
      search (keeps_rules, GraphKept.allocators, first_allocator-Keeps)

  max_ltv_user-Keeps :
      (vaults : List (Text × Vault)) (vault address : Text)
      → Keeps R (max_ltv_user codec node graph tracker vaults vault address)
  unfolding max_ltv_user
  max_ltv_user-Keeps vaults vault address =
      search (keeps_rules, TrackerKept.get_vault_max_ltv, TrackerKept.get_max_ltv_user) depth 20

  collect_users-Keeps :
      (block_number : ℕ) (found : List (Text × Vault)) (vaults : List Text)
      → Keeps R (collect_users codec node graph tracker block_number found vaults)
  unfolding collect_users
  collect_users-Keeps block_number found [] = Keeps-pure []
  collect_users-Keeps block_number found (vault ∷ vaults) =
      Keeps-then (graph_get_vault_max_ltv_allocator codec node graph tracker vault block_number) _
        (allocator-Keeps vault block_number)
        (elim [
          | none ↦ collect_users-Keeps block_number found vaults
          | some address ↦
              Keeps-then (max_ltv_user codec node graph tracker found vault address) _
                (max_ltv_user-Keeps found vault address)
                (λ user.
                  Keeps-then (collect_users codec node graph tracker block_number found vaults) _
                    (collect_users-Keeps block_number found vaults)
                    (λ users. Keeps-pure (user ∷ users)))
        ])

  users-Keeps :
      (block_number : ℕ) → Keeps R (get_max_ltv_users codec node graph tracker block_number)
  unfolding get_max_ltv_users
  users-Keeps block_number =
      search (keeps_rules, vaults-Keeps, graph_get_vaults-Keeps, collect_users-Keeps) depth 20

  receipt-Keeps : (receipt : Option Text) → Keeps R (check_receipt codec node graph tracker receipt)
  receipt-Keeps none = Keeps-raise _
  receipt-Keeps (some hash) = search keeps_rules

  user-Keeps :
      (user : VaultMaxLtvUser) → Keeps R (handle_max_ltv_user codec node graph tracker user)
  unfolding handle_max_ltv_user
  user-Keeps user =
      search
        (
          keeps_rules, TrackerKept.get_vault_max_ltv, TrackerKept.update_vault_max_ltv_user,
          receipt-Keeps,
        )
        depth 20

  one_user-Keeps :
      (user : VaultMaxLtvUser)
      → Keeps R (
          if text_beq user.address user.prev_address
          then pure tt
          else handle_max_ltv_user codec node graph tracker user)
  one_user-Keeps user = search (keeps_rules, user-Keeps)

  update_users-Keeps :
      (users : List VaultMaxLtvUser) → Keeps R (update_users codec node graph tracker users)
  unfolding update_users
  update_users-Keeps [] = search keeps_rules
  update_users-Keeps (user ∷ users) =
      Keeps-then _ _ (one_user-Keeps user) (λ u. update_users-Keeps users)

  module _ (chain : Chain W) (chain_kept : ChainKept R chain) where
    update_ltv-Keeps :
        (current_time : ℕ)
        → Keeps (OnEnv {P = AppState} R) (update_ltv codec node graph tracker chain current_time)
    unfolding update_ltv
    update_ltv-Keeps current_time =
        search (keeps_rules, sync-Keeps, users-Keeps, update_users-Keeps) depth 30

    -- What each call of the graph, the tracker, the node and the clock keeps, a run keeps.
    pub process_ltv-Keeps :
        (interval : ℕ)
        → Keeps
            (OnEnv {P = AppState} R)
            (process_vault_max_ltv_user codec node graph tracker chain interval)
    unfolding process_vault_max_ltv_user
    process_ltv-Keeps interval = search (keeps_rules, update_ltv-Keeps) depth 20
