-- ===== src/Ltv.antt =====
-- ltv/service.py, graph.py and typings.py: the user with the highest LTV of each vault, kept in the tracker
-- contract. The graph, the contract and the clock are parameters.
pub mod Recording
pub mod Updates
pub mod Frame
mod Examples
use v3_keeper.Base.{
  ℕ, ◌+◌, ltb, ◌==◌, Bool, false, length, if◌then◌else◌, List, [], ◌∷◌, map, Option, none, some, M,
  Sys, ext, gets, modify, pure, raise, ◌>>=◌, ◌>>◌, then_do, with_mem, or_raise, for_each,
  runtime_error, value_error, index_error, key_error, Text, text_eq, text_beq, get,
}
use v3_keeper.State.{AppState, is_recent}
use v3_keeper.Transaction.Rejection.{to_lower}
use v3_keeper.Graph.{
  HarvestParams, Vault, Codec, GraphNode, map_option, number, harvest_params, graph_get_vaults,
  check_for_graph_node_sync_to_block,
}

pub record VaultMaxLtvUser : Type 0 where
  pub ltv : ℕ
  pub address : Text
  pub prev_address : Text
  pub vault : Text
  pub harvest_params : Option HarvestParams

-- The answers of the two queries: `osTokenVaultIds` of each network, and the addresses of the allocators.
pub record LtvGraph (W : Type 0) : Type 0 where
  pub networks : ℕ → M W (List (List Text))
  pub allocators : Text → ℕ → M W (List Text)

-- `vault_user_ltv_tracker_contract`; an update returns the hash of the receipt's transaction.
pub record Tracker (W : Type 0) : Type 0 where
  pub get_vault_max_ltv : Text → Option HarvestParams → M W ℕ
  pub get_max_ltv_user : Text → M W Text
  pub update_vault_max_ltv_user : Text → Text → Option HarvestParams → M W (Option Text)

pub record Chain (W : Type 0) : Type 0 where
  pub time : M W ℕ
  pub finalized_block : M W ℕ

module _ {W : Type 0} (codec : Codec) (node : GraphNode W) (graph : LtvGraph W)
    (tracker : Tracker W) where
  -- `response['networks'][0]['osTokenVaultIds']`
  abbrev pub first_network : List (List Text) → M W (List Text)
  first_network [] = raise index_error
  first_network (vaults ∷ networks) =
      or_raise (value_error "invalid address") (map_option codec.to_checksum_address vaults)

  pub graph_get_ostoken_vaults : ℕ → M W (List Text)
  graph_get_ostoken_vaults block_number = do
    networks ← graph.networks block_number
    first_network networks

  abbrev pub first_allocator : List Text → M W (Option Text)
  first_allocator [] = pure none
  first_allocator (a ∷ allocators) = do
    address ← or_raise (value_error "invalid address") (codec.to_checksum_address a)
    pure (some address)

  pub graph_get_vault_max_ltv_allocator : Text → ℕ → M W (Option Text)
  graph_get_vault_max_ltv_allocator vault block_number = do
    allocators ← graph.allocators (map to_lower vault) block_number
    first_allocator allocators

  -- The loop's body for a vault that has an allocator.
  pub max_ltv_user : List (Text × Vault) → Text → Text → M W VaultMaxLtvUser
  max_ltv_user graph_vaults vault address = do
    found ← or_raise key_error (get vault graph_vaults)
    let params = harvest_params found
    ltv ← tracker.get_vault_max_ltv vault (some params)
    prev_address ← tracker.get_max_ltv_user vault
    pure (record {
      ltv = ltv;
      address = address;
      prev_address = prev_address;
      vault = vault;
      harvest_params = some params;
    })

  -- The loop of `get_max_ltv_users`; a vault with no allocator is skipped.
  pub collect_users : ℕ → List (Text × Vault) → List Text → M W (List VaultMaxLtvUser)
  unfolding graph_get_vault_max_ltv_allocator max_ltv_user
  collect_users block_number graph_vaults [] = pure []
  collect_users block_number graph_vaults (vault ∷ vaults) = do
    allocator ← graph_get_vault_max_ltv_allocator vault block_number
    elim allocator [
      | none ↦ collect_users block_number graph_vaults vaults
      | some address ↦ do
        user ← max_ltv_user graph_vaults vault address
        users ← collect_users block_number graph_vaults vaults
        pure (user ∷ users)
    ]

  pub get_max_ltv_users : ℕ → M W (List VaultMaxLtvUser)
  unfolding graph_get_ostoken_vaults collect_users
  get_max_ltv_users block_number = do
    ostoken_vaults ← graph_get_ostoken_vaults block_number
    if length ostoken_vaults == 0 then pure [] else do
      graph_vaults ← graph_get_vaults codec node (some ostoken_vaults) none (some block_number)
      collect_users block_number graph_vaults ostoken_vaults

  abbrev pub check_receipt : Option Text → M W (Unit {0})
  check_receipt none = raise (runtime_error "Update tx failed")
  check_receipt (some hash) = pure tt

  pub handle_max_ltv_user : VaultMaxLtvUser → M W (Unit {0})
  handle_max_ltv_user user = do
    tx_receipt ← tracker.update_vault_max_ltv_user user.vault user.address user.harvest_params
    check_receipt tx_receipt
    ltv ← tracker.get_vault_max_ltv user.vault user.harvest_params
    pure tt

  -- A user that is recorded already is passed over.
  pub update_users : List VaultMaxLtvUser → M W (Unit {0})
  unfolding handle_max_ltv_user
  update_users [] = pure tt
  update_users (user ∷ users) = do
    if text_beq user.address user.prev_address then pure tt else handle_max_ltv_user user
    update_users users

  abbrev pub set_ltv : ℕ → AppState → AppState
  set_ltv t state = record state { ltv_updated_timestamp = some t }

  -- From the check of the time on.
  pub update_ltv : Chain W → ℕ → M (Sys AppState W) (Unit {0})
  unfolding get_max_ltv_users update_users
  update_ltv chain current_time = do
    block_number ← ext chain.finalized_block
    ext (check_for_graph_node_sync_to_block node (number block_number))
    users ← ext (get_max_ltv_users block_number)
    if length users == 0
        then pure tt
        else do ext (update_users users); modify (set_ltv current_time)

  -- `interval` is LTV_UPDATE_INTERVAL.
  unfoldable pub process_vault_max_ltv_user : Chain W → ℕ → M (Sys AppState W) (Unit {0})
  unfolding update_ltv
  process_vault_max_ltv_user chain interval = do
    current_time ← ext chain.time
    last ← gets (λ a. a.ltv_updated_timestamp)
    if is_recent interval current_time last then pure tt else update_ltv chain current_time
