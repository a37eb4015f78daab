-- ===== src/Graph.antt =====
-- common/graph.py and common/typings.py: the vaults of the subgraph, and the check that it is synced. The graph
-- client, the execution client and the codecs of web3 are parameters; an answer of the graph is a
-- record of the fields that the query asks for.
pub mod Decoding
pub mod Sync
pub mod Frame
mod Examples
use v3_keeper.Base.{
  ℕ, zero, suc, leb, if◌then◌else◌, is_exception, Bool, List, [], ◌∷◌, ◌++◌, map, Option, none,
  some, ℤ, pos, int_of, Text, text_eq, get, put, M, pure, raise, ◌>>=◌, ◌>>◌, or_raise, then_do,
  settle, Settled, value, failure, value_error, connection_error,
}
use v3_keeper.Transaction.Rejection.{to_lower}

pub record HarvestParams : Type 0 where
  pub rewards_root : Text
  pub reward : ℤ
  pub unlocked_mev_reward : ℤ
  pub proof : List Text

pub record Vault : Type 0 where
  pub address : Text
  pub can_harvest : Bool
  pub rewards_root : Text
  pub proof_reward : ℤ
  pub proof_unlocked_mev_reward : ℤ
  pub proof : List Text
  pub is_meta_vault : Bool
  pub sub_vaults : List Text

abbrev pub harvest_params : Vault → HarvestParams
harvest_params vault = record {
  rewards_root = vault.rewards_root;
  reward = vault.proof_reward;
  unlocked_mev_reward = vault.proof_unlocked_mev_reward;
  proof = vault.proof;
}

-- A vault in an answer of the graph; `none` is JSON's `null`.
pub record VaultItem : Type 0 where
  pub id : Text
  pub is_meta_vault : Bool
  pub sub_vaults : List Text
  pub can_harvest : Bool
  pub proof : Option (List Text)
  pub proof_reward : Option Text
  pub proof_unlocked_mev_reward : Option Text
  pub rewards_root : Option Text

-- `Web3.to_checksum_address` and `Web3.to_bytes`, `none` where they raise `ValueError`.
pub record Codec : Type 0 where
  pub to_checksum_address : Text → Option Text
  pub to_bytes : Text → Option Text

-- The 32 zero bytes of `HexBytes(b'\x00' * 32)`.
abbrev pub zeros : ℕ → Text
zeros zero = []
zeros (suc n) = 0 ∷ zeros n

-- A list comprehension whose expression may raise.
pub map_option : {A B : Type 0} → (A → Option B) → List A → Option (List B)
map_option f [] = some []
map_option f (x ∷ xs) = elim (f x) [
  | none ↦ none
  | some y ↦ elim (map_option f xs) [ none ↦ none | some ys ↦ some (y ∷ ys) ]
]

abbrev invalid : {A W : Type 0} → Option A → M W A
invalid o = or_raise (value_error "invalid value") o

-- A field that may be null, with the value that stands for null.
abbrev pub or_default : {A : Type 0} → A → (Text → Option A) → Option Text → Option A
or_default default read none = some default
or_default default read (some t) = read t

abbrev pub proof_of : (Text → Option Text) → Option (List Text) → Option (List Text)
proof_of read none = some []
proof_of read (some ps) = map_option read ps

module _ (codec : Codec) where
  -- `Vault.from_graph`
  unfoldable pub from_graph : {W : Type 0} → VaultItem → M W Vault
  unfolding map_option
  from_graph item = do
    address ← invalid (codec.to_checksum_address item.id)
    sub_vaults ← invalid (map_option codec.to_checksum_address item.sub_vaults)
    rewards_root ← invalid (or_default (zeros 32) codec.to_bytes item.rewards_root)
    proof_reward ← invalid (or_default (pos 0) int_of item.proof_reward)
    unlocked ← invalid (or_default (pos 0) int_of item.proof_unlocked_mev_reward)
    proof ← invalid (proof_of codec.to_bytes item.proof)
    pure (record {
      address = address;
      can_harvest = item.can_harvest;
      rewards_root = rewards_root;
      proof_reward = proof_reward;
      proof_unlocked_mev_reward = unlocked;
      proof = proof;
      is_meta_vault = item.is_meta_vault;
      sub_vaults = sub_vaults;
    })

-- A condition of the query's `where` clause.
pub data Condition : Type 0 where
  id_in : List Text → Condition
  meta_vault : Bool → Condition

-- What tells one `VaultQuery` from another.
pub record VaultQuery : Type 0 where
  pub conditions : List Condition
  pub block : Option ℕ

abbrev pub id_conditions : Option (List Text) → List Condition
id_conditions none = []
id_conditions (some []) = []
id_conditions (some (v ∷ vaults)) = id_in (map (map to_lower) (v ∷ vaults)) ∷ []

abbrev pub meta_conditions : Option Bool → List Condition
meta_conditions none = []
meta_conditions (some b) = meta_vault b ∷ []

-- `graph_client` and `execution_client`; `block_at` is `eth.get_block` of a tag such as "finalized".
pub record GraphNode (W : Type 0) : Type 0 where
  pub fetch_vaults : VaultQuery → M W (List VaultItem)
  pub latest_block : M W ℕ
  pub block_at : Text → M W ℕ

module _ {W : Type 0} (codec : Codec) (node : GraphNode W) where
  -- The loop that builds the mapping.
  pub add_vaults : List VaultItem → List (Text × Vault) → M W (List (Text × Vault))
  unfolding from_graph
  add_vaults [] vaults = pure vaults
  add_vaults (item ∷ items) vaults = do
    vault ← from_graph codec item
    add_vaults items (put vault.address vault vaults)

  abbrev pub fetch_vault_map : VaultQuery → M W (List (Text × Vault))
  fetch_vault_map query = do response ← node.fetch_vaults query; add_vaults response []

  unfoldable pub graph_get_vaults :
      Option (List Text) → Option Bool → Option ℕ → M W (List (Text × Vault))
  unfolding add_vaults
  graph_get_vaults (some []) is_meta_vault block_number = pure []
  graph_get_vaults vaults is_meta_vault block_number = fetch_vault_map (record {
    conditions = id_conditions vaults ++ meta_conditions is_meta_vault;
    block = block_number;
  })

-- A fixed block number, or a tag.
pub data BlockIdentifier : Type 0 where
  number : ℕ → BlockIdentifier
  tag : Text → BlockIdentifier

module _ {W : Type 0} (node : GraphNode W) where
  abbrev pub execution_block : BlockIdentifier → M W ℕ
  execution_block (number n) = pure n
  execution_block (tag t) = node.block_at t

  abbrev pub compare_blocks : ℕ → ℕ → M W (Unit {0})
  compare_blocks graph_block execution_number =
      if leb execution_number graph_block
      then pure tt
      else raise (connection_error "The graph node is not synced to the block")

  unfoldable pub check_for_graph_node_sync_to_block : BlockIdentifier → M W (Unit {0})
  check_for_graph_node_sync_to_block block_identifier = do
    result ← settle node.latest_block
    elim result [
      | failure e ↦
          raise (if is_exception e then connection_error "The graph node is not available" else e)
      | value graph_block ↦ do
        execution_number ← execution_block block_identifier
        compare_blocks graph_block execution_number
    ]
