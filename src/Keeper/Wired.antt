-- ===== src/Keeper/Wired.antt =====
-- The main loop over the contracts of common/contracts.py and the transaction manager: the world is the manager's
-- state beside the nodes. Reads of the nodes and of HTTP endpoints do not touch the manager.
pub mod Safety
pub mod Closing
mod Examples
use v3_keeper.Base.{ℕ, Bool, Option, Text, M, Sys, ext, with_mem}
use v3_keeper.Clients.{Handles, setup_clients, close_clients}
use v3_keeper.Graph.{Codec, GraphNode}
use v3_keeper.Startup.{Clients}
use v3_keeper.Networks.{PriceNetworkConfig}
use v3_keeper.ForceExit.Queries.{Floats, ForceGraph}
use v3_keeper.Transaction.Manager.{Manager, Node, Receipt}
use v3_keeper.Contracts.Wrappers.{
  ContractCall, Views, keeper_contract, merkle_distributor_contract,
  vault_user_ltv_tracker_contract, force_exit_contracts, strategy_contracts, price_feed_contracts,
}
use v3_keeper.Keeper.{ProtocolConfig, Outside, lift_clients, lift_node}

-- All that is outside but the contracts.
pub record Peers (E F G J V : Type 0) : Type 0 where
  pub chain : v3_keeper.Config.Chain E J ProtocolConfig V
  pub rewards_http : v3_keeper.Rewards.Fetch.Http V
  pub distributor_fetch : Text → M V (Option v3_keeper.Distributor.Answer)
  pub exits_http : v3_keeper.Exits.Http V
  pub consensus : v3_keeper.Exits.Consensus V
  pub curve : v3_keeper.Exits.Curve G
  pub codec : Codec
  pub graph_node : GraphNode V
  pub floats : Floats F
  pub force_graph : ForceGraph V
  pub force_chain : v3_keeper.ForceExit.Service.Chain V
  pub ltv_graph : v3_keeper.Ltv.LtvGraph V
  pub ltv_chain : v3_keeper.Ltv.Chain V
  pub clients : Clients V
  pub handles : Handles V
  pub metrics_server : M V (Unit {0})
  pub interrupted : M V Bool
  pub time : M V ℕ
  pub handler_sleep : ℕ → M V (Unit {0})
  pub set_balance : M V (Unit {0})

module _ {E F G J V : Type 0} (peers : Peers E F G J V) (views : Views V)
    (node : Node ContractCall V) (settings : v3_keeper.Transaction.Manager.Settings)
    (config : PriceNetworkConfig) (account : ℕ) where
  abbrev lift_chain : v3_keeper.Config.Chain E J ProtocolConfig (Sys Manager V)
  lift_chain = record {
    finalized_block = ext peers.chain.finalized_block;
    get_config_update_event = λ f t. ext (peers.chain.get_config_update_event f t);
    fetch_json = λ e. ext (peers.chain.fetch_json e);
    get_rewards_threshold = ext peers.chain.get_rewards_threshold;
    build_protocol_config = λ j n. ext (peers.chain.build_protocol_config j n);
  }

  abbrev lift_consensus : v3_keeper.Exits.Consensus (Sys Manager V)
  lift_consensus = record {
    head_slot = ext peers.consensus.head_slot;
    get_validators_by_ids = λ ids slot. ext (peers.consensus.get_validators_by_ids ids slot);
    submit_voluntary_exit = λ i signature. ext (peers.consensus.submit_voluntary_exit i signature);
  }

  abbrev lift_force_graph : ForceGraph (Sys Manager V)
  lift_force_graph = record {
    positions = λ n. ext (peers.force_graph.positions n);
    allocators = λ ltv addresses n. ext (peers.force_graph.allocators ltv addresses n);
    ostoken_exit_requests = λ ltv n. ext (peers.force_graph.ostoken_exit_requests ltv n);
    exit_requests = λ ids n. ext (peers.force_graph.exit_requests ids n);
    owners = λ proxy. ext (peers.force_graph.owners proxy);
  }

  unfoldable pub wired : Outside E F G J Receipt (Sys Manager V)
  wired = record {
    chain = lift_chain;
    rewards_http = record {
      fetch = λ url. ext (peers.rewards_http.fetch url);
      to_bytes = peers.rewards_http.to_bytes;
    };
    keeper_contract = keeper_contract views node settings;
    to_int = views.to_int;
    distributor_fetch = λ url. ext (peers.distributor_fetch url);
    distributor_contract = merkle_distributor_contract views node settings;
    feed = price_feed_contracts views node settings config account peers.time;
    exits_http = record {
      fetch = λ url. ext (peers.exits_http.fetch url);
      to_bytes = peers.exits_http.to_bytes;
    };
    consensus = lift_consensus;
    curve = peers.curve;
    codec = peers.codec;
    graph_node = lift_node peers.graph_node;
    floats = peers.floats;
    force_graph = lift_force_graph;
    force_contracts = force_exit_contracts views node settings;
    registry = strategy_contracts views node settings;
    force_chain = record {
      time = ext peers.force_chain.time;
      finalized_block = ext peers.force_chain.finalized_block;
    };
    ltv_graph = record {
      networks = λ n. ext (peers.ltv_graph.networks n);
      allocators = λ vault n. ext (peers.ltv_graph.allocators vault n);
    };
    tracker = vault_user_ltv_tracker_contract views node settings;
    ltv_chain = record {
      time = ext peers.ltv_chain.time;
      finalized_block = ext peers.ltv_chain.finalized_block;
    };
    clients = lift_clients peers.clients;
    setup_clients = ext (setup_clients peers.handles);
    close_clients = ext (close_clients peers.handles);
    metrics_server = ext peers.metrics_server;
    interrupted = ext peers.interrupted;
    time = ext peers.time;
    handler_sleep = λ n. ext (peers.handler_sleep n);
    set_balance = ext peers.set_balance;
  }
