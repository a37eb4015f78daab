-- ===== src/ForceExit/Reading.antt =====
-- Reading an answer of the graph does not touch the world.
use v3_keeper.Base.{Text, Keeps, Keeps-or_raise, keeps_rules}
use v3_keeper.Graph.{Codec}
use v3_keeper.ForceExit.{ExitRequestItem, read_int, read_address, from_graph}

module _ {W : Type 0} {R : W → Type 0} (codec : Codec) where
  pub read_address-Keeps : (t : Text) → Keeps R (read_address codec t)
  read_address-Keeps t = Keeps-or_raise _ (codec.to_checksum_address t)

  pub read_int-Keeps : (t : Text) → Keeps R (read_int codec t)
  read_int-Keeps t = search keeps_rules

  pub from_graph-Keeps : (item : ExitRequestItem) → Keeps R (from_graph codec item)
  unfolding from_graph
  from_graph-Keeps item = search keeps_rules depth 30
