-- ===== src/Environ/Loading.antt =====
-- What holds of the settings if they load.
use v3_keeper.Base.{
  ◌≡◌, inl, inr, sym, subst, true, false, List, Option, none, some, Text, text_eq, text_beq,
  contains, get, arith, All, All-get, done, Gives, Gives-pure, Gives-or_raise, Gives-then,
  Gives-skip, Gives-done, or_raise, key_error, gives_rules,
}
use v3_keeper.Networks.{Base, NetworkConfig, PriceNetworkConfig, sepolia, networks, price_networks}
use v3_keeper.Networks.Tables.{
  IsOrdered, IsListed, IsEntry, IsPriced, networks-IsEntry, price_networks-IsPriced,
}
use v3_keeper.Environ.{
  Decouple, PriceSettings, Settings, oseth_price_supported_networks, load_price, load_services,
  load_common, load_with, load_settings,
}

-- The names of the networks differ.
pub record AreDistinct {B : Type 0} (base : Base B) : Type 0 where
  pub mainnet_hoodi : text_beq base.hoodi base.mainnet ≡ false
  pub mainnet_gnosis : text_beq base.gnosis base.mainnet ≡ false
  pub mainnet_sepolia : text_beq base.mainnet sepolia ≡ false
  pub hoodi_sepolia : text_beq base.hoodi sepolia ≡ false
  pub gnosis_sepolia : text_beq base.gnosis sepolia ≡ false

-- The network is one of the table, the blocks of its configuration are in order, and there is a configuration
-- of the prices if they are supported.
pub record IsRunnable {B F : Type 0} (base : Base B) (s : Settings B F) : Type 0 where
  pub listed : IsListed base s.network
  pub not_sepolia : text_beq s.network sepolia ≡ false
  pub ordered : IsOrdered s.network_config
  pub priced :
      contains s.network (oseth_price_supported_networks base) ≡ true
      → (c : PriceNetworkConfig) × (s.price.price_network_config ≡ some c)

module _ {B : Type 0} (base : Base B) where
  listed-differs :
      AreDistinct base → (name : Text) → IsListed base name → text_beq name sepolia ≡ false
  listed-differs d name (inl e) = subst (λ n. text_beq n sepolia ≡ false) (sym e) d.mainnet_sepolia
  listed-differs d name (inr (inl e)) =
      subst (λ n. text_beq n sepolia ≡ false) (sym e) d.hoodi_sepolia
  listed-differs d name (inr (inr e)) =
      subst (λ n. text_beq n sepolia ≡ false) (sym e) d.gnosis_sepolia

  is_priced :
      AreDistinct base
      → (name : Text) (o : Option PriceNetworkConfig) → IsPriced base (name, o)
      → contains name (oseth_price_supported_networks base) ≡ true
      → (c : PriceNetworkConfig) × (o ≡ some c)
  is_priced d name o (inl found) supported = found
  is_priced d name o (inr (inl e)) supported =
      let there =
        subst (λ n. contains n (oseth_price_supported_networks base) ≡ true) e supported in
      absurd (ground (arith, there, d.mainnet_hoodi, d.hoodi_sepolia))
  is_priced d name o (inr (inr e)) supported =
      let there =
        subst (λ n. contains n (oseth_price_supported_networks base) ≡ true) e supported in
      absurd (ground (arith, there, d.mainnet_gnosis, d.gnosis_sepolia))

module _ {B F W : Type 0} (base : Base B) (decouple : Decouple F W) where
  abbrev IsFound : Text → PriceSettings → Type 0
  IsFound network p = IsPriced base (network, p.price_network_config)

  load_price-IsFound :
      (prices : List (Text × Option PriceNetworkConfig)) (network : Text)
      → All (IsPriced base) prices
      → Gives (IsFound network) (load_price base decouple prices network)
  unfolding load_price
  load_price-IsFound prices network h = Gives-skip _ _ (λ endpoints.
      Gives-then (λ c. IsPriced base (network, c)) (or_raise key_error (get network prices)) _
        (Gives-or_raise key_error (get network prices)
          (λ c e. All-get (IsPriced base) network prices h e))
        (λ c hc. search (gives_rules, hc) depth 20))

  -- What is known before the names are compared.
  abbrev IsLoaded : Settings B F → Type 0
  IsLoaded s = IsEntry base (s.network, s.network_config) × IsFound s.network s.price

  load_with-IsLoaded :
      (table : List (Text × NetworkConfig B)) (prices : List (Text × Option PriceNetworkConfig))
      → All (IsEntry base) table
      → All (IsPriced base) prices
      → Gives IsLoaded (load_with base decouple table prices)
  unfolding load_with
  load_with-IsLoaded table prices ht hp = Gives-skip (decouple.choice _ _) _ (λ network.
      Gives-then (λ c. IsEntry base (network, c)) (or_raise key_error (get network table)) _
        (Gives-or_raise key_error (get network table)
          (λ c e. All-get (IsEntry base) network table ht e))
        (λ config hc. Gives-skip (decouple.csv _ none) _ (λ execution.
          Gives-skip (decouple.csv _ none) _ (λ consensus.
            Gives-skip (decouple.text _ none) _ (λ key.
              Gives-skip (decouple.flag _ false) _ (λ skip_distributor.
                Gives-skip (decouple.flag _ false) _ (λ skip_oseth.
                  Gives-then (IsFound network) (load_price base decouple prices network) _
                    (load_price-IsFound prices network hp)
                    (λ price found. Gives-skip (load_services base decouple) _ (λ services.
                      Gives-skip (load_common base decouple) _
                        (λ common. Gives-pure _ (hc, found)))))))))))

  load_settings-IsLoaded : Gives IsLoaded (load_settings base decouple)
  unfolding load_settings
  load_settings-IsLoaded =
      Gives-then (All (IsEntry base)) (networks base) _ (networks-IsEntry base) (λ table ht.
        Gives-then (All (IsPriced base)) (price_networks base) _ (price_networks-IsPriced base)
          (λ prices hp. load_with-IsLoaded table prices ht hp))

  -- If the names of the networks differ and the settings load, whatever the environment holds, then NETWORK is one
  -- of the table's three and not sepolia, the block that the search for the last update falls back to is not
  -- after the checkpoint, and there is a configuration of the prices if the network is one that supports them.
  pub load_settings-IsRunnable :
      (w v : W) (s : Settings B F)
      → AreDistinct base
      → load_settings base decouple w ≡ done s v
      → IsRunnable base s
  load_settings-IsRunnable w v s d loaded =
      let (entry, found) =
        Gives-done (load_settings base decouple) load_settings-IsLoaded w v s loaded in
      record {
        listed = entry.0;
        not_sepolia = listed-differs base d s.network entry.0;
        ordered = entry.1;
        priced = is_priced base d s.network s.price.price_network_config found;
      }
