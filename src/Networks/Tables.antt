-- ===== src/Networks/Tables.antt =====
-- What the entries of the two tables have.
use v3_keeper.Base.{
  ◌≤◌, ◌≡◌, ◌⊎◌, inl, inr, refl, List, [], ◌∷◌, Option, none, some, Text, text_eq, put, arith, All,
  All-put, Gives, Gives-pure, Gives-then, Gives-skip, gives_rules,
}
use v3_keeper.Networks.{
  Base, NetworkConfig, PriceNetworkConfig, sepolia, checksum, network_config, mainnet_config,
  hoodi_config, gnosis_config, networks, mainnet_price_config, sepolia_price_config, price_networks,
}

-- The block that the search falls back to is not after the checkpoint.
abbrev pub IsOrdered : {B : Type 0} → NetworkConfig B → Type 0
IsOrdered c = c.config_updated_event_block ≤ c.config_updated_checkpoint_block

-- The networks of the table.
abbrev pub IsListed : {B : Type 0} → Base B → Text → Type 0
IsListed base name = (name ≡ base.mainnet) ⊎ (name ≡ base.hoodi) ⊎ (name ≡ base.gnosis)

abbrev pub IsEntry : {B : Type 0} → Base B → Text × NetworkConfig B → Type 0
IsEntry base e = IsListed base e.0 × IsOrdered e.1

-- There is a configuration for the prices, or the network is one of the two without.
abbrev pub IsPriced : {B : Type 0} → Base B → Text × Option PriceNetworkConfig → Type 0
IsPriced base e =
    ((c : PriceNetworkConfig) × (e.1 ≡ some c)) ⊎ ((e.0 ≡ base.hoodi) ⊎ (e.0 ≡ base.gnosis))

mainnet_in_order : 25093055 ≤ 25573756
mainnet_in_order = omega arith

hoodi_in_order : 1279009 ≤ 3251588
hoodi_in_order = omega arith

gnosis_in_order : 42392284 ≤ 47299352
gnosis_in_order = omega arith

module _ {B W : Type 0} (base : Base B) where
  on_mainnet-IsOrdered : Gives IsOrdered (mainnet_config base {W = W})
  unfolding network_config
  on_mainnet-IsOrdered = search (gives_rules, mainnet_in_order) depth 20

  on_hoodi-IsOrdered : Gives IsOrdered (hoodi_config base {W = W})
  unfolding network_config
  on_hoodi-IsOrdered = search (gives_rules, hoodi_in_order) depth 20

  on_gnosis-IsOrdered :
      (zero_address : Text) → Gives IsOrdered (gnosis_config base {W = W} zero_address)
  unfolding network_config
  on_gnosis-IsOrdered zero_address = search (gives_rules, gnosis_in_order) depth 20

  pub networks-IsEntry : Gives (All (IsEntry base)) (networks base {W = W})
  unfolding networks
  networks-IsEntry = Gives-skip (checksum base base.empty_address) _ (λ zero_address.
      Gives-then IsOrdered (mainnet_config base) _ on_mainnet-IsOrdered (λ m hm.
        Gives-then IsOrdered (hoodi_config base) _ on_hoodi-IsOrdered (λ h hh.
          Gives-then IsOrdered (gnosis_config base zero_address) _
            (on_gnosis-IsOrdered zero_address)
            (λ g hg. Gives-pure (put base.gnosis g (put base.hoodi h ((base.mainnet, m) ∷ []))) (
              All-put (IsEntry base) base.gnosis g (put base.hoodi h ((base.mainnet, m) ∷ []))
                (inr (inr refl), hg)
                (All-put (IsEntry base) base.hoodi h ((base.mainnet, m) ∷ []) (inr (inl refl), hh)
                  ((inl refl, hm), tt)))))))

  pub price_networks-IsPriced : Gives (All (IsPriced base)) (price_networks base {W = W})
  unfolding price_networks
  price_networks-IsPriced = Gives-skip (mainnet_price_config base) _ (λ m.
      Gives-skip (sepolia_price_config base) _ (λ t.
        let first : List (Text × Option PriceNetworkConfig) = (base.mainnet, some m) ∷ [] in
        let second = put base.hoodi none first in
        Gives-pure (put sepolia (some t) (put base.gnosis none second)) (
          All-put (IsPriced base) sepolia (some t) (put base.gnosis none second) (inl (t, refl)) (
            All-put (IsPriced base) base.gnosis none second (inr (inr refl)) (
              All-put (IsPriced base) base.hoodi none first (inr (inl refl))
                (inl (m, refl), tt))))))
