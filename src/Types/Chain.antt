-- ===== src/Types/Chain.antt =====
-- Chains: client/src/types/common.rs, and those of swaps of daemon/src/types/swap.rs.
use kalatori.Common.{refl, Bool, true, false, Result, ok, panic, is_ok, ◌≡◌, arith}

pub data ChainType : Type 0 where
  polkadot_asset_hub polygon : ChainType

abbrev pub chain_eq : ChainType → ChainType → Bool
chain_eq ChainType.polkadot_asset_hub ChainType.polkadot_asset_hub = true
chain_eq ChainType.polygon ChainType.polygon = true
chain_eq _ _ = false

pub data SwapChainType : Type 0 where
  abstract arbitrum avalanche base berachain blast bnb_smart_chain ethereum : SwapChainType
  hyper_evm ink lens linea lisk mega_eth mantle mode monad optimism plasma : SwapChainType
  polygon scroll sonic soneium solana tempo unichain world_chain zk_sync zora : SwapChainType

unfoldable pub SwapChainType-discrete : Discrete SwapChainType
SwapChainType-discrete = hlevel

-- `SwapChainType::from`: `unimplemented!` panics for the Asset Hub.
unfoldable pub swap_chain_from {ℓ} : {E : Type ℓ} → ChainType → Result E SwapChainType
swap_chain_from ChainType.polygon = ok SwapChainType.polygon
swap_chain_from ChainType.polkadot_asset_hub = panic

pub swap_chain_fails {ℓ} :
    (E : Type ℓ) (c : ChainType)
    → is_ok (swap_chain_from {E = E} c) ≡ false
    → c ≡ ChainType.polkadot_asset_hub
unfolding swap_chain_from
swap_chain_fails E ChainType.polkadot_asset_hub h = refl
swap_chain_fails E ChainType.polygon h = grind arith
