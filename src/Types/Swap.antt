-- ===== src/Types/Swap.antt =====
-- Swaps: daemon/src/types/swap.rs.
use kalatori.Types.Chain.{
  SwapChainType, abstract, arbitrum, avalanche, base, berachain, blast, bnb_smart_chain, ethereum,
  hyper_evm, ink, lens, linea, lisk, mega_eth, mantle, mode, monad, optimism, plasma, scroll, sonic,
  soneium, solana, tempo, unichain, world_chain, zk_sync, zora,
}
use kalatori.Common.{
  arith, ℕ, Result, ok, err, List, [], ◌∷◌, ◌==◌, if◌then◌else◌, ◌≡◌, refl, ◌↔◌, exists, or_false,
  Bool, false, not, Bool-cases, inl, inr, ok_inj, err_ok, ==_iff, ◌∙◌, ap,
}

-- `SwapChainType::chain_id`
unfoldable pub chain_id : SwapChainType → ℕ
chain_id abstract = 2741
chain_id arbitrum = 42161
chain_id avalanche = 43114
chain_id base = 8453
chain_id berachain = 80094
chain_id blast = 81457
chain_id bnb_smart_chain = 56
chain_id ethereum = 1
chain_id hyper_evm = 999
chain_id ink = 57073
chain_id lens = 232
chain_id linea = 59144
chain_id lisk = 1135
chain_id mega_eth = 4326
chain_id mantle = 5000
chain_id mode = 34443
chain_id monad = 143
chain_id optimism = 10
chain_id plasma = 9745
chain_id SwapChainType.polygon = 137
chain_id scroll = 534352
chain_id sonic = 146
chain_id soneium = 1868
chain_id solana = 34268394551451
chain_id tempo = 4217
chain_id unichain = 130
chain_id world_chain = 480
chain_id zk_sync = 323
chain_id zora = 7777777

-- The arms of the match of `TryFrom<u64>`, in their order.
abbrev arms : List (ℕ × SwapChainType)
arms =
    (2741, abstract)
    ∷ (42161, arbitrum)
    ∷ (43114, avalanche)
    ∷ (8453, base)
    ∷ (80094, berachain)
    ∷ (81457, blast)
    ∷ (56, bnb_smart_chain)
    ∷ (1, ethereum)
    ∷ (999, hyper_evm)
    ∷ (57073, ink)
    ∷ (232, lens)
    ∷ (59144, linea)
    ∷ (1135, lisk)
    ∷ (4326, mega_eth)
    ∷ (5000, mantle)
    ∷ (34443, mode)
    ∷ (143, monad)
    ∷ (10, optimism)
    ∷ (9745, plasma)
    ∷ (137, SwapChainType.polygon)
    ∷ (534352, scroll)
    ∷ (146, sonic)
    ∷ (1868, soneium)
    ∷ (34268394551451, solana)
    ∷ (4217, tempo)
    ∷ (130, unichain)
    ∷ (480, world_chain)
    ∷ (323, zk_sync)
    ∷ (7777777, zora)
    ∷ []

-- The first arm that matches; `Err(value)` when none does.
abbrev match_arm : List (ℕ × SwapChainType) → ℕ → Result ℕ SwapChainType
match_arm [] value = err value
match_arm ((id, chain) ∷ rest) value = if value == id then ok chain else match_arm rest value

-- `SwapChainType::try_from`
unfoldable pub swap_chain_try_from : ℕ → Result ℕ SwapChainType
swap_chain_try_from value = match_arm arms value

-- An arm that does not give the chain of its number.
abbrev is_wrong : ℕ × SwapChainType → Bool
is_wrong (id, chain) = not (id == chain_id chain)

match_arm_lem :
    (l : List (ℕ × SwapChainType)) (n : ℕ) (c : SwapChainType)
    → exists is_wrong l ≡ false
    → match_arm l n ≡ ok c
    → n ≡ chain_id c
match_arm_lem [] n c h e = absurd (err_ok e)
match_arm_lem ((id, chain) ∷ rest) n c h e = elim (Bool-cases (n == id)) [
  | inl f ↦
      (==_iff n id).0 f
      ∙ right_arm id (chain_id chain) (or_false (is_wrong (id, chain)) (exists is_wrong rest) h).0
      ∙ ap chain_id (ok_inj ℕ (rw f at e))
  | inr f ↦
      match_arm_lem rest n c (or_false (is_wrong (id, chain)) (exists is_wrong rest) h).1
        (rw f at e)
]
  where
    right_arm : (a b : ℕ) → not (a == b) ≡ false → a ≡ b
    right_arm a b e = ground arith

arms_agree : exists is_wrong arms ≡ false
unfolding chain_id
arms_agree = refl

found : (c : SwapChainType) → swap_chain_try_from (chain_id c) ≡ ok c
unfolding swap_chain_try_from chain_id
found abstract = refl
found arbitrum = refl
found avalanche = refl
found base = refl
found berachain = refl
found blast = refl
found bnb_smart_chain = refl
found ethereum = refl
found hyper_evm = refl
found ink = refl
found lens = refl
found linea = refl
found lisk = refl
found mega_eth = refl
found mantle = refl
found mode = refl
found monad = refl
found optimism = refl
found plasma = refl
found SwapChainType.polygon = refl
found scroll = refl
found sonic = refl
found soneium = refl
found solana = refl
found tempo = refl
found unichain = refl
found world_chain = refl
found zk_sync = refl
found zora = refl

-- A number is read as a chain exactly when it is that chain's id.
pub chain_id-swap_chain_try_from :
    (n : ℕ) (c : SwapChainType) → (swap_chain_try_from n ≡ ok c) ↔ (n ≡ chain_id c)
unfolding swap_chain_try_from
chain_id-swap_chain_try_from n c =
    (match_arm_lem arms n c arms_agree, λ e. ap swap_chain_try_from e ∙ found c)
