-- ===== src/Config.antt =====
-- pkg/config/config.go: what depends on the chain. Blocks are counted, and times are in seconds.
use eigenx_kms_go.Prelude.{ℕ, ◌==◌, if◌then◌else◌}

abbrev pub ChainId : Type 0
ChainId = ℕ

abbrev pub ethereum_mainnet : ChainId
ethereum_mainnet = 1

abbrev pub ethereum_sepolia : ChainId
ethereum_sepolia = 11155111

abbrev pub ethereum_anvil : ChainId
ethereum_anvil = 31337

-- A `switch` on the three Ethereum chains, with a default.
abbrev by_chain : ChainId → ℕ → ℕ → ℕ → ℕ → ℕ
by_chain c mainnet sepolia anvil default =
    if c == ethereum_mainnet
    then mainnet
    else if c == ethereum_sepolia
    then sepolia
    else if c == ethereum_anvil
    then anvil
    else default

unfoldable pub get_reshare_cutoff_buffer_for_chain : ChainId → ℕ
get_reshare_cutoff_buffer_for_chain c = by_chain c 2 2 2 2

unfoldable pub get_reshare_block_interval_for_chain : ChainId → ℕ
get_reshare_block_interval_for_chain c = by_chain c 50 10 10 50

unfoldable pub get_protocol_timeout_for_chain : ChainId → ℕ
get_protocol_timeout_for_chain c = by_chain c 480 90 30 480
