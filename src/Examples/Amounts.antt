-- ===== src/Examples/Amounts.antt =====
-- Amounts of the wallet and their texts.
use arena_core.Prelude.{◌≡◌, refl, ◌<◌, ◌≤◌, arith, codes}
use arena_core.Prelude.Int.{pos}
use arena_core.Prelude.Outcome.{ok}
use arena_core.Wallet.Amount.{
  parse_wallet_amount, serialize_wallet_amount, max_wallet_amount, parse-serialize, parse_bounds,
}

-- `Wallet.Amount.Decimal.parse-serialize` for 1250.
parse-serialize_example : parse_wallet_amount (serialize_wallet_amount (pos 1250)) ≡ ok 1250
parse-serialize_example = parse-serialize 1250 (omega arith) (omega arith)

text_accepted : parse_wallet_amount (codes "1250") ≡ ok 1250
unfolding parse_wallet_amount
text_accepted = refl

-- `Wallet.Amount.Decimal.parse_bounds` for the text 1250.
parse_bounds_example : (0 < 1250) × (1250 ≤ max_wallet_amount)
parse_bounds_example = parse_bounds (codes "1250") text_accepted
