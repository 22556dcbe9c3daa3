-- ===== src/Wallet/Amount.antt =====
-- packages/wallet/src/domain/amount.ts: amounts as decimal text.
mod Decimal
unfoldable pub use Decimal.*
