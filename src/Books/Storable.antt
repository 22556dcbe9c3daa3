-- ===== src/Books/Storable.antt =====
-- The rows that `post` (packages/wallet/src/infrastructure/prisma-wallet-repository.ts) writes, and the
-- columns and CHECK constraints of the ledger tables (Ledger/Checks).
use arena_core.Prelude.{ℕ, ◌≡◌, refl, Bool, true, false, Option, arith, contains, &&_split}
use arena_core.Prelude.Int.{ℤ, pos, ◌≤ℤ◌}
use arena_core.Prelude.{if◌then◌else◌}
use arena_core.Ledger.{
  Ledger, LedgerAccount, is_user_available, with_balance, account_checks, in_bigint,
  key_format_check, fingerprint_check, note_fits, owner_type_check, reference_check,
  LedgerAccountType, user_available, system_issuance, system_adjustment, match_escrow, SystemKey,
  system_issuance_reference, admin_adjustment_reference,
}
use arena_core.Wallet.Repository.{PostLedgerInput}

-- The rows pass the CHECK constraints, the amounts fit their columns, the key, the fingerprint and the
-- note have the form that the columns ask for, and the actor is a user.
pub record IsStorable (input : PostLedgerInput) (u v : LedgerAccount) (after_u after_v : ℤ)
    (s : Ledger) : Type 0 where
  pub user_row : account_checks u ≡ true
  pub system_row : account_checks v ≡ true
  pub user_fits : in_bigint after_u ≡ true
  pub system_fits : in_bigint after_v ≡ true
  pub amount_fits : in_bigint input.amount ≡ true
  pub key_accepted : key_format_check input.idempotency_key ≡ true
  pub fingerprint_accepted : fingerprint_check input.fingerprint ≡ true
  pub note_accepted : note_fits input.note ≡ true
  pub actor_known : contains s.users input.actor_user_id ≡ true

pub owner_type-changed :
    (type : LedgerAccountType) (wallet : Option ℕ) (key : Option SystemKey) (before later : ℤ)
    → owner_type_check type wallet key before ≡ true
    → (is_user_available type ≡ true → pos 0 ≤ℤ later)
    → owner_type_check type wallet key later ≡ true
unfolding owner_type_check
owner_type-changed user_available wallet key before later h solvent =
    let enough = solvent refl in ground arith
owner_type-changed system_issuance wallet key before later h solvent = h
owner_type-changed system_adjustment wallet key before later h solvent = h
owner_type-changed match_escrow wallet key before later h solvent = h

-- A row that passes the CHECK constraints passes them with a balance that fits.
pub account_checks-with_balance :
    (a : LedgerAccount) (b : ℤ)
    → account_checks a ≡ true
    → in_bigint b ≡ true
    → (is_user_available a.type ≡ true → pos 0 ≤ℤ b)
    → account_checks (with_balance b a) ≡ true
unfolding account_checks
account_checks-with_balance a b h fits solvent =
    let both =
      &&_split (in_bigint a.current_balance)
        (owner_type_check a.type a.wallet_id a.system_key a.current_balance) h in
    rw (fits, owner_type-changed a.type a.wallet_id a.system_key a.current_balance b both.1 solvent)
      refl

pub reference-accepted :
    (issuing : Bool)
    → reference_check (if issuing then system_issuance_reference else admin_adjustment_reference)
      ≡ true
unfolding reference_check
reference-accepted true = refl
reference-accepted false = refl
