-- ===== src/Examples/Setting.antt =====
-- A platform whose identifiers count up, and the requests of the concrete runs.
use arena_core.Prelude.{
  ℕ, suc, ◌+◌, ◌≡◌, refl, ◌≤◌, false, none, List, [], ◌∷◌, Text, codes, arith, contains,
}
use arena_core.Prelude.Int.{pos}
use arena_core.Prelude.Outcome.{Outcome, ok, throw}
use arena_core.Ledger.{
  Ledger, Platform, credit, debit, LedgerDirection, issuance, admin_adjustment,
  LedgerTransactionType, is_reversal, foundation_test,
}
use arena_core.Wallet.Repository.{PostLedgerInput, ReverseLedgerInput}
use arena_core.Books.History.{empty_ledger}

abbrev sum : List ℕ → ℕ
sum [] = 0
sum (x ∷ xs) = x + sum xs

pub le-sum : (used : List ℕ) (n : ℕ) → sum used ≤ n → contains used (suc n) ≡ false
le-sum [] n h = refl
le-sum (x ∷ xs) n h = ground (arith, le-sum xs n)

-- A text that has the form of a SHA-256 digest.
abbrev pub digest : Text
digest = codes "00112233445566778899aabbccddeeff00112233445566778899aabbccddeeff"

-- A platform on which every text has the same digest.
abbrev pub counting : Platform
counting = record {
  draw = λ used. suc (sum used);
  draw_fresh = λ used. le-sum used (sum used) (omega arith);
  sha256 = λ t. digest;
  uuid_text = λ n. n ∷ [];
}

abbrev pub committed_state : {E A : Type 0} → Outcome E (A × Ledger) → Ledger
committed_state (ok (a, s)) = s
committed_state (throw e) = empty_ledger

abbrev pub one_user : Ledger
one_user = record {
  users = 7 ∷ (1 ∷ []);
  wallets = [];
  accounts = [];
  transactions = [];
  audit_events = [];
}

abbrev pub posting_of :
    (type : LedgerTransactionType)
    → is_reversal type ≡ false
    → LedgerDirection
    → ℕ
    → Text
    → PostLedgerInput
posting_of type posts direction amount key = record {
  user_id = 7;
  actor_user_id = 1;
  type = type;
  excludes_reversal = posts;
  direction = direction;
  amount = pos amount;
  idempotency_key = key;
  fingerprint = digest;
  reason_code = foundation_test;
  note = none;
  now = 1000;
}

abbrev pub issue_500 : PostLedgerInput
issue_500 = posting_of issuance refl credit 500 (codes "issue-0001")

abbrev pub take_200 : PostLedgerInput
take_200 = posting_of admin_adjustment refl debit 200 (codes "adjust-0001")

abbrev pub undo : ℕ → ReverseLedgerInput
undo id = record {
  transaction_id = id;
  actor_user_id = 1;
  idempotency_key = codes "reverse-0001";
  fingerprint = digest;
  reason_code = foundation_test;
  note = none;
  now = 2000;
}
