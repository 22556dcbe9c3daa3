-- ===== src/Books/Services.antt =====
-- `WalletLedgerService` (packages/wallet/src/application/wallet-ledger-service.ts) answers a
-- repeated key, or has the repository post what the request says.
use arena_core.Prelude.{
  ℕ, ◌≡◌, refl, true, false, Option, none, some, Text, text_eq, is_some, arith,
}
use arena_core.Prelude.Int.{pos, leb_ℤ}
use arena_core.Prelude.Outcome.{
  Outcome, ok, throw, after, Ensures, committed, rolled_back, Ensures-map, Ensures-both,
  Ensures-after, Ensures-throw_if, Ensures-or_throw, Ensures-ok,
}
use arena_core.Wallet.Policies.{
  WalletErrorCode, is_idempotency_key, validate_idempotency_key, validate_reason,
}
use arena_core.Wallet.Posting.{post, reverse}
use arena_core.Ledger.{
  Ledger, Failure, is_credit, is_posted, is_reversal, LedgerTransaction, Platform,
  transaction_by_key, transaction_by_id,
}
use arena_core.Wallet.Repository.{
  WalletTx, PostedTransaction, map_found, find_by_idempotency_key, find_transaction,
}
use arena_core.Wallet.Service.{
  PostRequest, ReverseRequest, answer_existing, post_request, reverse_request, is_issuing, type_of,
  posts, fingerprint_of, reversal_fingerprint,
}
use arena_core.Books.Steps.{Ensures-checked, map_transaction-reads}

map_found-reads :
    (o : Option LedgerTransaction) (l : Ledger) → Ensures (λ _ s. s ≡ l) (map_found o l)
map_found-reads none l = committed refl
map_found-reads (some t) l = Ensures-after (map_transaction-reads t l) λ p s same. committed same

find_by_idempotency_key-reads :
    (key : Text) (l : Ledger) → Ensures (λ _ s. s ≡ l) (find_by_idempotency_key key l)
unfolding find_by_idempotency_key
find_by_idempotency_key-reads key l =
    Ensures-ok _ l _ (map_found-reads (transaction_by_key key l) l)

find_transaction-reads : (id : ℕ) (l : Ledger) → Ensures (λ _ s. s ≡ l) (find_transaction id l)
unfolding find_transaction
find_transaction-reads id l = Ensures-ok _ l _ (map_found-reads (transaction_by_id id l) l)

-- The answer of a request: the transaction stored under its key, of the same fingerprint, with nothing
-- written; or the key is new, and the answer is what the repository commits.
pub data IsAnswered (key fingerprint : Text) (l : Ledger) (otherwise : WalletTx PostedTransaction)
    (t : PostedTransaction) (s : Ledger) : Type 0 where
  replayed :
      find_by_idempotency_key key l ≡ ok (some t, l)
      → text_eq t.fingerprint fingerprint ≡ true
      → s ≡ l
      → IsAnswered key fingerprint l otherwise t s
  written :
      find_by_idempotency_key key l ≡ ok (none, l)
      → otherwise l ≡ ok (t, s)
      → IsAnswered key fingerprint l otherwise t s

-- What is committed, as an equation.
Ensures-self : {S E A : Type 0} (r : Outcome E (A × S)) → Ensures (λ a s. r ≡ ok (a, s)) r
Ensures-self (ok (a, s)) = committed refl
Ensures-self (throw e) = rolled_back

answer_existing-IsAnswered :
    (key fingerprint : Text) (existing : Option PostedTransaction)
    (otherwise : WalletTx PostedTransaction) (l : Ledger)
    → find_by_idempotency_key key l ≡ ok (existing, l)
    → Ensures
        (IsAnswered key fingerprint l otherwise)
        (answer_existing fingerprint existing otherwise l)
unfolding answer_existing
answer_existing-IsAnswered key fingerprint none otherwise l found =
    Ensures-map (Ensures-self (otherwise l)) λ t s e. written found e
answer_existing-IsAnswered key fingerprint (some t) otherwise l found =
    Ensures-throw_if _ _ l _ λ same. committed (replayed found (ground arith) refl)

found_reading :
    {A : Type 0} {l s : Ledger} {r : Outcome (Failure WalletErrorCode) (A × Ledger)} (a : A)
    → s ≡ l
    → r ≡ ok (a, s)
    → r ≡ ok (a, l)
found_reading a same e = rw same at e

answered :
    (key fingerprint : Text) (otherwise : WalletTx PostedTransaction) (l : Ledger)
    → Ensures (IsAnswered key fingerprint l otherwise) (
        after
          (find_by_idempotency_key key l)
          λ existing. answer_existing fingerprint existing otherwise)
answered key fingerprint otherwise l =
    Ensures-after (Ensures-both _ (Ensures-self _) (find_by_idempotency_key-reads key l))
      λ existing s (e, same). rw same (
        answer_existing-IsAnswered key fingerprint existing otherwise l
          (found_reading existing same e))

-- The conditions under which a request is posted, and what the repository is asked for.
pub record IsPosted (g : Platform) (input : PostRequest) (now : ℕ) (l : Ledger)
    (t : PostedTransaction) (s : Ledger) : Type 0 where
  pub key : is_idempotency_key input.idempotency_key ≡ true
  pub reason : validate_reason input.reason_code input.note ≡ ok tt
  pub amount : leb_ℤ input.amount (pos 0) ≡ false
  pub credits : is_issuing input.operation ≡ true → is_credit input.direction ≡ true
  pub answer :
      IsAnswered input.idempotency_key
        (fingerprint_of g input)
        l
        (post g (record {
          user_id = input.user_id;
          actor_user_id = input.actor_user_id;
          type = type_of input.operation;
          excludes_reversal = posts input.operation;
          direction = input.direction;
          amount = input.amount;
          idempotency_key = input.idempotency_key;
          fingerprint = fingerprint_of g input;
          reason_code = input.reason_code;
          note = input.note;
          now = now;
        }))
        t
        s

valid_key :
    (key : Text) {k : Text} → validate_idempotency_key key ≡ ok k → is_idempotency_key key ≡ true
unfolding validate_idempotency_key
valid_key key h = ground arith

-- Whatever the service's `post` commits, the key and the reason are valid, the amount is positive, an
-- issuance credits, and either the key is stored with the same fingerprint and its transaction is the
-- answer, with nothing written, or the key is new and the answer is what the repository commits for the
-- user, direction, amount, type, key and fingerprint of the request.
pub post_request-IsPosted :
    (g : Platform) (input : PostRequest) (now : ℕ) (l : Ledger)
    → Ensures (IsPosted g input now l) (post_request g input now l)
unfolding post_request
post_request-IsPosted g input now l = Ensures-checked _ l _ λ k key.
    Ensures-checked _ l _ λ u valid. Ensures-throw_if _ _ l _ λ positive.
      Ensures-throw_if _ _ l _ λ credits.
        Ensures-map (answered input.idempotency_key (fingerprint_of g input) _ l) λ t s answer.
          record {
            key = valid_key input.idempotency_key key;
            reason = valid;
            amount = positive;
            credits = λ issues. ground arith;
            answer = answer;
          }

-- The conditions under which a transaction is reversed, and what the repository is asked for.
pub record IsReversed (g : Platform) (input : ReverseRequest) (now : ℕ) (l : Ledger)
    (t : PostedTransaction) (s : Ledger) : Type 0 where
  pub original : PostedTransaction
  pub found : find_transaction input.transaction_id l ≡ ok (some original, l)
  pub key : is_idempotency_key input.idempotency_key ≡ true
  pub reason : validate_reason input.reason_code input.note ≡ ok tt
  pub is_open : (is_posted original.status ≡ true) × (is_reversal original.type ≡ false)
  pub once : is_some original.reversed_by_id ≡ false
  pub answer :
      IsAnswered input.idempotency_key
        (reversal_fingerprint g input original)
        l
        (reverse g (record {
          transaction_id = input.transaction_id;
          actor_user_id = input.actor_user_id;
          idempotency_key = input.idempotency_key;
          fingerprint = reversal_fingerprint g input original;
          reason_code = input.reason_code;
          note = input.note;
          now = now;
        }))
        t
        s

-- Whatever the service's `reverse` commits, the key and the reason are valid, the original is stored,
-- posted, no reversal and not reversed, and either the key is stored with the same fingerprint and its
-- transaction is the answer, with nothing written, or the key is new and the answer is what the repository
-- commits for the reversal of this original.
pub reverse_request-IsReversed :
    (g : Platform) (input : ReverseRequest) (now : ℕ) (l : Ledger)
    → Ensures (IsReversed g input now l) (reverse_request g input now l)
unfolding reverse_request
reverse_request-IsReversed g input now l = Ensures-checked _ l _ λ k key.
    Ensures-checked _ l _ λ u valid.
      Ensures-after
        (Ensures-both _ (Ensures-self _) (find_transaction-reads input.transaction_id l))
        λ found s0 (e, same). rw same (
          Ensures-or_throw _ _ l _ λ original there. Ensures-throw_if _ _ l _ λ reversible.
            Ensures-throw_if _ _ l _ λ once.
              Ensures-map
                (answered input.idempotency_key (reversal_fingerprint g input original) _ l)
                λ t s answer. record {
                  original = original;
                  found = let f = found_reading found same e in rw there at f;
                  key = valid_key input.idempotency_key key;
                  reason = valid;
                  is_open = (ground arith, ground arith);
                  once = once;
                  answer = answer;
                })
