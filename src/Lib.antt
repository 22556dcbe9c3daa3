-- ===== src/Lib.antt =====
-- A model of Arena Core, and what holds of it.
--
-- Arena Core runs non-monetary matches: players hold Arena Points in a wallet, put an entry into a
-- match's escrow, and get it back or win the escrow, as far as the schema of the ledger lets them. The
-- model covers the ledger that carries this:
-- packages/wallet, and the parts of packages/match-finance that write to the ledger.
--
-- - Ledger: the tables (Ledger/Types) of packages/database/prisma/schema.prisma, and the queries on
--   them (Ledger/Queries), with the unique keys of the migrations and the CHECK constraints and column
--   ranges of the ledger tables (Ledger/Checks). The database's random identifiers and the hash
--   function are a parameter, `Platform`.
-- - Wallet/Policies, Wallet/Amount, Wallet/Fingerprint: packages/wallet/src/domain. `nextBalance` is
--   `next_balance`, `parseWalletAmount` is `parse_wallet_amount`, and so on.
-- - Wallet/Repository, Wallet/Posting: `PrismaWalletRepository` in
--   packages/wallet/src/infrastructure/prisma-wallet-repository.ts. Each method is a transaction: it
--   takes the tables to a result and the new tables, or throws, which leaves the tables as they were.
-- - Finance: packages/match-finance. Finance/Types has its data and error codes, Finance/Adapter the
--   methods of infrastructure/wallet-ledger-adapter.ts and
--   infrastructure/prisma-match-settlement-ledger-adapter.ts, which write to the same tables.
-- - Books: the invariant that ties balances, entries and transactions together (Books/Invariant), how
--   the queries act on it (Books/Tables, Books/Rows, Books/Steps,
--   Books/Movement, Books/Writes), one module for each operation, the rows that the schema accepts
--   (Books/Storable), and the histories of operations (Books/History).
-- - Wallet/Service: `WalletLedgerService` in
--   packages/wallet/src/application/wallet-ledger-service.ts.
-- - Finance/Eligibility, Finance/Requirement, Finance/Reservations: packages/match-finance/src/domain,
--   the policies on settlements, on the entry that a match asks for, and on reservations;
--   Finance/Evaluation has what the evaluation of a settlement decides.
-- - Matches: packages/matches/src/domain, the states of matches and disputes and what they may change
--   to (Matches/Status, Matches/Courses), the outcome that the scores give (Matches/Outcomes), and
--   the results that players submit (Matches/Results), and what is known of those that are accepted
--   (Matches/Candidates, Matches/Accepted).
-- - Rating: packages/rating/src/domain, the rating policy and the Elo calculation. Floating-point
--   arithmetic is a parameter, `Arithmetic`: the expected scores and the raw ratings are its.
-- - Finance/Store, Finance/Repository, Finance/Writes, Finance/Contexts, Finance/Closing: the tables of
--   packages/match-finance/src/infrastructure with their unique keys and CHECK constraints, and the
--   queries and writes of its two repositories. A write that breaks a CHECK throws.
-- - Finance/Entries, Finance/Refunds, Finance/Settlements: the services of
--   packages/match-finance/src/application over these tables. They take the generated identifier and
--   the time of the clock as arguments.
-- - Backing: how the services move the balances of the escrow accounts, the invariant that ties the
--   escrow accounts to the reservations, histories of the services (Backing/History), and what the
--   CHECK constraints of the ledger mean for the match finance package (Backing/Refusals,
--   Backing/Keeping, Backing/Absent).
-- - Notifications: packages/notifications, the delivery of a message of the outbox. Its calls on the
--   database run outside a transaction (Prelude/Action), so that an attempt that is recorded before an
--   error stays. A round takes the readings of the clock, the generated identifier and the answer of the
--   mail's provider as arguments; the templates are a parameter. The number of rounds that close a
--   message is bounded by the policy's attempts, which are 20 at most.
-- - Matchmaking: packages/matchmaking, the compatibility of two requests (domain/compatibility.ts) and the
--   choice of the best candidate (application/matchmaking-engine.ts). The proposal that follows is not
--   modelled.
-- - Prelude: numbers, lists, texts and transactions that the modules share.
-- - Examples: concrete runs.
--
-- Amounts are integers (`bigint`), identifiers are numbers, dates are milliseconds, texts are lists of
-- character codes. Every loop is a recursion on a list; the only fuel is the number of digits that a
-- number is written with (Wallet/Amount/Decimal), for which the number itself is enough.
--
-- Not modelled: concurrency (transactions are taken one after the other, and row locks have no effect
-- then), the listing of entries, the HTTP interface, the web client, the jobs, and the packages that
-- do not write to the ledger, except as named above.
pub mod Prelude
pub mod Ledger
pub mod Wallet
pub mod Books
pub mod Finance
pub mod Backing
pub mod Matches
pub mod Rating
pub mod Notifications
pub mod Matchmaking
pub mod Examples
