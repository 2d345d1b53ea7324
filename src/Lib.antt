-- ===== src/Lib.antt =====
-- The payment core of Saftaja's backend (khazina): a merchant's invoice is paid by card through the
-- MPGS gateway. A checkout opens a payment session at the gateway and in the database, authenticates
-- the payer (3-D Secure) in two calls, and finalises the payment, which charges the card and marks
-- the invoice as paid. An admin API creates the organizations, projects, gateway accounts and
-- invoices that payments are about.
--
-- The parts and their files, paths from the repository's root under khazina/internal:
--   * Domain, Errors: domain/types.go and payment/errors.go. UUIDs and times are numbers, amounts
--     are in thousandths (DECIMAL(12, 3)), an error keeps the arguments of its text.
--   * Store/Rows, Reads, Writes: store/models.go and the statements of checkout.sql.go,
--     invoices.sql.go, invoice_items.sql.go and payment_sessions.sql.go, over tables that are lists
--     with the newest row first. The migrations' keys, references, unique indexes, defaults and
--     triggers are part of a statement; other refusals of the server, such as a text that is too
--     long for its column, fall under its faults.
--     Store/Latest is about the queries that take the newest row.
--   * Store/Admin: the INSERTs of admin.sql.go, where what a column keeps of a text or of JSON is a
--     parameter; Store/Numeric is the rounding of an amount to a DECIMAL(12, 3) column, and
--     Numeric/Rounding is about it.
--   * Config: the record, Validate and GetEncryptionKey of config/config.go.
--   * Connectors: the credentials of connectors/mpgs/credentials.go, crypto/aes.go (Crypto, and
--     Crypto/RoundTrip about it), the registry of connectors/registry.go and types.go, and the
--     description of connectors/mpgs/metadata.go, which Demands compares with the credentials.
--   * Mpgs: clients/mpgs, each call as the request that it sends, the status that it expects and what
--     it decodes. Bodies of requests are values; the JSON of responses is decoded by parameters.
--   * Env: what the code calls and does not implement. Each call of the database is answered,
--     refused, or done with its answer lost; the gateway answers anything; both may differ from call
--     to call, so a theorem over an `Env` is about every run of faults.
--   * Exec: a call of the program as a function on the world (the tables and the log of requests to
--     the gateway) that ends in a result, an error or a panic. What was written before an error
--     stays; `transaction` is Begin, a body and Commit, with the rollback of a body that fails.
--   * Payment/Types, Checkout, Initiate, Auth, Finalize: payment/types.go and payment/service.go, an
--     operation of the interface `Service` for each method of the same name.
--   * Payment/State: payment/state.go, and in State/Graph the graphs that it encodes.
--   * Admin: admin/service.go (Types, Service), and the handlers and the check of the key of
--     admin/handlers.go and middleware.go (Handlers); Accounts, Amounts and Access are about them.
--   * Ledger: the abstract specification. Ledger/Step has the steps by which tables and requests may
--     change, each with its conditions; Ledger/Inv has the invariant of the tables, and Ledger/Keeps
--     relates the two. Ledger/Refines relates the operations, those of the admin API too, to the
--     steps, Ledger/Traffic is about sequences of calls, Ledger/Charges about the payment requests,
--     Ledger/Guards and Ledger/Idempotent about single calls, Ledger/Tenants and Isolated about the
--     rows of other projects than the call's, and Ledger/Taken and Completes about a payment that
--     nothing hinders.
--   * Concurrent: the operations of payment/service.go and of admin/service.go that run at the same
--     time. Concurrent/Program and Pool say what a program and a pool of programs are; Checkout,
--     Initiate, Auth, Finalize and Admin write the operations as programs, and Sequential relates
--     them to those of Payment and Admin; Change, Safe, Rules and Turns are the reasoning about a
--     program while others change the tables, Many is about any number of programs, Server about
--     the operations together, and Ending about how many calls they make. Concurrent/Http writes the
--     routes, the middlewares and the handlers as programs; Http/Alone relates them to those of Web,
--     and Http/Safety and Http/Server are about HTTP requests that overlap.
--   * Web: the HTTP layer. Web/Errors has the replies of web/errors.go, Web/Request what is read of a
--     request (web/request.go), Web/Tenant the tenant service and the two middlewares that ask it
--     (tenant/service.go, web/middlewares/tenant.go and cors.go), Web/Handlers the handlers of
--     web/handlers.go, and Web/Router what khazina/main.go builds from its configuration, its routes
--     and the middlewares around them. Web/Outcome says what a request can leave behind; Web/Replies,
--     Cors, Administration, Traffic, Server, Hosting, Isolation and Build are about the requests and
--     the start.
--   * Localisation: domain/i18n.go (Language) and the texts of domain/messages.go (Messages and
--     Labels); Shown is about the text that a request gets, Json about the JSON forms.
--   * Tests: a project with one invoice, on which the model runs and the theorems are tried.
--
-- Nothing here runs on fuel: the only loops of the code go over rows and accounts, and are
-- recursions on lists. In Payment, Ledger and Web one call runs at a time, and calls follow each
-- other in any order. In Concurrent any number of operations or HTTP requests run at the same
-- time, and take turns: a turn is one SQL statement, one transaction from Begin to Commit, one
-- request to the gateway or one look at the clock. A transaction is one turn since PostgreSQL shows
-- its two updates to others at its commit, and lets the unique index refuse the later of two.
--
-- Not modelled: the reading of the environment and of a configuration file, connections and migrations,
-- the shutdown of the server, time limits of requests, logging, the empty handler of wallets, utilities without a caller,
-- generated mocks and page templates: they are input and output, or generated. Of the responses of the
-- gateway the fields that the program reads are modelled.
pub mod Prelude
pub mod Domain
pub mod Errors
pub mod Connectors
pub mod Mpgs
pub mod Env
pub mod Store
pub mod Exec
pub mod Config
pub mod Payment
pub mod Ledger
pub mod Concurrent
pub mod Admin
pub mod Web
pub mod Localisation
pub mod Tests
