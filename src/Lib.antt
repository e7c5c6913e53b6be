-- ===== src/Lib.antt =====
-- StellarUrithi-Bidz: the off-chain half of an auction protocol on Stellar. A backend indexes the
-- events of the auction contract into PostgreSQL, pushes them to browsers over WebSocket and serves a
-- REST API; a web application places bids and uploads files. This library models the logic of the
-- backend and of the application's library and server code, and proves what they do and do not
-- promise.
--
-- Parts, by the file that models them (paths from the repository's root):
--   RateLimiter    backend/src/middleware/rateLimiter.ts: one store of time stamps per client key,
--                  shared by every limiter; `limit` is the middleware, `cleanup` its timer.
--   Auth           backend/src/middleware/auth.ts: `stellar_auth_middleware` and its replay cache.
--   SocketServer   backend/src/ws/socket_server.ts: `handle` is the handlers of one connection; it
--                  returns the calls that it makes of socket.io. It uses the message format of Auth.
--   Database       backend/src/db/index.ts: the tables, and a statement for each query that writes;
--                  Database/Analytics is `getAnalytics`.
--   Indexer        backend/src/indexer/event_indexer.ts: a handler for each kind of event, over
--                  Database; Indexer/Events is `processEvent`, Indexer/Poll `pollEvents`,
--                  Indexer/Retry `withRetry`, Indexer/Loop the loops of `startIndexer` with their timers.
--   Broadcast      backend/src/index.ts, and the broadcast functions of backend/src/ws/socket_server.ts:
--                  what the server sends for an event of Indexer, to the rooms of SocketServer.
--   Routes         backend/src/routes/auctions.ts: the two simulations and the route of a bid, on
--                  bodies that backend/src/schemas/auctions.ts let through, and rows of Database;
--                  Routes/Health is the health check and the analytics.
--   Schemas        backend/src/schemas/auctions.ts, over an interface to Zod (Schemas/Builders).
--   Api            backend/src/index.ts and backend/src/routes/auctions.ts: the routes in their order, and
--                  what a POST passes through: the limiters of RateLimiter, the schemas, Auth, the handler.
--   Listing        frontend/src/lib/api.ts, backend/src/middleware/validate.ts and the reading parts of
--                  backend/src/routes/auctions.ts and backend/src/db/index.ts: the list of auctions
--                  from its parameters to the query; Listing/Answer is the way back.
--   Commitment     frontend/src/lib/crypto.ts and contracts/auction/src/sealed_bid.rs: the bytes under
--                  the HMAC of a sealed bid, on both sides.
--   Invoke         frontend/src/lib/stellar.ts: `invoke_contract` and its polling.
--   AuctionPage    frontend/src/app/auctions/[id]/page.tsx: the state of the page of an auction, and the
--                  effects of socket events; AuctionPage/Handlers is the handlers, over the answers of
--                  Invoke. AuctionPage/Sealed follows a sealed bid with the salts of Commitment/Hex,
--                  AuctionPage/Updates runs the effects when their dependencies are other objects.
--   CreatePage     frontend/src/app/create/page.tsx: the form of a new auction, its submission, and the
--                  contract's checks of its times (contracts/auction/src/lib.rs).
--   Hooks          frontend/src/hooks/useWebSocket.ts: the listeners of the two hooks; Hooks/Delivery
--                  joins them to Broadcast, Hooks/SignIn and Hooks/Switch to SocketServer.
--   Uploader       frontend/src/components/ui/IPFSUploader.tsx and the uploads of
--                  frontend/src/lib/pinata.ts, on answers of the route of Upload.
--   Wallet         frontend/src/providers/wallet.tsx: the connection to Freighter; Wallet/Signer joins it to
--                  the handlers of AuctionPage.
--   CustodianPortal  custodian-portal/src/app/page.tsx and custodian-portal/src/lib/stellar.ts: the
--                  handlers of the custodian's page, those of a document in CustodianPortal/Attest;
--                  CustodianPortal/Overlap takes an upload in steps, so that uploads may overlap.
--                  CustodianPortal/Upload is custodian-portal/src/app/api/ipfs/upload/route.ts.
--   Upload         frontend/src/app/api/ipfs/upload/route.ts: `post_upload` is its POST, `admit_ip`
--                  the limiter in it.
--   Ipfs           frontend/src/lib/pinata.ts and shared-ipfs.ts: CIDs and their URIs.
--   Format         frontend/src/lib/stellar.ts: the time left, amounts, addresses, percentages as texts.
--   AuctionCard    frontend/src/components/auction/AuctionCard.tsx: the texts of a card, over Format.
--   MyBids         frontend/src/app/my-bids/page.tsx: the list of a bidder's bids; MyBids/Labels joins its
--                  labels to Indexer.
--   Values, Text, Prelude   what the sources use of JavaScript: truthiness, `String(…)`, string
--                  methods, maps, early returns.
-- A file's children hold its theorems; modules called Tests hold runs on concrete values.
--
-- Conventions: the clock, random values and what PostgreSQL, the RPC node and the signature library
-- answer are arguments, and so are Zod and Express, with what the source relies on of them as
-- hypotheses (IsZod, IsFirstMatch). Whether PostgreSQL takes a statement is a function of the
-- statement within one run: no statement fails once and passes later in it. Numbers are natural,
-- without signs (but the hours of CreatePage); amounts are texts or numbers of any size, as the
-- source passes them. A handler that throws keeps what it wrote before, as the source does outside
-- its one transaction. The `while (true)` of `pollEvents` takes fuel, one unit for each batch; one
-- more than the highest ledger is enough where full batches make progress. Recursions that print
-- digits take the number itself as fuel.
--
-- Not modelled: log output, Redis (its client is never read), socket.io's delivery, the
-- start of the servers, the admin page, which only shows messages, and the layout of the pages.
pub mod Prelude
pub mod Text
pub mod RateLimiter
pub mod Auth
pub mod SocketServer
pub mod Values
pub mod Database
pub mod Indexer
pub mod Upload
pub mod Routes
pub mod Commitment
pub mod Broadcast
pub mod Ipfs
pub mod Format
pub mod Invoke
pub mod AuctionPage
pub mod CreatePage
pub mod Hooks
pub mod CustodianPortal
pub mod Listing
pub mod Wallet
pub mod Uploader
pub mod AuctionCard
pub mod MyBids
pub mod Api
pub mod Schemas
