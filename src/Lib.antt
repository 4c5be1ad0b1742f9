-- ===== src/Lib.antt =====
-- The services of the taxi application: the requests of riders and drivers on orders, the money that
-- moves with them, the drivers that are claimed for them, and the users and their sessions.
--
-- The program is a set of Go services. The order service (services/order_service) prices a trip,
-- charges the rider through the wallet service, stores the order in Postgres, claims a driver from
-- the driver service, indexes orders for search and publishes events; drivers start and complete
-- trips, riders cancel and rate them. The wallet service (services/wallet_service) keeps balances
-- and transactions in Postgres, one debit and one credit at most under each reference, and caches
-- the latest transactions in Redis. The user service (services/user_service) keeps accounts in Mongo
-- and verifies credentials; the auth service (services/auth_service) gives pairs of signed tokens for
-- them, whose sessions it keeps in Redis. A registration is published to Kafka, from where the driver
-- and the wallet service create a driver and a wallet. The analytic service
-- (services/analytic_service) consumes the events of orders and users and counts them in ClickHouse.
--
-- Base: names of the libraries, tests on numbers and strings, signed integers with the wrap-around
-- of `int64`, the chains of actions (`Action`: a state in, a result or an error and a state out),
-- and the rules to follow a chain (`Runs`).
--
-- Order: services/order_service.
--   Order.Entity       entity/service and errorsx: `Order`, `Status`, `TaxiType`, the errors
--   Order.Pricing      service/pricing.go: `priceForTrip`, `haversineKm`
--   Order.World        the rows of `orders`, the calls sent out, and what answers them
--   Order.Repository   repository/pg_repo: one function for each SQL statement
--   Order.Service      service: `CreateOrder`, `CancelOrder`, `StartTrip`, `CompleteTrip`,
--                      `RateTrip`, `GetOrder`, `ListOrders`, `SearchOrders`
--   Order.Spec         the lifecycle, and the changes that a request may make
--   Order.Requests     any sequence of requests
--   Order.Document     entity/repository/order_document.go: the document of the search index
--   Order.Events       gateway/kafka.go and mapping.go: the events that are published
--   Order.Search       repository/es_repo/search_orders.go: the query of a search
--   Order.Proto        handler/grpc/mapping.go: the protobuf messages
--   Order.Rpc          handler/grpc/server.go: the remote procedures
--   Order.Tests        concrete runs
-- Wallet: services/wallet_service.
--   Wallet.Entity      entity/service and errorsx
--   Wallet.Store       repository/pg_repo and repository/redis_repo, outside a transaction
--   Wallet.Transact    service/transactional_operation.go, pg_atomic.go, the statements in it
--   Wallet.Service     service: `CreateWallet`, `GetWallet`, `Charge`, `Refund`,
--                      `ListRecentTransactions`
--   Wallet.Spec        what a charge or a refund does to the tables
--   Wallet.Ledger      the books: a balance is the sum of the transactions
--   Wallet.Requests    any sequence of requests
--   Wallet.Http        handler/http: the endpoints
--   Wallet.Tests       concrete runs
-- Payment: services/order_service/gateway/wallet_service with the endpoints it calls, and what the
-- order service may conclude from their answers.
--
-- Driver: services/driver_service: Driver.Entity, Driver.Repository (repository/repository.go),
-- Driver.Service (service), Driver.Requests, Driver.Claims on who may be claimed, Driver.Http
-- (handler/http) and Driver.Ratings (gateway/analytic_service).
-- Dispatch: services/order_service/gateway/driver_service with the endpoints it calls.
--
-- Auth: services/auth_service.
--   Auth.Entity        entity, errorsx, and what is used of golang-jwt
--   Auth.Store         repository/redis_repo: the keys of the sessions, and the commands on them
--   Auth.Service       service: `Login`, `Refresh`, `Validate`, `Logout`, `issueTokenPair`
--   Auth.Gateway       gateway/user_service: credentials are verified by the user service
--   Auth.Http          handler/http: the endpoints
--   Auth.Requests      any sequence of requests
--   Auth.Sessions, Auth.Keeps, Auth.Revoked, Auth.Ended: sessions that have ended
--   Auth.Healthy, Auth.Login: what a login gives
-- User: services/user_service.
--   User.Entity        entity, errorsx, and what is used of bcrypt and of object ids
--   User.Repository    repository/mongo and the unique indexes of migrations/mongo
--   User.Service       service, and the event of gateway/kafka.go
--   User.Http          handler/http and validation: the endpoints
--   User.Requests      any sequence of requests
--   User.Steps, User.Handled: what a request may do to the collection `users`
--   User.Indexed, User.Roles, User.Valid: what all requests keep
--   User.Logins, User.Passwords: which password opens an account
-- SignIn: the gateway of Auth with the endpoint of User that it calls.
-- Registration: the consumers of `user_registered` in services/driver_service/handler/kafka and
-- services/wallet_service/handler/kafka.
-- Analytic: services/analytic_service.
--   Analytic.Entity     entity/service and errorsx
--   Analytic.Store      repository/ch_repo: the tables of ClickHouse and the statements on them
--   Analytic.Service    service
--   Analytic.Consumers  handler/kafka: what is done with a message
--   Analytic.Http       handler/http: the endpoints
--   Analytic.Latest, Analytic.Counted, Analytic.Redelivered, Analytic.Ingested: what the figures count
-- Shared: shared/transport: how a service learns who calls it.
--
-- The state of the order service is `Order.World.World`: the rows of its table and the calls made so
-- far. `Order.World.Env` holds what the rest of the world answers, each answer a function of all
-- calls so far, so that it may change from call to call. A statement sent to Postgres may be lost
-- before it takes effect, or its reply after. The wallet's state is its two tables and the
-- statements sent; in a Postgres transaction the tables become visible at the commit, and a failed
-- statement makes the later ones fail. The driver, auth, user and analytic services have
-- each a `World` and an `Env` of the same kind.
--
-- Numbers: the enums of protobuf are open, any number may come. A time is a number of nanoseconds, 0
-- the zero time, where a theorem reads it. The rows of ClickHouse stand in the order of `ingested_at`.
--
-- Bounds: `int64` wraps by `Base.Int.int64`; `float64` and Go's `math` are the parameter `FloatOps`,
-- about which nothing is assumed. All loops are recursion on lists, and no fuel is used.
--
-- Not modelled: each request runs to its end before the next one starts, so races between requests
-- are left out, as are log lines, contexts, JSON, the formats of Kafka, start-up, the generated
-- protobuf code and the index of Elasticsearch. The order service takes the
-- answers of the driver service from its `Env`. The error of a failed statement stands for the text of
-- its whole chain.
pub mod Base
pub mod Order
pub mod Wallet
pub mod Payment
pub mod Driver
pub mod Dispatch
pub mod Auth
pub mod User
pub mod SignIn
pub mod Registration
pub mod Shared
pub mod Analytic
