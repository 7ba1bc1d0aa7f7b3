-- ===== src/Lib.antt =====
-- A model of the services of PinguCoin, a shop whose purchases run through an order, an inventory
-- and a payment service that exchange messages.
--
-- Base: shared helpers. Base.Tests, Base.Lists, Base.Int and Base.Text hold Boolean tests, tables
--   as lists, 64-bit integers as integers with the wrap-around of Go written out, and texts.
--   Base.Store is a database: a program (`M`) maps a store and a list of faults to a result and a
--   store, a fault makes the next statement fail, and a transaction that returns an error leaves
--   the store as it was. Base.Store.Laws has a rule for each way to build a program (`Leads`); what
--   is proved by these rules holds whatever statements fail; Base.Store.Keeps has rules for what is
--   kept throughout, and Base.Store.Rules rules for lookups and for what a failed transaction says.
--   Base.Rows holds the lemmas on tables whose rows have ids. Base.Rpc holds the answers of a
--   handler.
-- Flow: pkg/orderflow/events.go. encoding/json is the parameter `Codec`, with the law that what
--   is encoded is decoded as a hypothesis where a theorem uses it.
-- Order: services/order-api/internal. Order.Model is model/order.go, Order.Repository is
--   repository/order.go, Order.Server is grpcserver/server.go, Order.Consumer is the handler in
--   eventconsumer/consumer.go, Order.Outbox is outbox/publisher.go. Order.Lifecycle,
--   Order.Delivery, Order.Creation, Order.Checks, Order.Invariant and Order.Outbox.Delivered hold
--   the theorems, Order.Tests runs on small tables.
-- Payment: services/payment-api/internal. Payment.Model is model/*.go, Payment.Chain is
--   pointchain/pointchain.go, Payment.Points is repository/point_repository.go. Payment.Chain.Laws
--   and Payment.Chain.Hex, and Payment.Points.Audit, Posting, Growth, Opening, Adjust and
--   Completion hold the theorems. Payment.Rows is repository/payment_repository.go and the
--   statements of its neighbours that the use case needs. Payment.Command, Payment.PointPayment and
--   Payment.Events are application/payment_usecase.go: the checks, createPoint and
--   HandleProviderEvent. Payment.Paid, Payment.Once, Payment.Once.Mark, Kept and Delivery hold the
--   theorems. Payment.Calls and Payment.Provider are paymentmethod/stripe.go. Payment.External,
--   Payment.Reversal, Payment.Create and Payment.Reconcile are the rest of payment_usecase.go:
--   createStripe; CancelExternal and RefundExternal; Create, with the handler of
--   eventconsumer/consumer.go; and ReconcileProcessing. Payment.Server, Payment.Refunds and
--   Payment.Direct are grpcserver/payment_server.go, Direct for a server without a use case, and
--   Payment.PointServer is grpcserver/point_server.go. Payment.Publisher is outbox/publisher.go and
--   Payment.Webhook is webhook/handler.go. Payment.Points.Ledgered, Points.Keeps, External.Kept,
--   Create.Replay, Create.Backed, Reconcile.Settled, Reconcile.Unpaid, Server.Cancel, Refunds.Within,
--   Refunds.Bounded, Refunds.Completion, Publisher.Progress and Webhook.Authentic hold theorems;
--   Payment.Tests, Payment.Trials and Payment.Samples run on small tables.
-- Inventory: services/inventory-api/internal. Inventory.Model is model/inventory.go,
--   Inventory.Repository is repository/inventory.go, Inventory.Server is grpcserver/server.go and
--   Inventory.Consumer is the handler in eventconsumer/consumer.go. Inventory.Stock, Adjustment and
--   Reservation hold the theorems, Inventory.Tests runs on small tables.
-- Media: services/media-api/internal, the stock of products. Media.Model is
--   model/product_inventory.go and model/product_inventory_transaction.go, Media.Repository is
--   repository/product_inventory_repository.go and Media.Server is
--   grpcserver/product_inventory_server.go; Media.Covered and Media.Adjustment hold the
--   theorems, Media.Tests an example.
-- Media.Catalog: the other tables of services/media-api/internal. Media.Catalog.Model is
--   model/*.go, Media.Catalog.Storage is storage/blob.go, Media.Catalog.Repository is the
--   repositories of products, details and assets, Media.Catalog.Products and Media.Catalog.Uploads
--   are grpcserver/product_server.go, Media.Catalog.Assets is grpcserver/product_asset_server.go
--   and Media.Catalog.Users is the repository and the server of users. A request to the storage
--   fails like a statement; net/url and the signatures of the Azure SDK are parameters.
--   Uploads.Within, Uploads.Addresses, Uploads.Guarded, Uploads.Isolated and Users.Deleted hold the
--   theorems, by the lemmas on texts in Base.Text.Decimal; Media.Catalog.Tests has examples.
-- Bff: services/bff/internal. Bff.Errors is apperr/apperr.go, Bff.Backend the rows, the requests
--   and the calls of other services, Bff.Repository is repository/order_repository.go, Bff.Orders
--   is httpapi/order_handler.go, Bff.Gateway is httpapi/order_gateway_handler.go, Bff.Points is
--   httpapi/point_handler.go, Bff.Handlers, Bff.Catalog and Bff.Assets are
--   httpapi/catalog_handler.go and Bff.Auth is httpapi/middleware.go. The other services are
--   parameters that answer a call given the calls before it; the store keeps the calls made.
--   Orders.Booked, Orders.Placed, Orders.Completion, Gateway.Accepted and Assets.Entitled hold the
--   theorems, Bff.Tests has examples. Bff.Shop puts the handler of Media.Server behind the gateway's calls
--   for the stock; Shop.Taken and Shop.Retried hold the theorems, Shop.Tests the examples.
-- Migrate: pkg/dbmigrate/dbmigrate.go and the lock of pkg/migrate/migrate.go. Migrate.Files is
--   Load, Migrate.Runner is Run; Migrate.Versions, Progress and Modified hold the theorems,
--   Migrate.Tests runs over two files. What the SQL of a file does is a parameter.
-- Retry: pkg/consumerretry/retry.go, the delays and the attempts at a message; Retry.Bounds holds
--   the theorems. The loop of `Do` is a recursion on the attempts that are left.
--
-- A client creates an order (CreateOrder); its event is written to an outbox in the same
-- transaction. The inventory and the payment service answer by messages, which the consumer of the
-- order service applies. The payment service keeps points in accounts with a hash-chained ledger,
-- and learns from its provider by webhooks what became of a payment by card. The provider is a
-- parameter that answers a request given the requests before it; a store keeps the requests sent
-- and the messages that the broker has acknowledged.
--
-- Statuses are data types with one constructor for each text that the code writes or tests; the
-- column of an order's status holds 20 characters, so one text is refused. Ids and sequence numbers
-- are natural numbers; chain sequences and amounts wrap at 64 bits. crypto/sha256
-- is a parameter whose digests have 32 bytes. Loops over rows are recursions on the list, and no
-- other fuel is used. A row lock makes the transactions on one row run one after the other, so a
-- transaction is run as a whole.
--
-- Not modelled: columns of time and soft deletion where no code tests it, process entry points,
-- configuration, logging, metrics other than the results of orders, generated gRPC code, the poll
-- loops of the consumers and of the publishers, the categories, details and listings of media-api,
-- the router and the gRPC clients of services/bff, pkg/retry, pkg/dbretry and pkg/requestid, the
-- web client (apps) and platform.
pub mod Base
pub mod Flow
pub mod Order
pub mod Payment
pub mod Inventory
pub mod Media
pub mod Migrate
pub mod Retry
pub mod Bff
