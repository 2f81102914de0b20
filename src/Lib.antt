-- ===== src/Lib.antt =====
-- A library about the server side of a small shop: its orders, carts, accounts and sessions, and the
-- events that its contexts exchange. Every context keeps its own SQLite file; there is no join
-- between files, and one context tells another what happened through events in an outbox.
--
-- Prelude: numbers, tests and lists of rows, with what SELECT, UPDATE, DELETE and ORDER BY do to
-- them (Prelude/Rows, Prelude/Select), and integers over the native numbers (Prelude/Int).
-- Sql: crates/db/src/lib.rs and what the repositories rely on in `sqlx` and SQLite. A file is a
-- record of tables with a list that says in which of the coming accesses the engine fails. The
-- statements of a transaction pass the tables on and stop at the first error; an error, of a
-- statement or of the engine, leaves the committed tables as they were. Constraints that the schema
-- declares (keys, UNIQUE, foreign keys, CHECK) are written in the statements that they guard.
-- Shared: crates/shared/src/lib.rs: the event envelope, pagination, attribute types. The functions
-- of `serde_json` are the parameter Shared/Json, which may refuse a value or a text.
-- Events: crates/db/src/outbox.rs, inbox.rs and relay.rs. The dispatcher is a parameter: any function
-- of the source, the event and a state of its own. Events/Relay/Pass gives the courses of the loop
-- as a step relation, which the theorems on the relay use.
-- Cart: crates/orders/src/cart.rs and cart_repo.rs.
-- Orders: crates/orders/src/order.rs and repository.rs. Orders/Repo has the operations, Orders/Shape
-- and Orders/Keeps the consistency of the tables, Orders/Checkout, Orders/Placed, Orders/Receipt
-- and Orders/RoundTrip the checkout.
-- Product: crates/product/src/product.rs, repository.rs and extras.rs. The deletes that ON DELETE
-- CASCADE makes are part of the delete of a product. Product/Repo and Product/Extras have the
-- operations; Product/Calls makes one type of the calls that write.
-- Catalog: crates/catalog/src. Catalog/Projection is the consumer of the product events,
-- Catalog/Search the conditions of a search with the words of its text in Search/Terms and the
-- operations in Search/Adapter, Catalog/Taxonomy the categories, attributes, options and filters.
-- Catalog/Mirror relates the projection to the tables of the product context.
-- Web: crates/web/src. Web/Cookie is cart_cookie.rs, Web/Checkout the form and the answers of
-- routes/checkout.rs, Web/Checkout/Routes its handlers, which use the carts, the orders and the
-- catalog, each by a connection of its own, Web/Basket the handlers of routes/cart.rs. Web/Texts has
-- the texts of jsonld.rs and the escapes, Web/Pages the addresses, the crumbs and the pages of
-- routes/home.rs, robots.rs and product.rs, Web/Category routes/category.rs with the
-- filters in Category/Filters, Web/Sitemap routes/sitemap.rs. A page is given by what it shows.
-- Identity: crates/identity/src. Identity/Accounts and Identity/Sessions have the operations.
--
-- The name of an operation is the name of the Rust function; uuids, random tokens and the time are
-- arguments, hash functions are parameters. Loops are recursion on the list that the source
-- iterates over. The two loops of the sitemap have no such list and run on fuel: one more than the
-- categories for the walk over their tree, and a page for every hundred published products, and one
-- at least, for the products. The digits of a number n take at most n + 1 steps. Rust's `i64`
-- columns are unbounded integers here; the sum of an order's prices is kept in the range of `i64`,
-- outside of which the engine fails. Row ids, counts, offsets and limits are natural numbers.
--
-- In the catalog, FTS5 (MATCH), GROUP_CONCAT, floating-point numbers and the classes of characters
-- are parameters; the SQL text of a search is the list of its conditions. MATCH answers for every
-- text: a text that FTS5 refuses as a query is a failure of the engine here.
--
-- Not modelled: the HTML, the layout and the router of the web layer, the payments port (a trait
-- only), the opening of files with their pragmas and migrations, the sleeps of `run_relay`.
pub mod Prelude
pub mod Sql
pub mod Web
pub mod Shared
pub mod Events
pub mod Cart
pub mod Orders
pub mod Identity
pub mod Product
pub mod Catalog
