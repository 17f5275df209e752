-- ===== src/Lib.antt =====
-- A model of YgLicenseServer: a server that issues license keys for products, answers the
-- heartbeats of installations with signed tokens, and tells customers by webhooks what happens to
-- their licenses.
--
-- The parts, and how they meet. Session has the database session of app/db.py and the monad that
-- all services run in; Model has the tables of app/models.py; Runtime is a record of what the
-- program calls and does not implement (clock, random tokens, hashes, Fernet, the URL parser,
-- DNS, HTTP, JSON, the JWT and Stripe libraries) with the settings of app/config.py. Security,
-- LicenseKeys and Keystore are the helpers of the files of those names in app/. Webhooks is
-- app/webhooks.py: sending in Webhooks/Send, the retry queue in Webhooks/Queue, the worker of
-- app/scripts/retry_webhooks.py in Webhooks/Retry. Licenses is app/services/licenses.py: it
-- writes license rows and events, puts deliveries into the queue in the same transaction, and
-- attempts them behind the commit. Check is app/services/check.py with app/signing.py. Stripe is
-- app/stripe_webhook.py. AdminLicenses is app/routers/admin_ui/licenses.py, and its Requests put
-- these handlers and the check into sequences. Products, Customers and Presets are the services of
-- those names in app/services/, AdminCatalog their form handlers in app/routers/admin_ui/, and Api
-- the JSON routes of app/routers/api.py. Pagination is app/pagination.py. Mfa is
-- app/services/mfa.py, with the state machine that it refines in Mfa/Machine; Login is
-- app/routers/admin_ui/auth.py with the cookies of _deps.py and the handlers of mfa.py beside it.
-- Rewrap is app/scripts/rewrap_secrets.py, and Maintenance the scripts prune_events.py and
-- send_expiry_warnings.py. Base and Text have the list, table and text functions that these
-- share; Tests has examples.
--
-- How state corresponds. A table is a list of rows, a query a search in it. A session holds the
-- committed tables, those that the open transaction sees, and the events that are added and not
-- yet flushed (the sessions have autoflush off). A function that raises ends in an error and
-- leaves the session as it is at that point; the end of a request drops what is not committed.
-- Attributes set on a row object are written by save_license. A text is a list of code points, a
-- datetime a number of microseconds, a row id a number from a counter: the code draws uuid4
-- texts, which are taken never to repeat. A dictionary that a call site builds as a payload is a
-- constructor with its values.
--
-- Bounds and fuel. No function needs fuel: every loop runs over a list. The schedule of the retry
-- queue has six waits, so seven attempts end a delivery. Numbers are unbounded; max_users and
-- valid_days are taken to be at least zero.
--
-- Not modelled. The clock stands still during one operation. Threads and processes: operations
-- run one at a time, except that the Stripe endpoint's lost race is an input. Foreign keys, which
-- SQLite does not enforce, logging, the text of a decode error, and payload_extra of
-- configure_webhook are left out. A handler of AdminLicenses and AdminCatalog takes what the login
-- and CSRF guards found as an input. So are left out: test_webhook, the pages that only render,
-- list_customers_with_product_slugs, the listings of presets, deliveries and events, the rate
-- limits, the templates, backups and exports (files, archives and S3), migrations and deployment.
pub mod Base
pub mod Text
pub mod Model
pub mod Runtime
pub mod Session
pub mod Security
pub mod LicenseKeys
pub mod Keystore
pub mod Webhooks
pub mod Licenses
pub mod Check
pub mod Stripe
pub mod AdminLicenses
pub mod Pagination
pub mod Mfa
pub mod Login
pub mod Rewrap
pub mod Products
pub mod Customers
pub mod Presets
pub mod Maintenance
pub mod Api
pub mod AdminCatalog
pub mod Tests
