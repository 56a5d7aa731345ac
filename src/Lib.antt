-- ===== src/Lib.antt =====
-- RetailOps: an order's checkout over microservices. A client talks to api-gateway, which keeps
-- the responses of repeated mutations; workflow-service takes a checkout as a run in its table and
-- a command on a Redis stream; its worker handles one command after another, calls the catalog,
-- order, payment, document and notification services over HTTP, and sends the next command;
-- order-service keeps each order's life cycle, and payment-service the payments.
--
-- Base holds what the parts share: calls that change a state and may raise (Base/Exec, `ok` or
-- `err` beside the state, which stays as written when a call raises), tables as lists of rows with
-- the queries of the repositories (Base/Rows, Base/Sort), and Python's integers with the 32-bit
-- columns (Base/Int). Http holds the status codes that FastAPI answers with.
--
-- Order models services/order-service/src/order_service. Order/Status is ALLOWED_ORDER_TRANSITIONS
-- and the texts of the statuses, Order/Types the dataclasses and tables, Order/Repository the
-- methods of OrderRepository under their names, Order/Service the endpoints of main.py with the
-- validation of schemas.py. Order/Trail says what a history is, Order/Invariant what the tables
-- keep, Order/Reach goes over all sequences of requests, and Order/Laws says what each call does.
-- A `Stamp` holds what a call reads of the clock and of uuid4.
--
-- Payment models services/payment-service/src/payment_service: Payment/Provider the local
-- provider, Payment/Repository the table, Payment/Service the endpoints, Payment/Laws what they
-- do.
--
-- Workflow models services/workflow-service/src/workflow_service and the contracts of
-- packages/shared/src/mwp_common/workflow_contracts.py. Workflow/External is what the service uses
-- and does not implement: the clock, uuid4, the HTTP client, Redis and PostgreSQL's check of a
-- UUID, as functions on a state of their own, with `AcceptsAll` for a Redis that is up; an error
-- of XADD may come before or after the entry is appended. Workflow/System is the state: the two
-- tables, what was sent and acknowledged, and the outside. Workflow/Repository has the methods of
-- WorkflowRepository, Workflow/Service the endpoints of main.py, and Workflow/Worker the methods
-- of WorkflowProcessor: Worker/Calls its helpers, Worker/Checkout, Worker/Payment and
-- Worker/Delivery the handlers, and Worker/Process the dispatch, the handling of one message with
-- its `except` and its `finally`, and the loop. The proofs follow the do blocks: Worker/Keeps and
-- Worker/Ends are the rules for what an action keeps and for what holds when it returns,
-- Worker/Frame, Worker/Touches and Worker/Isolation are about the table of runs, Worker/Books,
-- Worker/HandlerBooks, Worker/Bookkeeping and Worker/Recorded about the records and
-- acknowledgements, Worker/Failed about the run of a failed command, Worker/Endings and
-- Worker/Outcome about the status after each command. Workflow/Requests, Workflow/Starts and
-- Workflow/PaymentRequests are about the endpoints. Workflow/Upstream is the HTTP client of
-- upstream.py over httpx and the configuration of config.py, and Upstream/BaseUrls is about its
-- URLs; the worker stands on the abstract client of Workflow/External.
--
-- Gateway models services/api-gateway/src/api_gateway. Gateway/Idempotency is idempotency.py over
-- any handler, any JSON values and any hash; Idempotency/Table, Replay and Race are about its
-- table, about repeated requests, and about two requests at once. Gateway/Upstream is upstream.py
-- and responses.py over a network that is a function on a state of its own, with the calls that
-- were sent; the operations on JSON values are a record of parameters. Gateway/Config is config.py
-- with the base URLs. Gateway/Access is security.py, ownership.py and workflow_commands.py,
-- Gateway/Routes the routes of auth.py and catalog.py and the common part of the protected ones,
-- Routes/Orders and Routes/Documents the other routes. Gateway/Steps, Owned and Follow are rules
-- that follow a handler step by step, which Gateway/Admission, DocumentOutcome, DownloadOutcome
-- and Repeated use for whole handlers.
--
-- Redis models packages/shared/src/mwp_common/redis_streams.py: Redis/Reader the bytes that are
-- written and read, with Reader/Ends and Reader/RoundTrip about them, Redis/Messages what is made
-- of an answer, Redis/Client the connection and the commands, and Client/Sessions what goes over a
-- connection. UTF-8 and Python's decimal numbers are Base/Utf8 and Base/Decimal. Python's texts
-- and the environment are Base/Text and Base/Environment. Workflow does not use Redis: its worker
-- stands on the abstract client of Workflow/External.
--
-- Auth models services/auth-service/src/auth_service: Auth/Security is security.py over a record
-- of parameters for hashes and tokens, Auth/Users the table, Auth/Schemas the validators of
-- schemas.py, Auth/Service the endpoints, with Service/Unique about the table and Service/Sessions
-- from a registration to /auth/me. Notification, Document and Catalog model the services of those
-- names, under services/notification-service, services/document-service and
-- services/catalog-service, each in one file with the proofs below it. Order/Refinement relates
-- the tables of order-service to the life cycles that they stand for.
--
-- The loop of the worker runs for a number of rounds, which stands for the time until it is
-- stopped; no theorem depends on the number. The reader of Redis responses takes one unit of fuel
-- for each level of nesting; one more than the bytes of the stream is always enough, and the
-- client gives that. The digits of a number are written with the number itself as fuel. All else
-- is structural recursion. The commands of one worker are handled one after another, as in the
-- code; requests to a service are sequences of whole transactions, and Idempotency/Race takes the
-- two transactions of one request apart.
--
-- Not modelled: the widths of the text columns of users, which the schemas keep; spellings of a
-- UUID other than that of uuid4 in the ids of runs; a failure of close in the worker's loop; the
-- cancellation of the worker's task, its sleeps and its logging; asyncio's limit on a line from
-- Redis; digits and white space outside ASCII in Python's int; the configuration of services other
-- than the gateway and workflow-service, and the wiring of their applications; the migrations
-- (their constraints stand in the models of the tables), the scripts and the charts.
pub mod Base
pub mod Http
pub mod Order
pub mod Payment
pub mod Workflow
pub mod Gateway
pub mod Redis
pub mod Auth
pub mod Notification
pub mod Document
pub mod Catalog
