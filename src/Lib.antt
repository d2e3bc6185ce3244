-- ===== src/Lib.antt =====
-- Abrolia: a verification library beside the code of the family operations assistant.
--
-- The program has three parts. The household runtime (hermes_cloud) keeps one SQLite database for a
-- household: incoming events, staged approvals, a journal of effects, commitments, memory and
-- reminders. The control plane (control_plane) keeps accounts, onboarding and a queue of provisioning
-- jobs. The gateway (gateway) takes WhatsApp messages and hands them to the household they belong to.
-- The library models the stores, which hold the program's own rules; the HTTP, provider and
-- model code calls them.
--
-- Which file models which part:
--   Common and its children: tests, lists, SQL statements on a table as the list of its rows
--     (Common/Table), their laws (Common/Rows, Common/Keys, Common/First,
--     Common/Deletes, Common/Selecting), and database actions with exceptions and rollback (Common/Actions: `write` is
--     Database.write of hermes_cloud/core/db.py).
--   Runtime/Schema: the rows of the tables in hermes_cloud/core/migrations and the exceptions.
--   Runtime/Effects: hermes_cloud/core/effects.py, the effect journal.
--   Runtime/Approvals: hermes_cloud/core/approvals.py, codes (Code) and the store (Store), with
--     the claim on every branch (Claim), what a claim has checked (Once), refusals (Limits), the
--     stores together (Changes, Invariant) and the lock after wrong codes (Guessing).
--   Runtime/Events: hermes_cloud/core/events.py, durable ingress with leases.
--   Runtime/Commitments: hermes_cloud/core/commitments.py, facts and their versions.
--   Runtime/Memory: hermes_cloud/core/memory.py, statements and their replacement (Remembering).
--   Runtime/Reminders: hermes_cloud/execute/reminder.py, what is taken (Delivery) and who
--     holds it (Holding).
--   Runtime/RunContext: hermes_cloud/core/runcontext.py, what a turn may do (Rights).
--   ControlPlane/Schema: the rows of the tables in control_plane/migrations and the exceptions.
--   ControlPlane/Jobs: control_plane/repositories/jobs.py, what a lease takes (Queue), who holds a job
--     (Holding) and answers (Results).
--   ControlPlane/Auth: control_plane/repositories/auth.py and control_plane/auth/sessions.py.
--   ControlPlane/Routing: control_plane/bindings_resolution.py.
--   ControlPlane/RateLimit: control_plane/auth/rate_limit.py.
--   Runtime/Email: hermes_cloud/execute/email_send.py (Letter, Sender) over hermes_cloud/email/receipts.py
--     (Receipts), with sends that the end of the process cuts off, and that nothing is posted twice
--     (Outcomes, Once).
--   Gateway: gateway/whatsapp_router.py, the store of held messages (Store), the webhook (Router,
--     Router/Webhook) and the worker that hands held messages over (Worker, with Sending, Retention and, for a whole
--     pass, Batch).
--   Runtime/Webhook: the signature of hermes_cloud/ingest/whatsapp_webhook.py, and that it agrees with
--     the gateway's (Relay).
--   ControlPlane/Consent: control_plane/privacy/consent.py and the check of consent in
--     control_plane/provisioning/bootstrap.py, with what a passed check means (Boundary).
--   ControlPlane/Rows, Configs: the rows of the setup and control_plane/repositories/configs.py, the
--     revisions of a household's configuration and the tokens with which a runtime claims them.
--   ControlPlane/Bootstrap: control_plane/provisioning/bootstrap.py, the claim of a revision, its
--     activation (Checks, Activation), the consents behind it (Consenting) and the answer to a repeated
--     activation (Replay).
--   ControlPlane/Withdrawal: control_plane/privacy/withdraw.py with the scopes of
--     control_plane/privacy/consent.py; the disconnection of resources is a parameter.
--   ControlPlane/Revisions: the life of a revision over these three files: the change of the table that
--     each method makes (Methods, Activating, Withdrawing), the abstract machine (Lifecycle) and the
--     sequences of calls (Runs).
--   Tests folders: the theorems at concrete inputs, and runs of the code.
--
-- Conventions. A method of a store is a function of its arguments and the database that returns its
-- result or exception with the new database. `new_id()` and `secrets` come in as arguments named
-- `fresh` and `code`; the clock's value is the argument `now`. Times are numbers of seconds, since the
-- code only compares them and adds to them. Identifiers and texts that the code only stores and
-- compares are numbers; texts that it walks are lists of code points. A table is the list of its rows
-- in the order of insertion; an ORDER BY keeps that order among ties. Primary keys, unique indexes and
-- foreign keys that an INSERT or UPDATE meets raise `integrity`, as SQLite does.
--
-- Fuel. `chain` of Runtime/Commitments takes one step of fuel more than there are rows, and a theorem
-- says that this is enough. All other loops are recursions on lists.
--
-- Not modelled: network, model and provider calls, files and backups, HTTP handlers, MIME parsing,
-- cryptography (digests and encryption are parameters), the chain of versions of memory, which is the
-- code of Runtime/Commitments again, a magic link's encrypted email, the intake of email and
-- attachments, the provisioning worker and the onboarding commands, which revoke revisions too. Of the
-- exceptions inside the gateway's worker, those of the check of a signature and of a delivery are
-- modelled; the store and the resolver of bindings raise none there.
pub mod Common
pub mod ControlPlane
pub mod Gateway
pub mod Runtime
