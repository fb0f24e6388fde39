-- ===== src/Lib.antt =====
-- A model of the MinIO operator extension (internal/operator, pkg/api): a Kubernetes operator that
-- keeps buckets, groups, users, policies, bindings and access keys of MinIO tenants as its custom
-- resources say. Seven reconcilers, one for each kind, are called by controller-runtime with the
-- name of a resource. Each reads the resource, finds its tenant, asks MinIO, makes the calls that
-- bring MinIO to the resource's spec, and notes in `status.currentSpec` what it created.
--
-- The parts:
-- Base: shared names, equality tests, lists, texts and their bytes, decimal printing.
-- Api: the records of pkg/api/bfiola.dev/v1 (common.go, miniogroup.go, and so on; one record for
--   each type, one field for each field that is read or written) and, in Api/Foreign, of the objects
--   of other packages the fields that the program uses.
-- Client: Errors is Go's `error` and the tests isMinioErrorCode to ignoreMadminErrorCode of
--   internal/operator/operator.go; Calls has one constructor for each call that changes something;
--   Services is the parameter `Env`; Monad is the early return with a log of the calls.
-- Tenant: internal/operator/minio_tenant_client_info.go (getMinioTenantClientInfo, GetClient,
--   GetAdminClient). Endpoint and Pool say what a client is built from and what it trusts.
-- Reconciler: convertViaXML and nilToEmpty of internal/operator/operator.go, and the branches that
--   every `Reconcile` takes behind `r.Get`.
-- Resource: the writes that the reconcilers do alike (finalizer, `migrate`, status), over a record
--   `Kind` of what differs. Resource/Laws says what is relied on of the API server.
-- Lifecycle: the specification, a machine over three bits of a resource (marked for deletion, has
--   the finalizer, has a status) whose moves are the writes that may follow one another, and that
--   says when something may be made for a resource or removed from MinIO.
-- Group, GroupBinding, User, Policy, PolicyBinding, Bucket, AccessKey: one module for each
--   minio_*_reconciler.go of internal/operator. `reconcile` is `Reconcile`; one function for each of
--   its branches. Policy/Hash is getHash. AccessKey/Actions has updateAccessKey, createAccessKey
--   and deleteAccessKey, and in Actions/Secrets createCredentialsSecret and updateCredentialsSecret;
--   AccessKey/Credentials has getDesiredCredentials and the hash of credentials; AccessKey/Random has
--   createRandomString.
--   In each, Trail relates the reconciler to Lifecycle; the other modules say what its operations
--   do and leave alone.
-- Operator: the program around the reconcilers. Startup has NewOperator of
--   internal/operator and Register the `register` functions of its reconcilers; Startup also has
--   addKnownTypes of pkg/api/bfiola.dev/v1/common.go; Cli has
--   cmd/operator/operator.go, internal/operator/main.go and internal/embed.go. Controllers has the
--   seven reconcilers as one, History the states that a stored resource goes through, Convergence
--   the successful reconciliations in a row, Creation and Removal what creations and deletions do.
-- Tests: runs at concrete inputs.
--
-- What is outside the repository is the record `Env W` of Client/Services, an argument of every
-- definition that uses it: the API server's calls, those of madmin and minio-go, codecs and hashes,
-- over a state `W` that every call may change in any way. So a theorem holds whatever these answer
-- and whatever happens between two calls, unless it names a hypothesis. The hypotheses are:
-- `Finalizers` (controllerutil), `Echoes` (an accepted update answers with what was sent, at
-- another resource version), `KeepsData` (the data of a secret), and single answers of MinIO. What
-- the start of the program calls is the record `Host` of Operator/Host, over a state of its own,
-- and the record `Process` of Operator/Cli. A run keeps the calls that change
-- something, each with its error, newest first; a panic of the program's own code is an error apart
-- (nil_dereference, out_of_range), which ends the run past every handler. Pointers that `Update` fills in are the value that it answers with.
--
-- No part needs fuel except the printing of a port, whose ten digits hold every 32-bit number.
-- Lengths that are hashed are cut to 32 bits as in the source. Strings are sequences of code points;
-- their bytes are UTF-8.
--
-- A reconciliation that fails at a write of its resource ends there; so where one is cut short in
-- Operator/History, its newest calls are missing, and all before them are stored. Users who take a
-- finalizer or a status away by hand are left out there.
--
-- Not modelled: logging (but for the level that is configured), contexts and cancellation, the queue
-- and the retries of controller-runtime, the generated deep copies, the tests of internal/e2e,
-- charts and build files.
pub mod Base
pub mod Api
pub mod Client
pub mod Tenant
pub mod Reconciler
pub mod Lifecycle
pub mod Resource
pub mod Group
pub mod GroupBinding
pub mod User
pub mod Policy
pub mod PolicyBinding
pub mod AccessKey
pub mod Bucket
pub mod Operator
pub mod Tests
