-- ===== src/Lib.antt =====
-- OpenS3, an S3-compatible object store. This library is about the decisions that the server
-- takes, who may do what (policies, identities, ACLs) and what happens to objects as time passes
-- (lifecycle rules), about the metadata that it keeps (buckets, versions and uploads in a
-- key-value store), and about the reads, writes, uploads, updates and deletions of objects.
--
-- The parts and how they interact. A request reaches `Decide` (internal/iam/authz.go), which
-- evaluates the bucket policy, the policies of the identity and its session policies with the
-- policy engine (internal/policy/policy.go), and asks the ACLs last. The lifecycle worker shows
-- each version of an object to `Eval` (internal/lifecycle/eval.go), with a configuration that
-- `Validate` (internal/lifecycle/config.go) has accepted. Buckets and versions are records in a
-- transaction of the key-value store (internal/kv), under keys that sort the versions of an
-- object newest first (internal/meta/keys.go, internal/meta/store.go).
--
-- Prelude: library names and shared helpers. A Go string is a list of byte codes (Prelude/Text),
--   a Go map an association list (Prelude/Assoc), an int or int64 that is only compared an
--   integer (Prelude/Int), and a check that returns an error an Option of the error
--   (Prelude/Checks).
-- Policy/Document, Policy/Std: `Document`, `Statement`, `Principal`, `Args`, and the parts of the
--   Go library that policies use, which are a parameter of all that follows.
-- Policy/Glob: `Match`, as the loop over what is left of pattern and text. Policy/Vars:
--   `SubstituteVars`. Policy/Operators: `splitOperator`. Policy/Condition: `evalCondition`,
--   `matchOne`.
-- Policy/Evaluate: `Document.Evaluate`. Policy/Bucket: `ValidateBucketPolicy`, `IsPublic`,
--   `ResourceARN`.
-- Iam/Types: identities and requests with the fields that authorisation reads; secrets,
--   passwords, dates and display names are left out. Iam/Acl: `aclAllows`. Iam/Decide: `Decide`,
--   `Authorize`.
-- Lifecycle/Config: the document. Lifecycle/Time: `expiresAt` in nanoseconds with the wrap-around
--   of an int64, `parseDate`. Lifecycle/Eval: `Eval`, `AbortAfter`. Lifecycle/Filters,
--   Lifecycle/Validate: `Validate`.
-- Kv: the transactions of internal/kv/kv.go, as an interface of operations and laws that Meta
--   takes as a parameter, and `PrefixSuccessor`. Kv/Bounds, Kv/Lex and Kv/Reads: the order of
--   keys.
-- Meta/Hex, Meta/Keys: the keys of records, version IDs and the sequencer. Meta/Types: the
--   records, less four maps of XML texts. Meta/Store: buckets, `GetVersion`, `PutObject`,
--   `DeleteVersion`, `PutUpload`, `GetUpload`. Meta/Latest: `GetLatest`, `BucketHasObjects`.
-- Meta/Scan: the loops over the iterator of a transaction, with `Seek` and `Next`, and their
--   invariant rule.
-- Meta/Listing: `ListObjects`, `ListVersions`, `hasLiveKey`, `afterKey`. Meta/Collect:
--   `ListBuckets` and the scans of a bucket. Meta/Uploads: `PartKey`, `PutPart`, `ListParts`,
--   `DeleteUpload`, `ListUploads`.
-- Service/Lock: object lock, ETag lists, valid keys. Service/Delete: `DeleteObject`
--   (internal/object), as a transaction that is given the clock, the next sequence number and
--   random digits.
-- Service/Conditions: `checkReadConditions`, `checkWriteConditions`, `versionIDFor`.
--   Service/Update: `updateVersion` and what uses it (internal/object/tagging.go),
--   `ValidateTags`. Service/Put: `PutObject`, with the encrypted, written and hashed body as an
--   argument. Service/Assemble: `assemble`, with the hashes as a parameter. Service/Uploads:
--   `CreateUpload`, `UploadPart`, `CompleteUpload`, `AbortUpload`, `ListParts`.
-- Service/Get, Service/Get/Reader: `StatObject`, `GetObject` with its ranges, and the reader that
--   puts the parts of an object together; what a blob store and a reader do is a hypothesis there
--   (`Opens`). Service/Sound, Service/Held: what such a store holds. Service/Runs: sequences of
--   these calls, each a transaction.
-- Tests: runs at concrete inputs, with letter case over ASCII and whole numbers for the Go
--   library, and a key-value store in memory (Tests/Engine) with a codec of the records
--   (Tests/Wire, Tests/Records and one file for each record type).
--
-- Bounds and fuel. Sequence numbers are below 2^64. The loop of `Match` has fuel (|text| + 1) *
-- (|pattern| + 2): each byte of the text is left at most once for good, and between two such
-- steps only the pattern is walked; that it never runs out is shown in Policy/Glob/Fuel.
-- `SubstituteVars` has fuel |s| + 1, since each round removes at least `${}`. A scan of the store
-- has fuel for one round more than the store has keys: each round goes to a later key, so it ends
-- before. The reader of an object has two rounds for each byte and one for the end: a round that
-- finds a part at its end follows one that gave a byte. All other loops go over a list.
--
-- Not modelled: JSON and XML (the codec of the records is a parameter), bbolt and its errors, the
-- rest of the object service (buckets, copies), signatures and encryption, notifications, the
-- HTTP handlers and the command line. Go maps are iterated in any order, which here is the order
-- of a list. A map has one entry for each key, which an association list that holds a key twice
-- does not; the first entry is read then.
pub mod Prelude
pub mod Kv
pub mod Meta
pub mod Service
pub mod Policy
pub mod Iam
pub mod Lifecycle
pub mod Tests
