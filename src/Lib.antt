-- ===== src/Lib.antt =====
-- The request path and the disk cache's upkeep of tiny-s3-proxy: a caching proxy in front of an S3
-- backend, which classifies a request, decodes aws-chunked uploads into spool files, retries calls of
-- the backend, lets one request fetch an object that several have missed in the cache, and evicts what
-- was used least recently.
--
-- How the parts interact: `S3.Parse` (src/s3/parse.rs) turns an HTTP request into an operation of
-- `S3.Ops` (src/s3/ops.rs) with the headers to forward. For a write, `Handlers.Modifiers`
-- (src/handlers/modifiers.rs) chooses the route of the body: typed, through the decoder, or raw. The
-- route through the decoder is `Handlers.AwsChunked` (src/handlers/aws_chunked.rs), which reads the
-- decoder's mode from the headers and its policy from what the verification of the request has left,
-- `Auth.Verified` (src/auth/verified.rs), and answers errors with those of `S3.Errors`
-- (src/s3/errors.rs). The decoder is `S3.AwsChunked` (src/s3/aws_chunked.rs); it verifies chunks with
-- the contexts of `Auth.SigV4.Streaming` and `Auth.SigV4a` (src/auth/sigv4/streaming.rs,
-- src/auth/sigv4a/streaming.rs, src/auth/sigv4a/crypto.rs) and checksums of `S3.Checksum`
-- (src/s3/checksum.rs). Calls of the backend go through `Backend.Retry` (src/backend/retry.rs) with
-- errors of `Error` (src/error.rs). The cache parts are `Cache.Key`, `Cache.Policy`,
-- `Cache.SingleFlight` (src/cache/key.rs, policy.rs, singleflight.rs), the walk over the cache
-- directory in `Cache.Layout` and its bounded parallel scan in `Cache.Scan` (layout.rs, scan.rs), the
-- metadata files in `Cache.Metadata` (metadata.rs), and the eviction that uses these in
-- `Cache.Eviction` (eviction.rs). `Backend.Models` has the read options of src/backend/models.rs.
--
-- State and operations:
--   Texts and byte strings are lists of bytes (`Text`); `Text` and `Text.Numbers` define the
--     operations of Rust's core library that the code calls. `Dict` is an association list for HashMap.
--   `AwsChunkedDecoder` has the fields of the source. The inbound body is a list of batches, as
--     `fill_buf` may give them, that ends in the end of the file or an I/O error (`Inbound`). A hasher
--     is the bytes it has been given, and the writer those it has taken. `decode_loop` is the loop of
--     `decode_to_writer` on fuel; the fuel is the length of the body and one, and a round takes at
--     least one byte.
--   `handle_put_decode_aws_chunked` and `handle_upload_part_decode_aws_chunked` go from the request to
--     the answer of the backend, a function of its input. What the two do alike is `decoded_upload`.
--     The spool file's path, what its creation and flush answer, and its writer are the record
--     `UploadSpool`. None stands for a panic of the decoding; the handlers are modelled up to the
--     answer of the backend, without the response they build, whose `unwrap` fails on a bad header.
--   `with_retry` takes the call as a function of the attempt, and returns the result with the
--     durations slept; its `rounds` are the attempts of the `for` loop.
--   `SingleFlight` is the registry with the next generation. `Steps.World` adds the live leaders and
--     the clean-up tasks that drops have spawned; `step` is one operation under the lock. A completion
--     or drop with `busy` finds the lock taken by someone else when the handle is dropped.
--   The walk, the scan and the eviction pass a world along: a call of the file system (`FileSystem W`,
--     a parameter) gives an answer and the world after it. `IsLawful` says that nobody else writes to
--     the files and that a call may fail at any time; `Cache.FileSystem.Memory` is an instance.
--     `pump_loop` runs the tasks of a scan by a schedule that says which of those alive ends next; its
--     fuel is the number of paths, and each round ends one task. The byte sums of files that exist are
--     exact, as they stay below 2^64; the subtractions from the budget saturate as in the source.
--
-- Parameters: the cryptographic crates (`Auth.Crypto`), the `http` and `percent-encoding` crates
-- (`Http.HttpCrates`), and the file system (`Cache.FileSystem`) are records that definitions take.
--
-- Numbers are natural; what is u64 in the source and can overflow there is written with its bound
-- (saturating sums, `% 2 ^ 64`). An expect on a missing value or an unreachable arm is the error
-- `panic`.
--
-- Not modelled: the reads and writes of the disk cache and the sweep of temporary files, the locks
-- taken for each key and the timer of the eviction, metrics and logs, the handlers of reads and of
-- raw uploads, the purge of the cache after an upload and the rendering of responses, the SigV4 and
-- SigV4A verification of whole requests, the XML of requests, configuration and administration.
pub mod Prelude
pub mod Text
pub mod Dict
pub mod Http
pub mod Error
pub mod S3
pub mod Auth
pub mod Backend
pub mod Handlers
pub mod Cache
