-- ===== src/S3/AwsChunked/Inbound.antt =====
-- The buffered reader below the decoder: the inbound body arrives in batches, and each read of
-- the decoder takes from the batch at hand (src/s3/aws_chunked.rs).
pub mod Consumes
pub mod Accepts
use tiny_s3_proxy.Text.{Bytes, is_utf8}
use tiny_s3_proxy.Prelude.{
  Bool, Option, Result, [], drop, err, false, if◌then◌else◌, is_empty, length, ltb, min, none, ok,
  some, suc, take, true, zero, ℕ, ◌&&◌, ◌*◌, ◌++◌, ◌+◌, ◌-◌, ◌==◌, ◌>>=◌, ◌∷◌, ◌>>◌,
}
use tiny_s3_proxy.S3.AwsChunked.Types.{
  AwsChunkedError, malformed_frame, header_without_terminator, header_without_crlf, header_not_utf8,
  expected_crlf, truncated, trailing_data, chunk_header_too_large, inbound_io,
  max_chunk_header_line_bytes, max_trailer_line_bytes, invalid_trailer, missing_trailer, spool_io,
}

-- What `fill_buf` is going to give: a batch holds at least one byte.
pub data Inbound : Type 0 where
  eof : Inbound
  failed : Inbound
  batch : ℕ → Bytes → Inbound → Inbound

-- The body as a whole, and whether its reading ends in an I/O error.
unfoldable pub bytes : Inbound → Bytes
bytes eof = []
bytes failed = []
bytes (batch b bs i) = b ∷ (bs ++ bytes i)

unfoldable pub ends_failed : Inbound → Bool
ends_failed eof = false
ends_failed failed = true
ends_failed (batch b bs i) = ends_failed i

-- What is left after `consume`.
unfoldable pub rest_of_batch : Bytes → Inbound → Inbound
rest_of_batch [] i = i
rest_of_batch (b ∷ bs) i = batch b bs i

abbrev cons_line : ℕ → Option (Bytes × Bytes) → Option (Bytes × Bytes)
cons_line b none = none
cons_line b (some (line, rest)) = some (b ∷ line, rest)

-- The bytes up to the first `\n`, that one included, and the bytes behind it.
unfoldable pub split_line : Bytes → Option (Bytes × Bytes)
split_line [] = none
split_line (b ∷ s) =
    let more = split_line s in if b == b'\n' then some (b ∷ [], s) else cons_line b more

-- The loop that `read_chunk_header_line` and `read_trailer_line` share, with the errors that
-- they raise: the limit, the end of the body before any byte, and the end within a line.
unfoldable pub read_line :
    (limit : ℕ) (too_large at_end no_newline : AwsChunkedError)
    → (buf : Bytes) → Inbound
    → Result AwsChunkedError (Bytes × Inbound)
read_line limit too_large at_end no_newline buf eof =
    if is_empty buf then err at_end else err no_newline
read_line limit too_large at_end no_newline buf failed = err inbound_io
read_line limit too_large at_end no_newline buf (batch b bs i) = elim (split_line (b ∷ bs)) [
  | some (line, rest) ↦
      if ltb limit (length buf + length line)
      then err too_large
      else ok (buf ++ line, rest_of_batch rest i)
  | none ↦ elim (ltb limit (length buf + length (b ∷ bs))) [
    | true ↦ err too_large
    | false ↦ read_line limit too_large at_end no_newline (buf ++ b ∷ bs) i
  ]
]

abbrev cons_some : ℕ → Option Bytes → Option Bytes
cons_some b none = none
cons_some b (some s) = some (b ∷ s)

-- The line before a final `\r\n`.
unfoldable pub strip_crlf : Bytes → Option Bytes
strip_crlf [] = none
strip_crlf (a ∷ []) = none
strip_crlf (a ∷ b ∷ []) = if a == b'\r' && b == b'\n' then some [] else none
strip_crlf (a ∷ b ∷ c ∷ s) = cons_some a (strip_crlf (b ∷ c ∷ s))

-- The line before a final `\n`.
unfoldable pub strip_lf : Bytes → Option Bytes
strip_lf [] = none
strip_lf (a ∷ []) = if a == b'\n' then some [] else none
strip_lf (a ∷ b ∷ s) = cons_some a (strip_lf (b ∷ s))

unfoldable pub check_header_line : Bytes × Inbound → Result AwsChunkedError (Bytes × Inbound)
check_header_line (raw, i) = elim (strip_crlf raw) [
  | none ↦ err (malformed_frame header_without_crlf)
  | some header ↦ if is_utf8 header then ok (header, i) else err (malformed_frame header_not_utf8)
]

unfoldable pub read_chunk_header_line : Inbound → Result AwsChunkedError (Bytes × Inbound)
unfolding read_line check_header_line
read_chunk_header_line i =
    read_line max_chunk_header_line_bytes chunk_header_too_large truncated
      (malformed_frame header_without_terminator) [] i
    >>= check_header_line

-- `\r\n`, or a bare `\n`
unfoldable pub strip_terminator : Bytes → Option Bytes
unfolding strip_crlf strip_lf
strip_terminator raw = elim (strip_crlf raw) [ some line ↦ some line | none ↦ strip_lf raw ]

unfoldable pub check_trailer_line :
    Bytes → Bytes × Inbound → Result AwsChunkedError (Bytes × Inbound)
unfolding strip_terminator
check_trailer_line expected_name (raw, i) = elim (strip_terminator raw) [
  | none ↦ err invalid_trailer
  | some line ↦
      if is_empty line
      then err (missing_trailer expected_name)
      else if is_utf8 line
      then ok (line, i)
      else err invalid_trailer
]

unfoldable pub read_trailer_line : Bytes → Inbound → Result AwsChunkedError (Bytes × Inbound)
unfolding read_line check_trailer_line
read_trailer_line expected_name i =
    read_line max_trailer_line_bytes invalid_trailer (missing_trailer expected_name) invalid_trailer
      [] i
    >>= check_trailer_line expected_name

-- read_exact for one byte
unfoldable pub read_byte : Inbound → Result AwsChunkedError (ℕ × Inbound)
read_byte eof = err truncated
read_byte failed = err inbound_io
read_byte (batch b bs i) = ok (b, rest_of_batch bs i)

unfoldable pub expect_crlf : Inbound → Result AwsChunkedError Inbound
unfolding read_byte
expect_crlf i = do
  (a, i') ← read_byte i
  (b, i'') ← read_byte i'
  if a == b'\r' && b == b'\n' then ok i'' else err (malformed_frame expected_crlf)

unfoldable pub expect_eof : Inbound → Result AwsChunkedError (Unit {0})
expect_eof eof = ok tt
expect_eof failed = err inbound_io
expect_eof (batch b bs i) = err trailing_data

abbrev pub copy_buffer_bytes : ℕ
copy_buffer_bytes = 16 * 1024

-- The loop of `copy_chunk_payload`: each round reads at most a buffer of what remains, and hands
-- it to the writer, which may fail. `taken` is what has been read of this chunk. Every round
-- reads a byte or more, so `remaining` rounds are enough.
module _ (write_all : Bytes → Bytes → Bool) where
  unfoldable pub copy_loop :
      (fuel remaining : ℕ) (written taken : Bytes)
      → Inbound
      → Result AwsChunkedError (Bytes × Inbound)
  copy_loop zero remaining written taken i = ok (taken, i)
  copy_loop (suc fuel) zero written taken i = ok (taken, i)
  copy_loop (suc fuel) (suc r) written taken eof = err truncated
  copy_loop (suc fuel) (suc r) written taken failed = err inbound_io
  copy_loop (suc fuel) (suc r) written taken (batch b bs i) =
      let want = min (suc r) copy_buffer_bytes in
      let got = take want (b ∷ bs) in
      let left = rest_of_batch (drop want (b ∷ bs)) i in
      elim (write_all (written ++ taken) got) [
        | false ↦ err spool_io
        | true ↦ copy_loop fuel (suc r - length got) written (taken ++ got) left
      ]

  unfoldable pub copy_chunk_payload :
      (written : Bytes) (chunk_size : ℕ) → Inbound → Result AwsChunkedError (Bytes × Inbound)
  unfolding copy_loop
  copy_chunk_payload written chunk_size i = copy_loop chunk_size chunk_size written [] i
