-- ===== src/S3/AwsChunked/Inbound/Accepts.antt =====
-- Lines that are read, in whatever batches they arrive (src/s3/aws_chunked.rs).
use tiny_s3_proxy.S3.AwsChunked.Inbound.Consumes.{
  bytes-rest_of_batch, copy_chunk_payload-append, bytes-left,
}
use tiny_s3_proxy.Text.{Bytes, contains_byte, is_utf8}
use tiny_s3_proxy.Prelude.{
  Option-cases, [], ap, arith, false, inl, inr, length, length-append, ltb, none, ok, refl, some,
  sym, ℕ, ◌++◌, ◌+◌, ◌<◌, ◌∙◌, ◌∷◌, ◌≡◌, true, ◌≤◌, Bool, Result-cases, drop, err, min, suc, take,
  zero, ◌-◌, ◌≢◌,
}
use mathlib.Core.List.{append_assoc}
use tiny_s3_proxy.S3.AwsChunked.Inbound.{
  Inbound, eof, failed, batch, bytes, split_line, read_line, rest_of_batch, AwsChunkedError,
  strip_crlf, read_chunk_header_line, check_header_line, max_chunk_header_line_bytes,
  chunk_header_too_large, truncated, malformed_frame, header_without_terminator, copy_loop,
  copy_chunk_payload, copy_buffer_bytes,
}

-- The first line of a text whose first newline is behind `s`.
split_line-first :
    (t u s rest line r : Bytes)
    → t ++ u ≡ s ++ b'\n' ∷ rest
    → contains_byte b'\n' s ≡ false
    → split_line t ≡ some (line, r)
    → (line ≡ s ++ b'\n' ∷ []) × (r ++ u ≡ rest)
unfolding split_line contains_byte
split_line-first [] u s rest line r same free h = cc
split_line-first (b ∷ t) u [] rest line r same free h = ground arith
split_line-first (b ∷ t) u (c ∷ s) rest line r same free h = elim (Option-cases (split_line t)) [
  | inl e ↦ ground arith
  | inr ((l, q), e) ↦ ground (arith, split_line-first t u s rest l q)
]

-- A batch without a newline is part of the line.
split_line-none :
    (t u s rest : Bytes)
    → t ++ u ≡ s ++ b'\n' ∷ rest
    → split_line t ≡ none
    → (more : Bytes) × (s ≡ t ++ more) × (u ≡ more ++ b'\n' ∷ rest)
unfolding split_line
split_line-none [] u s rest same h = (s, refl, same)
split_line-none (b ∷ t) u [] rest same h = ground arith
split_line-none (b ∷ t) u (c ∷ s) rest same h = elim (Option-cases (split_line t)) [
  | inl e ↦
      let heads : b ≡ c = ground arith in
      let tails : t ++ u ≡ s ++ b'\n' ∷ rest = ground arith in
      let (more, left, right) = split_line-none t u s rest tails e in
      (more, cc (heads, left), right)
  | inr ((l, q), e) ↦ ground arith
]

contains_byte-append :
    (c : ℕ) (s t : Bytes) → contains_byte c (s ++ t) ≡ false → contains_byte c t ≡ false
unfolding contains_byte
contains_byte-append c [] t h = h
contains_byte-append c (b ∷ s) t h = contains_byte-append c s t (ground arith)

read_line-accepts :
    (limit : ℕ) (too_large at_end no_newline : AwsChunkedError) (buf : Bytes) (i : Inbound)
    (s rest : Bytes)
    → bytes i ≡ s ++ b'\n' ∷ rest
    → contains_byte b'\n' s ≡ false
    → length buf + length s < limit
    → (i' : Inbound) × (read_line limit too_large at_end no_newline buf i
        ≡ ok (buf ++ (s ++ b'\n' ∷ []), i'))
      × (bytes i' ≡ rest)
unfolding read_line bytes
read_line-accepts limit a b c buf eof [] rest same free short = cc
read_line-accepts limit a b c buf eof (d ∷ s) rest same free short = cc
read_line-accepts limit a b c buf failed [] rest same free short = cc
read_line-accepts limit a b c buf failed (d ∷ s) rest same free short = cc
read_line-accepts limit a b c buf (batch d bs i) s rest same free short =
    elim (Option-cases (split_line (d ∷ bs))) [
      | inr ((line, r), e) ↦
          let (is, left) = split_line-first (d ∷ bs) (bytes i) s rest line r same free e in
          let size : length line ≡ length s + 1 = rw is (length-append s (b'\n' ∷ [])) in
          let fits : ltb limit (length buf + length line) ≡ false = ground arith in
          (rest_of_batch r i, rw (e, fits, is, read_line), bytes-rest_of_batch r i ∙ left)
      | inl e ↦
          let (more, is, left) = split_line-none (d ∷ bs) (bytes i) s rest same e in
          let size : length s ≡ length (d ∷ bs) + length more =
            rw is (length-append (d ∷ bs) more) in
          let fits : ltb limit (length buf + length (d ∷ bs)) ≡ false = ground arith in
          let free' : contains_byte b'\n' more ≡ false =
            contains_byte-append b'\n' (d ∷ bs) more (rw is at free) in
          let longer : length (buf ++ d ∷ bs) ≡ length buf + length (d ∷ bs) =
            length-append buf (d ∷ bs) in
          let (i', read, after) =
            read_line-accepts limit a b c (buf ++ d ∷ bs) i more rest left free' (omega arith) in
          (
            i',
            rw (e, fits, read_line)
                (read
                  ∙ ap (λ x. ok (x, i'))
                      (append_assoc buf (d ∷ bs) (more ++ b'\n' ∷ [])
                        ∙ ap (λ x. buf ++ x)
                            (sym (append_assoc (d ∷ bs) more (b'\n' ∷ []))
                              ∙ ap (λ x. x ++ b'\n' ∷ []) (sym is)))),
            after,
          )
    ]

strip_crlf-crlf : (line : Bytes) → strip_crlf (line ++ b'\r' ∷ b'\n' ∷ []) ≡ some line
unfolding strip_crlf
strip_crlf-crlf [] = refl
strip_crlf-crlf (a ∷ []) = refl
strip_crlf-crlf (a ∷ b ∷ []) = refl
strip_crlf-crlf (a ∷ b ∷ c ∷ line) = rw (strip_crlf-crlf (b ∷ c ∷ line))

contains_byte-cr :
    (line : Bytes)
    → contains_byte b'\n' line ≡ false
    → contains_byte b'\n' (line ++ b'\r' ∷ []) ≡ false
unfolding contains_byte
contains_byte-cr [] h = refl
contains_byte-cr (b ∷ line) h = ground (arith, contains_byte-cr line)

-- A header of valid UTF-8 without a newline, that with its CRLF is no longer than the limit, is
-- read as it stands from a body that begins with it and a CRLF, in whatever batches the body
-- arrives, and what is left is the rest of the body.
pub read_chunk_header_line-accepts :
    (i : Inbound) (line rest : Bytes)
    → bytes i ≡ line ++ b'\r' ∷ b'\n' ∷ rest
    → contains_byte b'\n' line ≡ false
    → is_utf8 line ≡ true
    → length line + 2 ≤ max_chunk_header_line_bytes
    → (i' : Inbound) × (read_chunk_header_line i ≡ ok (line, i')) × (bytes i' ≡ rest)
unfolding read_chunk_header_line check_header_line
read_chunk_header_line-accepts i line rest same free valid short =
    let size : length (line ++ b'\r' ∷ []) ≡ length line + 1 = length-append line (b'\r' ∷ []) in
    let whole : bytes i ≡ (line ++ b'\r' ∷ []) ++ b'\n' ∷ rest =
      same ∙ sym (append_assoc line (b'\r' ∷ []) (b'\n' ∷ rest)) in
    let (i', read, left) =
      read_line-accepts max_chunk_header_line_bytes chunk_header_too_large truncated
        (malformed_frame header_without_terminator) [] i (line ++ b'\r' ∷ []) rest whole
        (contains_byte-cr line free) (omega arith) in
    let ended : (line ++ b'\r' ∷ []) ++ b'\n' ∷ [] ≡ line ++ b'\r' ∷ b'\n' ∷ [] =
      append_assoc line (b'\r' ∷ []) (b'\n' ∷ []) in
    let stripped : strip_crlf ((line ++ b'\r' ∷ []) ++ b'\n' ∷ []) ≡ some line =
      rw ended (strip_crlf-crlf line) in
    let checked : check_header_line ((line ++ b'\r' ∷ []) ++ b'\n' ∷ [], i') ≡ ok (line, i') =
      rw (stripped, valid, check_header_line) in
    (i', rw read checked, left)

copy_loop-ne-err :
    (write_all : Bytes → Bytes → Bool) (fuel remaining : ℕ) (written taken : Bytes) (i : Inbound)
    (e : AwsChunkedError)
    → ((before piece : Bytes) → write_all before piece ≡ true)
    → remaining ≤ length (bytes i)
    → (copy_loop write_all fuel remaining written taken i ≢ err e)
unfolding copy_loop bytes
copy_loop-ne-err write_all zero remaining written taken i e writes enough bad = cc
copy_loop-ne-err write_all (suc fuel) zero written taken i e writes enough bad = cc
copy_loop-ne-err write_all (suc fuel) (suc r) written taken eof e writes enough bad = omega arith
copy_loop-ne-err write_all (suc fuel) (suc r) written taken failed e writes enough bad = omega arith
copy_loop-ne-err write_all (suc fuel) (suc r) written taken (batch b bs i) e writes enough bad =
    let want = min (suc r) copy_buffer_bytes in
    let chunk = take want (b ∷ bs) in
    let left = rest_of_batch (drop want (b ∷ bs)) i in
    let total : length chunk + length (bytes left) ≡ length (bytes (batch b bs i)) =
      sym (length-append chunk (bytes left)) ∙ ap length (sym (bytes-left want (b ∷ bs) i)) in
    copy_loop-ne-err write_all fuel (suc r - length chunk) written (taken ++ chunk) left e writes
      (omega (arith, total, enough)) (rw (writes (written ++ taken) chunk, copy_loop) at bad)

append-cancel : (s t u v : Bytes) → length s ≡ length t → s ++ u ≡ t ++ v → (s ≡ t) × (u ≡ v)
append-cancel [] [] u v size same = (refl, same)
append-cancel [] (b ∷ t) u v size same = absurd (omega arith)
append-cancel (a ∷ s) [] u v size same = absurd (omega arith)
append-cancel (a ∷ s) (b ∷ t) u v size same =
    let heads : a ≡ b = ground arith in
    let tails : s ++ u ≡ t ++ v = ground arith in
    let (left, right) = append-cancel s t u v (omega arith) tails in (cc (heads, left), right)

-- Where the writer takes all it is given, and the body begins with a payload, a chunk of the
-- payload's size is read as it stands, in whatever batches the body arrives, and what
-- is left is the rest of the body.
pub copy_chunk_payload-accepts :
    (write_all : Bytes → Bytes → Bool) (written payload rest : Bytes) (i : Inbound)
    → ((before piece : Bytes) → write_all before piece ≡ true)
    → bytes i ≡ payload ++ rest
    → (i' : Inbound) × (copy_chunk_payload write_all written (length payload) i ≡ ok (payload, i'))
      × (bytes i' ≡ rest)
unfolding copy_chunk_payload
copy_chunk_payload-accepts write_all written payload rest i writes same =
    elim (Result-cases (copy_loop write_all (length payload) (length payload) written [] i)) [
      | inl (e, bad) ↦ absurd (
          copy_loop-ne-err write_all (length payload) (length payload) written [] i e writes
            (omega (arith, ap length same, length-append payload rest)) bad)
      | inr ((got, i'), read) ↦
          let (whole, size) =
            copy_chunk_payload-append write_all written (length payload) i got i'
              (unfold copy_chunk_payload in read) in
          let (is, left) = append-cancel got payload (bytes i') rest size (sym whole ∙ same) in
          (i', read ∙ ap (λ x. ok (x, i')) is, left)
    ]
