-- ===== src/S3/AwsChunked/Inbound/Consumes.antt =====
-- Every read takes a prefix of the body: no byte is lost, repeated or reordered.
use mathlib.Core.List.{append_assoc}
use tiny_s3_proxy.Text.{Bytes}
use tiny_s3_proxy.Prelude.{
  Bool, Option-cases, [], arith, inl, inr, length, ok, refl, some, suc, zero, ℕ, ◌++◌, ◌+◌, ◌<◌,
  ◌∷◌, ◌≡◌, ◌≤◌, ap, drop, length-append, min, sym, take, ◌-◌, ◌∙◌, >>=-eq-ok, length-take,
  take-append-drop,
}
use tiny_s3_proxy.S3.AwsChunked.Types.{AwsChunkedError}
use tiny_s3_proxy.S3.AwsChunked.Inbound.{
  Inbound, eof, failed, batch, bytes, rest_of_batch, split_line, read_line, check_header_line,
  read_chunk_header_line, read_byte, expect_crlf, copy_loop, copy_chunk_payload, copy_buffer_bytes,
  strip_crlf,
}

pub bytes-rest_of_batch : (s : Bytes) (i : Inbound) → bytes (rest_of_batch s i) ≡ s ++ bytes i
unfolding bytes rest_of_batch
bytes-rest_of_batch [] i = refl
bytes-rest_of_batch (b ∷ s) i = refl

-- A line and its rest are the text, and a line has its newline.
pub split_line-append : (s line rest : Bytes) → split_line s ≡ some (line, rest) → s ≡ line ++ rest
unfolding split_line
split_line-append [] line rest h = cc
split_line-append (b ∷ s) line rest h = elim (Option-cases (split_line s)) [
  | inl e ↦ ground arith
  | inr ((l, r), e) ↦ ground (arith, split_line-append s l r e)
]

pub split_line_pos : (s line rest : Bytes) → split_line s ≡ some (line, rest) → 0 < length line
unfolding split_line
split_line_pos [] line rest h = cc
split_line_pos (b ∷ s) line rest h = ground arith

module _ (limit : ℕ) (too_large at_end no_newline : AwsChunkedError) where
  pub read_line-append :
      (buf : Bytes) (i : Inbound) (line : Bytes) (i' : Inbound)
      → read_line limit too_large at_end no_newline buf i ≡ ok (line, i')
      → (buf ++ bytes i ≡ line ++ bytes i') × (length buf < length line)
  unfolding read_line bytes
  read_line-append buf eof line i' h = ground arith
  read_line-append buf failed line i' h = cc
  read_line-append buf (batch b bs i) line i' h = elim (Option-cases (split_line (b ∷ bs))) [
    | inl e ↦
        let more : read_line limit too_large at_end no_newline (buf ++ b ∷ bs) i ≡ ok (line, i') =
          ground arith in
        let (same, longer) = read_line-append (buf ++ b ∷ bs) i line i' more in
        (
          sym (append_assoc buf (b ∷ bs) (bytes i)) ∙ same,
          omega (arith, longer, length-append buf (b ∷ bs)),
        )
    | inr ((l, r), e) ↦
        let ends : line ≡ buf ++ l = ground arith in
        let left : i' ≡ rest_of_batch r i = ground arith in
        (
          rw (ends, left, bytes-rest_of_batch)
              (ap (λ t. buf ++ t)
                  (ap (λ t. t ++ bytes i) (split_line-append (b ∷ bs) l r e)
                    ∙ append_assoc l r (bytes i))
                ∙ sym (append_assoc buf l (r ++ bytes i))),
          rw ends (omega (arith, length-append buf l, split_line_pos (b ∷ bs) l r e)),
        )
  ]

-- What a read takes and what it leaves.
pub bytes-left :
    (n : ℕ) (s : Bytes) (i : Inbound)
    → s ++ bytes i ≡ take n s ++ bytes (rest_of_batch (drop n s) i)
bytes-left n s i = rw bytes-rest_of_batch (
    ap (λ t. t ++ bytes i) (sym (take-append-drop n s))
    ∙ append_assoc (take n s) (drop n s) (bytes i))

pub copy_loop-append :
    (write_all : Bytes → Bytes → Bool) (fuel remaining : ℕ) (written taken : Bytes) (i : Inbound)
    (got : Bytes) (i' : Inbound)
    → copy_loop write_all fuel remaining written taken i ≡ ok (got, i')
    → remaining ≤ fuel
    → (taken ++ bytes i ≡ got ++ bytes i') × (length got ≡ length taken + remaining)
unfolding copy_loop bytes
copy_loop-append write_all zero remaining written taken i got i' h k = ground arith
copy_loop-append write_all (suc fuel) zero written taken i got i' h k = ground arith
copy_loop-append write_all (suc fuel) (suc r) written taken eof got i' h k = cc
copy_loop-append write_all (suc fuel) (suc r) written taken failed got i' h k = cc
copy_loop-append write_all (suc fuel) (suc r) written taken (batch b bs i) got i' h k =
    let want = min (suc r) copy_buffer_bytes in
    let chunk = take want (b ∷ bs) in
    let left = rest_of_batch (drop want (b ∷ bs)) i in
    let more : copy_loop write_all fuel (suc r - length chunk) written (taken ++ chunk) left
        ≡ ok (got, i') =
      ground arith in
    let some_read : 0 < length chunk = omega (arith, length-take want (b ∷ bs)) in
    let no_more : length chunk ≤ suc r = omega (arith, length-take want (b ∷ bs)) in
    let (same, total) =
      copy_loop-append write_all fuel (suc r - length chunk) written (taken ++ chunk) left got i'
        more (omega arith) in
    (
      ap (λ t. taken ++ t) (bytes-left want (b ∷ bs) i)
          ∙ (sym (append_assoc taken chunk (bytes left)) ∙ same),
      omega (arith, total, length-append taken chunk),
    )

-- A successful read of a payload gives as many bytes as were asked for, the first of the body.
pub copy_chunk_payload-append :
    (write_all : Bytes → Bytes → Bool) (written : Bytes) (size : ℕ) (i : Inbound) (got : Bytes)
    (i' : Inbound)
    → copy_chunk_payload write_all written size i ≡ ok (got, i')
    → (bytes i ≡ got ++ bytes i') × (length got ≡ size)
unfolding copy_chunk_payload
copy_chunk_payload-append write_all written size i got i' h =
    let (same, total) = copy_loop-append write_all size size written [] i got i' h (omega arith) in
    (same, omega (arith, total))

read_byte-append :
    (i : Inbound) (b : ℕ) (i' : Inbound) → read_byte i ≡ ok (b, i') → bytes i ≡ b ∷ bytes i'
unfolding read_byte bytes
read_byte-append eof b i' h = cc
read_byte-append failed b i' h = cc
read_byte-append (batch a bs i) b i' h =
    let left : i' ≡ rest_of_batch bs i = ground arith in
    let head : a ≡ b = ground arith in rw (left, bytes-rest_of_batch, head)

pub expect_crlf-append :
    (i i' : Inbound) → expect_crlf i ≡ ok i' → bytes i ≡ b'\r' ∷ b'\n' ∷ bytes i'
unfolding expect_crlf
expect_crlf-append i i' h =
    let ((a, j), read_a, h') = >>=-eq-ok (read_byte i) _ h in
    let ((b, k), read_b, h'') = >>=-eq-ok (read_byte j) _ h' in
    ground (arith, read_byte-append i a j read_a, read_byte-append j b k read_b)

strip_crlf-append : (s line : Bytes) → strip_crlf s ≡ some line → s ≡ line ++ b'\r' ∷ b'\n' ∷ []
unfolding strip_crlf
strip_crlf-append [] line h = cc
strip_crlf-append (a ∷ []) line h = cc
strip_crlf-append (a ∷ b ∷ []) line h = ground arith
strip_crlf-append (a ∷ b ∷ c ∷ s) line h = elim (Option-cases (strip_crlf (b ∷ c ∷ s))) [
  | inl e ↦ ground arith
  | inr (l, e) ↦ ground (arith, strip_crlf-append (b ∷ c ∷ s) l e)
]

-- A header line takes two bytes or more.
pub read_chunk_header_line-append :
    (i : Inbound) (header : Bytes) (i' : Inbound)
    → read_chunk_header_line i ≡ ok (header, i')
    → bytes i ≡ header ++ b'\r' ∷ b'\n' ∷ bytes i'
unfolding read_chunk_header_line check_header_line
read_chunk_header_line-append i header i' h =
    let ((raw, j), r, c) = >>=-eq-ok _ check_header_line h in
    let (same, _) = read_line-append _ _ _ _ [] i raw j r in
    elim (Option-cases (strip_crlf raw)) [
      | inl e ↦ ground arith
      | inr (line, e) ↦
          let kept : line ≡ header = ground arith in
          let left : j ≡ i' = ground arith in
          same
          ∙ (ap (λ t. t ++ bytes j) (strip_crlf-append raw line e)
              ∙ (append_assoc line (b'\r' ∷ b'\n' ∷ []) (bytes j) ∙ cc (kept, left)))
    ]
