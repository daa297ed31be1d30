-- ===== src/S3/AwsChunked/Decoder/Signed.antt =====
-- The signatures of the chunks that a successful decoding has taken, and where they stand in the
-- body (src/s3/aws_chunked.rs).
use tiny_s3_proxy.S3.AwsChunked.Decoder.Progress.{data_chunk-IsAccepted}
use tiny_s3_proxy.S3.AwsChunked.Decoder.Signs.{Signs, check_signature-Signs}
use tiny_s3_proxy.S3.AwsChunked.Header.Shape.{IsSignedHeader, parse_chunk_header-IsSignedHeader}
use tiny_s3_proxy.S3.AwsChunked.Inbound.Consumes.{read_chunk_header_line-append}
use tiny_s3_proxy.S3.AwsChunked.Inbound.{bytes}
use tiny_s3_proxy.S3.AwsChunked.Types.{
  expects_chunk_signature, non_trailer, unsigned_trailer, signed_trailer,
}
use mathlib.Core.Path.{subst}
use tiny_s3_proxy.S3.AwsChunked.Decoder.{
  check_signature, finalize, next_header, decode_loop, AwsChunkedDecoder, hex_encode_lower,
  empty_sha256_hex, DecodedSummary, ParsedChunkHeader, is_some, Inbound, read_chunk_header_line,
  parse_chunk_header, DecoderMode, data_chunk, decode_to_writer, with_mode_and_signature_policy,
}
use tiny_s3_proxy.S3.AwsChunked.Types.{ChunkSignaturePolicy, signed_chunk_algorithm}
use tiny_s3_proxy.Auth.Crypto.{Crypto}
use tiny_s3_proxy.Text.{Bytes}
use tiny_s3_proxy.Prelude.{
  ==_iff, >>=-eq-ok, Bool, List, [], ap, arith, length, ok, ok_injective, refl, some, suc, sym,
  true, ℕ, ◌++◌, ◌∷◌, ◌≡◌, Bool-cases, Option-cases, Result-cases, err_ne_ok, inl, inr,
  some_injective, zero, ◌==◌, ◌∙◌,
}
use mathlib.Core.List.{append_assoc, append-nil}

-- A chunk as it stands in the body: its header line, its payload, and the signature in the header.
pub record SignedChunk : Type 0 where
  pub header : Bytes
  pub payload : Bytes
  pub signature : Bytes

-- What the chunks carry, in order.
unfoldable pub payloads : List SignedChunk → Bytes
payloads [] = []
payloads (c ∷ chunks) = c.payload ++ payloads chunks

abbrev pub ended : (line rest : Bytes) → Bytes
ended line rest = line ++ b'\r' ∷ b'\n' ∷ rest

-- The chunks as they stand in the body, in front of `rest`.
unfoldable pub framed : List SignedChunk → (rest : Bytes) → Bytes
framed [] rest = rest
framed (c ∷ chunks) rest = ended c.header (ended c.payload (framed chunks rest))

-- Each chunk's header has the size of its payload and its signature, which signs the payload under
-- the policy that the chunk before has left; the last one leaves `end`.
abbrev pub AreSigned :
    Crypto → ChunkSignaturePolicy → List SignedChunk → (end : ChunkSignaturePolicy) → Type 0
AreSigned crypto policy [] end = policy ≡ end
AreSigned crypto policy (c ∷ chunks) end =
    IsSignedHeader c.header (length c.payload) c.signature
    × (next : ChunkSignaturePolicy) × Signs crypto policy
        (hex_encode_lower (crypto.sha256 c.payload)) c.signature next
    × AreSigned crypto next chunks end

-- The inbound body `wire` is signed chunks, the signed header of the final chunk, of size 0, and what
-- follows it; the decoded body is `before` and the payloads of the chunks.
pub record IsVerified (crypto : Crypto) (policy : ChunkSignaturePolicy) (wire before body : Bytes)
    : Type 0 where
  pub chunks : List SignedChunk
  pub last_header : Bytes
  pub last_signature : Bytes
  pub behind : Bytes
  pub end : ChunkSignaturePolicy
  pub finished : ChunkSignaturePolicy
  pub on_wire : wire ≡ framed chunks (ended last_header behind)
  pub each : AreSigned crypto policy chunks end
  pub zero_header : IsSignedHeader last_header 0 last_signature
  pub zero_chunk : Signs crypto end empty_sha256_hex last_signature finished
  pub whole : body ≡ before ++ payloads chunks

-- What reading a header has done, in a mode with chunk signatures.
pub record IsHeaderRead (d d' : AwsChunkedDecoder) (parsed : ParsedChunkHeader) : Type 0 where
  pub line : Bytes
  pub signature : Bytes
  pub inner : bytes d.inner ≡ ended line (bytes d'.inner)
  pub supplied : parsed.signature_hex ≡ some signature
  pub shape : IsSignedHeader line parsed.size signature

module _ (crypto : Crypto) where
  expects_chunk_signature_lem :
      (mode : DecoderMode)
      → is_some (signed_chunk_algorithm mode) ≡ true
      → expects_chunk_signature mode ≡ true
  unfolding signed_chunk_algorithm expects_chunk_signature
  expects_chunk_signature_lem (non_trailer a) h = refl
  expects_chunk_signature_lem (unsigned_trailer name a) h = cc
  expects_chunk_signature_lem (signed_trailer name a s) h = refl

  pub next_header-state :
      (d d' : AwsChunkedDecoder) (parsed : ParsedChunkHeader)
      → next_header crypto d ≡ ok (d', parsed)
      → (i : Inbound) × (record d { inner = i } ≡ d')
  unfolding next_header
  next_header-state d d' parsed h =
      let ((header, i), r, h1) = >>=-eq-ok (read_chunk_header_line d.inner) _ h in
      let (p, q, h2) =
        >>=-eq-ok (parse_chunk_header crypto header (signed_chunk_algorithm d.mode)) _ h1 in
      (i, ap (λ x. x.0) (ok_injective h2))

  next_header-IsHeaderRead :
      (d d' : AwsChunkedDecoder) (parsed : ParsedChunkHeader)
      → is_some (signed_chunk_algorithm d.mode) ≡ true
      → next_header crypto d ≡ ok (d', parsed)
      → IsHeaderRead d d' parsed
  unfolding next_header
  next_header-IsHeaderRead d d' parsed signed h =
      let ((line, i), r, h1) = >>=-eq-ok (read_chunk_header_line d.inner) _ h in
      let (p, q, h2) =
        >>=-eq-ok (parse_chunk_header crypto line (signed_chunk_algorithm d.mode)) _ h1 in
      let inner : i ≡ d'.inner = ap (λ x. x.0.inner) (ok_injective h2) in
      let same : p ≡ parsed = ap (λ x. x.1) (ok_injective h2) in
      elim (Option-cases (signed_chunk_algorithm d.mode)) [
        | inl e ↦ absurd (ground (arith, e, signed))
        | inr (a, e) ↦
            let (signature, supplied, shape) =
              parse_chunk_header-IsSignedHeader crypto line a parsed (rw (e, same) at q) in
            record {
              line = line;
              signature = signature;
              inner =
                  read_chunk_header_line-append d.inner line i r
                  ∙ ap (λ x. ended line (bytes x)) inner;
              supplied = supplied;
              shape = shape;
            }
      ]

  finalize-IsVerified :
      (d d' : AwsChunkedDecoder) (parsed : ParsedChunkHeader) (summary : DecodedSummary)
      → is_some (signed_chunk_algorithm d'.mode) ≡ true
      → IsHeaderRead d d' parsed
      → parsed.size ≡ 0
      → finalize crypto d' parsed.signature_hex ≡ ok summary
      → IsVerified crypto d'.signature_policy (bytes d.inner) d'.written d'.written
  unfolding finalize
  finalize-IsVerified d d' parsed summary signed header size h =
      let (q, checked, _) =
        >>=-eq-ok
          (check_signature crypto (expects_chunk_signature d'.mode) d'.signature_policy
            empty_sha256_hex parsed.signature_hex d'.chunk_index)
          _ h in
      record {
        chunks = [];
        last_header = header.line;
        last_signature = header.signature;
        behind = bytes d'.inner;
        end = d'.signature_policy;
        finished = q;
        on_wire = unfold framed in header.inner;
        each = refl;
        zero_header = subst (λ n. IsSignedHeader header.line n header.signature) size header.shape;
        zero_chunk =
            check_signature-Signs crypto d'.signature_policy q empty_sha256_hex header.signature
              d'.chunk_index
              (rw (expects_chunk_signature_lem d'.mode signed, header.supplied) at checked);
        whole = unfold payloads in sym (append-nil d'.written);
      }

  -- A chunk in front of those that are verified.
  chunk-IsVerified :
      (policy next : ChunkSignaturePolicy) (wire rest before body : Bytes) (c : SignedChunk)
      → IsSignedHeader c.header (length c.payload) c.signature
      → Signs crypto policy (hex_encode_lower (crypto.sha256 c.payload)) c.signature next
      → wire ≡ ended c.header (ended c.payload rest)
      → IsVerified crypto next rest (before ++ c.payload) body
      → IsVerified crypto policy wire before body
  unfolding payloads framed
  chunk-IsVerified policy next wire rest before body c shape signs stands v = record {
    chunks = c ∷ v.chunks;
    last_header = v.last_header;
    last_signature = v.last_signature;
    behind = v.behind;
    end = v.end;
    finished = v.finished;
    on_wire = stands ∙ ap (λ x. ended c.header (ended c.payload x)) v.on_wire;
    each = (shape, next, signs, v.each);
    zero_header = v.zero_header;
    zero_chunk = v.zero_chunk;
    whole = v.whole ∙ append_assoc before c.payload (payloads v.chunks);
  }

  module _ (write_all : Bytes → Bytes → Bool) where
    decode_loop-IsVerified :
        (fuel : ℕ) (d : AwsChunkedDecoder) (summary : DecodedSummary) (body : Bytes)
        → is_some (signed_chunk_algorithm d.mode) ≡ true
        → decode_loop crypto write_all fuel d ≡ some (ok (summary, body))
        → IsVerified crypto d.signature_policy (bytes d.inner) d.written body
    unfolding decode_loop
    decode_loop-IsVerified zero d summary body signed h = cc
    decode_loop-IsVerified (suc fuel) d summary body signed h =
        elim (Result-cases (next_header crypto d)) [
          | inl (e, bad) ↦ ground arith
          | inr ((d', parsed), header) ↦
              let (i, state) = next_header-state d d' parsed header in
              let read = next_header-IsHeaderRead d d' parsed signed header in
              let signed' : is_some (signed_chunk_algorithm d'.mode) ≡ true = rw (← state) signed in
              let back : (t : Bytes)
                  → IsVerified crypto d'.signature_policy (bytes d.inner) d'.written t
                  → IsVerified crypto d.signature_policy (bytes d.inner) d.written t =
                λ t v. rw (← state) at v in
              elim (Bool-cases (parsed.size == 0)) [
                | inl last ↦
                    let end = some_injective (rw (header, last, decode_loop) at h) in
                    let (s, f, same) = >>=-eq-ok (finalize crypto d' parsed.signature_hex) _ end in
                    let pair = ok_injective same in
                    back body (
                      subst
                        (λ x. IsVerified crypto d'.signature_policy (bytes d.inner) d'.written x.1)
                        pair
                        (finalize-IsVerified d d' parsed s signed' read
                          ((==_iff parsed.size 0).0 last) f))
                | inr more ↦ elim (Result-cases (data_chunk crypto write_all d' parsed)) [
                  | inl (e, bad) ↦
                      absurd (err_ne_ok (some_injective (rw (header, more, bad, decode_loop) at h)))
                  | inr (d'', chunk) ↦
                      let a = data_chunk-IsAccepted crypto write_all d' d'' parsed chunk in
                      let c : SignedChunk = record {
                        header = read.line;
                        payload = a.payload;
                        signature = read.signature;
                      } in
                      let signs =
                        check_signature-Signs crypto d'.signature_policy a.policy
                          (hex_encode_lower (crypto.sha256 a.payload)) read.signature d'.chunk_index
                          (rw (signed', read.supplied) at a.verified) in
                      let shape =
                        subst (λ n. IsSignedHeader read.line n read.signature) (sym a.size)
                          read.shape in
                      let signed'' : is_some (signed_chunk_algorithm d''.mode) ≡ true =
                        rw a.state signed' in
                      let rest =
                        decode_loop-IsVerified fuel d'' summary body signed''
                          (rw (header, more, chunk, decode_loop) at h) in
                      back body (
                        chunk-IsVerified d'.signature_policy a.policy (bytes d.inner) (bytes a.rest)
                          d'.written body c shape signs (read.inner ∙ ap (ended read.line) a.body)
                          (subst
                            (λ x.
                              IsVerified crypto x.signature_policy (bytes x.inner) x.written body)
                            a.state rest))
                ]
              ]
        ]

-- A body that is accepted in a mode with chunk signatures is, byte for byte, a sequence of chunks,
-- each a header line with the hexadecimal size of its payload and a signature, and the payload; then
-- the header line of the final chunk, of size 0, with a signature; and what follows it. The decoded
-- body is the payloads. The signature in each header is the one of that chunk's payload under the
-- policy that the chunk before has left, the first under the policy of the request, and the one in
-- the last header is that of the empty payload. Under an HMAC policy that is the lowercase
-- hexadecimal HMAC of the chunk's string to sign, with the signature of the chunk before in it;
-- under an ECDSA policy it is hexadecimal of a DER signature that verifies, with stars behind it;
-- where signatures are not verified it is any.
pub decode_to_writer-IsVerified :
    (crypto : Crypto) (write_all : Bytes → Bytes → Bool) (inner : Inbound) (declared : ℕ)
    (mode : DecoderMode) (policy : ChunkSignaturePolicy) (summary : DecodedSummary) (body : Bytes)
    → is_some (signed_chunk_algorithm mode) ≡ true
    → decode_to_writer crypto write_all (with_mode_and_signature_policy inner declared mode policy)
      ≡ some (ok (summary, body))
    → IsVerified crypto policy (bytes inner) [] body
unfolding decode_to_writer with_mode_and_signature_policy
decode_to_writer-IsVerified crypto write_all inner declared mode policy summary body signed h =
    decode_loop-IsVerified crypto write_all _ _ summary body signed h
