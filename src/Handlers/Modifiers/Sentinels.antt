-- ===== src/Handlers/Modifiers/Sentinels.antt =====
-- Which aws-chunked mode a request's headers amount to (src/handlers/modifiers.rs).
use tiny_s3_proxy.Text.{Bytes, codes, trim, uppercase}
use tiny_s3_proxy.Prelude.{
  Bool, List, Option, [], arith, none, refl, some, true, ◌↔◌, ◌∷◌, ◌≡◌, Bool-cases, Option-cases,
  ap, false, inl, inr, is_empty, sym, ◌∙◌, ◌≢◌,
}
use mathlib.Core.List.{Perm, Permᴰ}
use mathlib.Core.Logic.{∥∥₁_elim}
use tiny_s3_proxy.Http.{HttpCrates, HeaderMap, get_first, get_all, has_header}
use tiny_s3_proxy.Handlers.Modifiers.{
  AwsChunkedUploadMode, other_streaming, contains, sentinel_mode, mode_eq, join_mode,
  is_trailer_mode, fold_modes, trailer_algorithm_supported, observed_mode,
  classify_aws_chunked_upload,
}

abbrev Mode : Type 0
Mode = Option AwsChunkedUploadMode

mode_eq_iff : (a b : AwsChunkedUploadMode) → (mode_eq a b ≡ true) ↔ (a ≡ b)
unfolding mode_eq
mode_eq_iff a b = ground arith

join_mode_comm : (a b : Mode) → join_mode a b ≡ join_mode b a
unfolding join_mode
join_mode_comm none none = refl
join_mode_comm none (some b) = refl
join_mode_comm (some a) none = refl
join_mode_comm (some a) (some b) = ground (arith, mode_eq_iff a b, mode_eq_iff b a)

join_mode_assoc : (a b c : Mode) → join_mode (join_mode a b) c ≡ join_mode a (join_mode b c)
unfolding join_mode
join_mode_assoc none b c = refl
join_mode_assoc (some a) none c = refl
join_mode_assoc (some a) (some b) none = ground arith
join_mode_assoc (some a) (some b) (some c) = ground (
  arith,
  mode_eq_iff a b,
  mode_eq_iff b c,
  mode_eq_iff a c,
  mode_eq_iff other_streaming c,
  mode_eq_iff a other_streaming,
)

Mode-set : IsSet Mode
Mode-set = hlevel

join_mode-not_trailer :
    (a b : Mode)
    → is_trailer_mode a ≡ false
    → is_trailer_mode b ≡ false
    → is_trailer_mode (join_mode a b) ≡ false
unfolding join_mode is_trailer_mode
join_mode-not_trailer none b h k = k
join_mode-not_trailer (some a) none h k = h
join_mode-not_trailer (some a) (some b) h k = ground arith

sentinel_mode-not_trailer : (upper : Bytes) → is_trailer_mode (sentinel_mode false upper) ≡ false
unfolding sentinel_mode is_trailer_mode
sentinel_mode-not_trailer upper = ground arith

-- What one header value contributes.
contribution : HttpCrates → Bool → Bytes → Mode
contribution http supported value = fold_modes http supported none (value ∷ [])

module _ (http : HttpCrates) (supported : Bool) where
  fold_modes-cons :
      (mode : Mode) (value : Bytes) (values : List Bytes)
      → fold_modes http supported mode (value ∷ values)
        ≡ fold_modes http supported (join_mode mode (contribution http supported value)) values
  unfolding fold_modes contribution join_mode
  fold_modes-cons mode value values = ground arith

  fold_modes-swap :
      (mode : Mode) (x y : Bytes) (values : List Bytes)
      → fold_modes http supported mode (x ∷ y ∷ values)
        ≡ fold_modes http supported mode (y ∷ x ∷ values)
  fold_modes-swap mode x y values =
      let a = contribution http supported x in
      let b = contribution http supported y in
      let same : join_mode (join_mode mode a) b ≡ join_mode (join_mode mode b) a =
        join_mode_assoc mode a b
        ∙ (ap (join_mode mode) (join_mode_comm a b) ∙ sym (join_mode_assoc mode b a)) in
      fold_modes-cons mode x (y ∷ values)
      ∙ (fold_modes-cons (join_mode mode a) y values
          ∙ (ap (λ m. fold_modes http supported m values) same
              ∙ sym (
                  fold_modes-cons mode y (x ∷ values)
                  ∙ fold_modes-cons (join_mode mode b) x values)))

  fold_modes-permᴰ :
      (mode : Mode) {xs ys : List Bytes}
      → Permᴰ xs ys
      → fold_modes http supported mode xs ≡ fold_modes http supported mode ys
  fold_modes-permᴰ mode Permᴰ.nil = refl
  fold_modes-permᴰ mode (Permᴰ.cons {a} {b} {l₁ = xs} {l₂ = ys} e p) =
      fold_modes-cons mode a xs
      ∙ (fold_modes-permᴰ (join_mode mode (contribution http supported a)) p
          ∙ (ap (λ v. fold_modes http supported (join_mode mode (contribution http supported v)) ys)
                e
              ∙ sym (fold_modes-cons mode b ys)))
  fold_modes-permᴰ mode (Permᴰ.swap {a} {b} {a' = c} {b' = d} {l} e f) =
      fold_modes-swap mode a b l
      ∙ (ap (λ v. fold_modes http supported mode (v ∷ a ∷ l)) f
          ∙ ap (λ v. fold_modes http supported mode (c ∷ v ∷ l)) e)
  fold_modes-permᴰ mode (Permᴰ.trans p q) = fold_modes-permᴰ mode p ∙ fold_modes-permᴰ mode q

  -- The observed mode does not depend on the order of the header lines.
  pub fold_modes-perm :
      (mode : Mode) (xs ys : List Bytes)
      → Perm xs ys
      → fold_modes http supported mode xs ≡ fold_modes http supported mode ys
  fold_modes-perm mode xs ys p = ∥∥₁_elim p (Mode-set _ _) (fold_modes-permᴰ mode)

  -- Without a supported trailer algorithm no header value makes a trailer mode.
  fold_modes-supported :
      (mode : Mode) (values : List Bytes)
      → supported ≡ false
      → is_trailer_mode mode ≡ false
      → is_trailer_mode (fold_modes http supported mode values) ≡ false
  unfolding fold_modes
  fold_modes-supported mode [] off h = h
  fold_modes-supported mode (value ∷ values) off h = elim (Option-cases (http.to_str value)) [
    | inl e ↦ rw (e, fold_modes) (fold_modes-supported mode values off h)
    | inr (s, e) ↦ elim (Bool-cases (is_empty (trim s))) [
      | inl blank ↦ rw (e, blank, fold_modes) (fold_modes-supported mode values off h)
      | inr full ↦
          let next = join_mode mode (sentinel_mode supported (uppercase (trim s))) in
          let none_yet : is_trailer_mode next ≡ false =
            rw off
              (join_mode-not_trailer mode _ h (sentinel_mode-not_trailer (uppercase (trim s)))) in
          rw (e, full, fold_modes) (fold_modes-supported next values off none_yet)
    ]
  ]

get_first-has_header :
    (name : Bytes) (headers : HeaderMap) (v : Bytes)
    → get_first name headers ≡ some v
    → has_header name headers ≡ true
unfolding get_first has_header
get_first-has_header name [] v h = cc
get_first-has_header name ((n, w) ∷ headers) v h =
    ground (arith, get_first-has_header name headers v)

module _ (http : HttpCrates) (headers : HeaderMap) where
  trailer_algorithm_supported-contains :
      trailer_algorithm_supported http headers ≡ true → contains headers "x-amz-trailer" ≡ true
  unfolding trailer_algorithm_supported contains
  trailer_algorithm_supported-contains h =
      elim (Option-cases (get_first (codes "x-amz-trailer") headers)) [
        | inl e ↦ ground arith
        | inr (v, e) ↦ get_first-has_header (codes "x-amz-trailer") headers v e
      ]

  observed_mode-supported :
      is_trailer_mode (observed_mode http headers) ≡ true
      → trailer_algorithm_supported http headers ≡ true
  unfolding observed_mode is_trailer_mode
  observed_mode-supported h = elim (Bool-cases (trailer_algorithm_supported http headers)) [
    | inl e ↦ e
    | inr off ↦
        let none_seen : is_trailer_mode (observed_mode http headers) ≡ false =
          fold_modes-supported http (trailer_algorithm_supported http headers) none
            (get_all (codes "x-amz-content-sha256") headers) off refl in
        cc
  ]

  -- A body is decoded with a trailer exactly when the request has an `x-amz-trailer` header, and
  -- then that header names a supported checksum.
  pub classify-trailer :
      (m : AwsChunkedUploadMode)
      → classify_aws_chunked_upload http headers ≡ some m
      → m ≢ other_streaming
      → (is_trailer_mode (some m) ≡ contains headers "x-amz-trailer")
        × (contains headers "x-amz-trailer" ≡ true
            → trailer_algorithm_supported http headers ≡ true)
  unfolding classify_aws_chunked_upload
  classify-trailer m h ne =
      ground (arith, observed_mode-supported, trailer_algorithm_supported-contains)
