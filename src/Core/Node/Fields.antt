-- ===== src/Core/Node/Fields.antt =====
-- The sections of an encoded node: the hashes of the children, and the file information.
use casfa.Base.{
  ℕ, zero, suc, ◌+◌, ◌-◌, ◌*◌, ◌/◌, ◌%◌, ◌≤◌, ◌<◌, ◌≡◌, ◌≢◌, refl, ◌∙◌, true, Option, none, some,
  List, [], ◌∷◌, ◌++◌, append_assoc, arith, length, drop, replicate, concat, All, Bytes, ok,
  length-append, length-replicate, length-take, length-drop, take-append_at, drop-append_at,
  drop-drop, le→ltb,
}
use casfa.Core.Words.{u32_bytes, get_uint32, get_uint32-total}
use casfa.Core.Text.{Text, TextDecoder}
use casfa.Core.Pascal.{slice}
use casfa.Core.Node.{
  FileInfo, read_children, encode_file_info, decode_file_info, decode_info_view, until_zero,
  pad_content_type,
}

abbrev pub IsHash : Bytes → Type 0
IsHash hash = length hash ≡ 16

pub length-concat :
    (hashes : List Bytes) → All IsHash hashes → length (concat hashes) ≡ length hashes * 16
length-concat [] h = refl
length-concat (c ∷ cs) h = omega (arith, length-append c (concat cs), length-concat cs h.1, h.0)

-- Hashes that stand one behind the other at the offset.
pub read_children_at :
    (buffer : Bytes) (offset : ℕ) (hashes : List Bytes) (rest : Bytes)
    → All IsHash hashes
    → drop offset buffer ≡ concat hashes ++ rest
    → read_children buffer offset (length hashes) ≡ hashes
unfolding read_children
read_children_at buffer offset [] rest h e = refl
read_children_at buffer offset (c ∷ cs) rest h e =
    let here : drop offset buffer ≡ c ++ (concat cs ++ rest) =
      e ∙ append_assoc c (concat cs) rest in
    let next : drop (offset + 16) buffer ≡ concat cs ++ rest =
      rw (← drop-drop offset 16 buffer, here) (drop-append_at 16 c (concat cs ++ rest) h.0) in
    rw
      (
        here,
        take-append_at 16 c (concat cs ++ rest) h.0,
        read_children_at buffer (offset + 16) cs rest h.1 next,
      )
      refl

-- A content type that the format can hold: at most 56 bytes, none of them zero.
abbrev pub NoZero : Bytes → Type 0
NoZero bytes = All (λ b. b ≢ 0) bytes

pub record IsContentType (text : TextDecoder) (content_type : Text) : Type 0 where
  pub short : length content_type ≤ 56
  pub no_zero : NoZero content_type
  pub valid : text.is_plain content_type ≡ true

-- The text that an optional content type is read back as.
abbrev pub content_type_text : Option Text → Text
content_type_text none = []
content_type_text (some text) = text

until_zero-zeros : (n : ℕ) → until_zero (replicate n 0) ≡ []
unfolding until_zero
until_zero-zeros zero = refl
until_zero-zeros (suc n) = refl

pub until_zero-pad :
    (content_type : Text) (n : ℕ)
    → NoZero content_type
    → until_zero (content_type ++ replicate n 0) ≡ content_type
unfolding until_zero
until_zero-pad [] n h = until_zero-zeros n
until_zero-pad (b ∷ bs) n h = ground (arith, until_zero-pad bs n h.1, h.0)

pub length-pad :
    (content_type : Text) → length content_type ≤ 56 → length (pad_content_type content_type) ≡ 56
length-pad ct h = omega (
  arith,
  length-append ct (replicate (56 - length ct) 0),
  length-replicate {A = ℕ} (56 - length ct) 0,
)

-- The bytes of a file information that fits.
abbrev pub info_bytes : ℕ → Text → Bytes
info_bytes file_size ct =
    u32_bytes (file_size % 4294967296)
    ++ (u32_bytes (file_size / 4294967296 % 4294967296) ++ pad_content_type ct)

pub encode_file_info_fits :
    (file_size : ℕ) (content_type : Option Text)
    → length (content_type_text content_type) ≤ 56
    → encode_file_info file_size content_type
      ≡ ok (info_bytes file_size (content_type_text content_type))
unfolding encode_file_info
encode_file_info_fits n none h = refl
encode_file_info_fits n (some ct) h = rw (le→ltb 56 (length ct) h) refl

pub length-info_bytes : (n : ℕ) (ct : Text) → length ct ≤ 56 → length (info_bytes n ct) ≡ 64
unfolding u32_bytes
length-info_bytes n ct h = omega (arith, length-pad ct h)

module _ (text : TextDecoder) where
  decode_info_view-bytes :
      (file_size : ℕ) (ct : Text)
      → file_size < 18446744073709551616
      → IsContentType text ct
      → decode_info_view text (info_bytes file_size ct)
        ≡ ok (record { file_size = file_size; content_type = ct })
  unfolding decode_info_view u32_bytes get_uint32
  decode_info_view-bytes n ct hn v =
      rw
        (
          length-pad ct v.short,
          until_zero-pad ct (56 - length ct) v.no_zero,
          text.decode-plain ct v.valid,
        )
        (ground arith)

  -- A file information that stands at the offset is read back, for sizes of up to 64 bits.
  pub decode_file_info_at :
      (buffer : Bytes) (offset file_size : ℕ) (ct : Text) (rest : Bytes)
      → file_size < 18446744073709551616
      → IsContentType text ct
      → drop offset buffer ≡ info_bytes file_size ct ++ rest
      → decode_file_info text buffer offset
        ≡ ok (record { file_size = file_size; content_type = ct })
  unfolding decode_file_info
  decode_file_info_at buffer offset n ct rest hn v e =
      rw (e, take-append_at 64 (info_bytes n ct) rest (length-info_bytes n ct v.short))
        (decode_info_view-bytes n ct hn v)

  info_view-read :
      (view : Bytes) (low high : ℕ)
      → length view ≡ 64
      → get_uint32 view 0 ≡ ok low
      → get_uint32 view 4 ≡ ok high
      → (info : FileInfo) × (decode_info_view text view ≡ ok info)
  unfolding decode_info_view
  info_view-read view low high size el eh = (
    record {
      file_size = low + high * 4294967296;
      content_type = text.decode (until_zero (drop 8 view));
    },
    rw (size, el, eh) refl,
  )

  -- A file information within the buffer can be read.
  pub decode_file_info-total :
      (buffer : Bytes) (offset : ℕ)
      → offset + 64 ≤ length buffer
      → (info : FileInfo) × (decode_file_info text buffer offset ≡ ok info)
  unfolding decode_file_info
  decode_file_info-total buffer offset h =
      let view = slice buffer offset 64 in
      let size : length view ≡ 64 =
        omega (arith, length-take 64 (drop offset buffer), length-drop offset buffer) in
      let low = get_uint32-total view 0 (omega (arith, size)) in
      let high = get_uint32-total view 4 (omega (arith, size)) in
      info_view-read view low.0 high.0 size low.1 high.1
