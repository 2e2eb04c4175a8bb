-- ===== src/Table/BlockFormat/Footers.antt =====
-- src/table/block_format.cc: handles and footers are read back.
use modern_level_db.Prelude.{
  ℕ, zero, suc, ◌+◌, ◌-◌, ◌≤◌, ◌<◌, ◌^◌, ◌≡◌, refl, sym, ap, ◌∙◌, List, [], ◌∷◌, ◌++◌, true, length,
  take, drop, replicate, arith, append_assoc, append-nil, length-append, length-replicate,
  take-append, drop-append, drop_all,
}
use modern_level_db.Base.Error.{ok}
use modern_level_db.Base.Bytes.{write_at}
use modern_level_db.Base.Coding.{
  u64, encode_varint_trusted, encode_fixed_trusted, decode_fixed_trusted,
}
use modern_level_db.Base.Coding.Fixed.{length-encode_fixed_trusted, decode-encode_fixed_trusted}
use modern_level_db.Base.Coding.Varint.{append_varint_lem, encode_varint_trusted_shape}
use modern_level_db.Base.Coding.VarintRoundTrip.{consume-encode_varint}
use modern_level_db.Format.InternalKey.{last}
use modern_level_db.Table.BlockFormat.{
  BlockHandle, Footer, append_block_handle, consume_block_handle, encode_footer, decode_footer,
  decode_footer_handles, padding_is_zero, table_magic_number,
}

pub record IsHandle (handle : BlockHandle) : Type 0 where
  pub offset_lt : handle.offset < 2 ^ 64
  pub size_lt : handle.size < 2 ^ 64

abbrev handle_bytes : BlockHandle → List ℕ
handle_bytes handle = encode_varint_trusted handle.offset ++ encode_varint_trusted handle.size

append_block_handle_lem :
    (output : List ℕ) (handle : BlockHandle)
    → IsHandle handle
    → append_block_handle output handle ≡ output ++ handle_bytes handle
unfolding append_block_handle
append_block_handle_lem output handle h =
    rw
      (
        append_varint_lem u64 _ handle.size h.size_lt,
        append_varint_lem u64 output handle.offset h.offset_lt,
      )
      (append_assoc output _ _)

length-handle_bytes : (handle : BlockHandle) → IsHandle handle → length (handle_bytes handle) ≤ 20
length-handle_bytes handle h =
    let (_, n, _, hi) = encode_varint_trusted_shape u64 handle.offset h.offset_lt in
    let (_, m, _, hj) = encode_varint_trusted_shape u64 handle.size h.size_lt in
    omega (
      arith,
      length-append (encode_varint_trusted handle.offset) (encode_varint_trusted handle.size),
    )

pub consume-append_block_handle :
    (handle : BlockHandle) (rest : List ℕ)
    → IsHandle handle
    → consume_block_handle (handle_bytes handle ++ rest) ≡ ok (handle, rest)
unfolding consume_block_handle
consume-append_block_handle handle rest h =
    rw (append_assoc (encode_varint_trusted handle.offset) (encode_varint_trusted handle.size) rest)
      (ground (
        arith,
        consume-encode_varint u64 handle.offset (encode_varint_trusted handle.size ++ rest)
            h.offset_lt,
        consume-encode_varint u64 handle.size rest h.size_lt,
      ))

padding-replicate : (n : ℕ) → padding_is_zero (replicate n 0) ≡ true
unfolding padding_is_zero
padding-replicate zero = refl
padding-replicate (suc n) = padding-replicate n

abbrev zeros : ℕ → List ℕ
zeros n = replicate n 0

length-zeros : (n : ℕ) → length (zeros n) ≡ n
length-zeros n = length-replicate n 0

drop-replicate : (n m : ℕ) → drop n (zeros m) ≡ zeros (m - n)
drop-replicate zero m = let e : m ≡ m - 0 = omega arith in ap zeros e
drop-replicate (suc n) zero = let e : 0 ≡ 0 - suc n = omega arith in ap zeros e
drop-replicate (suc n) (suc m) =
    let e : m - n ≡ suc m - suc n = omega arith in drop-replicate n m ∙ ap zeros e

take_past :
    (xs ys : List ℕ) (n : ℕ) → length xs ≤ n → take n (xs ++ ys) ≡ xs ++ take (n - length xs) ys
take_past [] ys n h = ap (λ (k : ℕ). take k ys) (omega arith)
take_past (x ∷ xs) ys zero h = absurd (omega arith)
take_past (x ∷ xs) ys (suc n) h =
    ap (λ l. x ∷ l)
      (take_past xs ys n (omega arith) ∙ ap (λ (k : ℕ). xs ++ take k ys) (omega arith))

take-replicate : (n m : ℕ) → n ≤ m → take n (zeros m) ≡ zeros n
take-replicate zero m h = refl
take-replicate (suc n) zero h = absurd (omega arith)
take-replicate (suc n) (suc m) h = ap (λ l. 0 ∷ l) (take-replicate n m (omega arith))

-- A footer as its parts: the two handles, zeros up to 40 bytes, the magic number.
abbrev footer_bytes : Footer → List ℕ
footer_bytes footer = handle_bytes footer.metaindex ++ handle_bytes footer.index

length-footer_bytes :
    (footer : Footer)
    → IsHandle footer.metaindex
    → IsHandle footer.index
    → length (footer_bytes footer) ≤ 40
length-footer_bytes footer hm hi = omega (
  arith,
  length-append (handle_bytes footer.metaindex) (handle_bytes footer.index),
  length-handle_bytes footer.metaindex hm,
  length-handle_bytes footer.index hi,
)

laid_out :
    (handles magic : List ℕ)
    → length handles ≤ 40
    → length magic ≡ 8
    → write_at (write_at (zeros 48) 0 handles) 40 magic
      ≡ (handles ++ zeros (40 - length handles)) ++ magic
laid_out handles magic room h =
    let n = length handles in
    let tail = zeros (48 - n) in
    let whole = handles ++ tail in
    let size : length whole ≡ 48 =
      omega (arith, length-append handles tail, length-zeros (48 - n)) in
    let written : write_at (zeros 48) 0 handles ≡ whole =
      let e : 0 + n ≡ n = omega arith in
      ap (λ (k : ℕ). handles ++ drop k (zeros 48)) e
      ∙ ap (λ l. handles ++ l) (drop-replicate n 48) in
    let padding : take (40 - n) tail ≡ zeros (40 - n) =
      take-replicate (40 - n) (48 - n) (omega arith) in
    let front : take 40 whole ≡ handles ++ zeros (40 - n) =
      take_past handles tail 40 room ∙ ap (λ l. handles ++ l) padding in
    let behind : drop (40 + length magic) whole ≡ [] = drop_all _ whole (omega arith) in
    ap (λ l. write_at l 40 magic) written ∙ rw (front, behind, append-nil)

encode_footer_lem :
    (footer : Footer)
    → IsHandle footer.metaindex
    → IsHandle footer.index
    → encode_footer footer
      ≡ (footer_bytes footer ++ zeros (40 - length (footer_bytes footer)))
        ++ encode_fixed_trusted 8 table_magic_number
unfolding encode_footer
encode_footer_lem footer hm hi =
    let written =
      append_block_handle_lem (append_block_handle [] footer.metaindex) footer.index hi
      ∙ ap (λ l. l ++ handle_bytes footer.index) (append_block_handle_lem [] footer.metaindex hm) in
    rw written (
      laid_out (footer_bytes footer) (encode_fixed_trusted 8 table_magic_number)
        (length-footer_bytes footer hm hi) (length-encode_fixed_trusted 8 table_magic_number))

decode_footer_handles-bytes :
    (footer : Footer) (rest : List ℕ)
    → IsHandle footer.metaindex
    → IsHandle footer.index
    → decode_footer_handles (footer_bytes footer ++ rest) ≡ ok (footer, rest)
unfolding decode_footer_handles
decode_footer_handles-bytes footer rest hm hi = rw (
  append_assoc (handle_bytes footer.metaindex) (handle_bytes footer.index) rest,
  consume-append_block_handle footer.metaindex (handle_bytes footer.index ++ rest) hm,
  consume-append_block_handle footer.index rest hi,
)

-- A footer of two handles with 64-bit offsets and sizes is decoded from its encoding, which has 48
-- bytes.
pub decode-encode_footer :
    (footer : Footer)
    → IsHandle footer.metaindex
    → IsHandle footer.index
    → (decode_footer (encode_footer footer) ≡ ok footer) × (length (encode_footer footer) ≡ 48)
unfolding decode_footer
decode-encode_footer footer hm hi =
    let handles = footer_bytes footer in
    let n = length handles in
    let padding = zeros (40 - n) in
    let magic = encode_fixed_trusted 8 table_magic_number in
    let room = length-footer_bytes footer hm hi in
    let front : length (handles ++ padding) ≡ 40 =
      omega (arith, length-append handles padding, length-zeros (40 - n)) in
    let tail : length magic ≡ 8 = length-encode_fixed_trusted 8 table_magic_number in
    let size : length ((handles ++ padding) ++ magic) ≡ 48 =
      omega (arith, length-append (handles ++ padding) magic) in
    let at_end : length ((handles ++ padding) ++ magic) - 8 ≡ length (handles ++ padding) =
      omega arith in
    let marked : last 8 ((handles ++ padding) ++ magic) ≡ magic =
      drop-append _ (handles ++ padding) magic at_end in
    let read : take 40 ((handles ++ padding) ++ magic) ≡ handles ++ padding =
      take-append 40 (handles ++ padding) magic (sym front) in
    let number : decode_fixed_trusted magic ≡ table_magic_number =
      decode-encode_fixed_trusted 8 table_magic_number (omega arith) in
    (
      rw (
        encode_footer_lem footer hm hi,
        marked,
        number,
        read,
        decode_footer_handles-bytes footer padding hm hi,
        padding-replicate (40 - n),
      ),
      ap length (encode_footer_lem footer hm hi) ∙ size,
    )
