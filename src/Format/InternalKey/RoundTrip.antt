-- ===== src/Format/InternalKey/RoundTrip.antt =====
-- src/format/internal_key.cc: what `ParseInternalKey` accepts, and the class `InternalKey`.
use modern_level_db.Prelude.{
  ℕ, ◌+◌, ◌-◌, ◌^◌, ◌<◌, ◌≤◌, ◌≡◌, ◌↔◌, sym, ap, refl, true, false, arith, ltb, List, ◌++◌, length,
  drop, length-append, length-drop, take-append, drop-append, take-append-drop, le→ltb, All-drop,
}
use modern_level_db.Base.Error.{ok}
use modern_level_db.Base.Bytes.{AreBytes, IsByte}
use modern_level_db.Base.Coding.{encode_fixed_trusted, decode_fixed_trusted, append_fixed}
use modern_level_db.Base.Coding.Fixed.{
  length-encode_fixed_trusted, decode-encode_fixed_trusted, encode-decode_fixed_trusted,
  decode_fixed_trusted-lt,
}
use modern_level_db.Format.InternalKey
use modern_level_db.Format.InternalKey.{
  InternalKeyView, max_sequence_number, internal_key_trailer_size, is_valid_value_kind,
  pack_internal_key_trailer, decode_internal_key_sequence, decode_internal_key_value_kind,
  decode_internal_key_trailer, last, before_last, parse_internal_key, encode_unchecked,
  encode_internal_key_trusted, validate_internal_key_input, create, decode,
}
use modern_level_db.Format.InternalKey.Trailer.{
  is_valid_value_kind_cases, unpack-pack_internal_key_trailer, pack-unpack_internal_key_trailer,
}

pub before_last-append :
    (key trailer : List ℕ) → length trailer ≡ 8 → before_last 8 (key ++ trailer) ≡ key
before_last-append key trailer h =
    take-append (length (key ++ trailer) - 8) key trailer (omega (arith, length-append key trailer))

pub last-append : (key trailer : List ℕ) → length trailer ≡ 8 → last 8 (key ++ trailer) ≡ trailer
last-append key trailer h =
    drop-append (length (key ++ trailer) - 8) key trailer (omega (arith, length-append key trailer))

-- The two encoders write the same bytes.
pub encode_unchecked_lem :
    (user_key : List ℕ) (sequence kind : ℕ)
    → encode_unchecked user_key sequence kind ≡ encode_internal_key_trusted user_key sequence kind
unfolding encode_unchecked encode_internal_key_trusted append_fixed
encode_unchecked_lem user_key sequence kind = refl

pub before_last-encode :
    (user_key : List ℕ) (sequence kind : ℕ)
    → before_last 8 (encode_unchecked user_key sequence kind) ≡ user_key
unfolding encode_unchecked append_fixed
before_last-encode user_key sequence kind =
    before_last-append user_key _ (length-encode_fixed_trusted 8 _)

pub trailer-encode :
    (user_key : List ℕ) (sequence kind : ℕ)
    → sequence ≤ max_sequence_number
    → kind < 256
    → decode_internal_key_trailer (encode_unchecked user_key sequence kind)
      ≡ pack_internal_key_trailer sequence kind
unfolding encode_unchecked append_fixed decode_internal_key_trailer
trailer-encode user_key sequence kind hs hk =
    let (fits, _, _) = unpack-pack_internal_key_trailer sequence kind hs hk in
    rw (last-append user_key _ (length-encode_fixed_trusted 8 _))
      (decode-encode_fixed_trusted 8 _ (omega arith))

pub length-encode :
    (user_key : List ℕ) (sequence kind : ℕ)
    → length (encode_unchecked user_key sequence kind) ≡ length user_key + 8
unfolding encode_unchecked append_fixed
length-encode user_key sequence kind =
    let trailer = encode_fixed_trusted 8 (pack_internal_key_trailer sequence kind) in
    omega (
      arith,
      length-append user_key trailer,
      length-encode_fixed_trusted 8 (pack_internal_key_trailer sequence kind),
    )

valid_kind_byte : (kind : ℕ) → is_valid_value_kind kind ≡ true → kind < 256
valid_kind_byte kind h = omega (arith, is_valid_value_kind_cases kind h)

pub parse-encode :
    (user_key : List ℕ) (sequence kind : ℕ)
    → sequence ≤ max_sequence_number
    → is_valid_value_kind kind ≡ true
    → parse_internal_key (encode_unchecked user_key sequence kind)
      ≡ ok (record { user_key = user_key; sequence = sequence; kind = kind })
parse-encode user_key sequence kind hs hk =
    let encoded = encode_unchecked user_key sequence kind in
    let small = valid_kind_byte kind hk in
    let (_, es, ek) = unpack-pack_internal_key_trailer sequence kind hs small in
    let room : ltb (length encoded) 8 ≡ false =
      le→ltb _ _ (omega (arith, length-encode user_key sequence kind)) in
    let t = trailer-encode user_key sequence kind hs small in
    let b = before_last-encode user_key sequence kind in
    unfold parse_internal_key in rw (room, t, ek, es, b) (ground arith)

-- Behind a key that is accepted: its length, its parts and its kind.
parse_parts :
    (encoded : List ℕ) (v : InternalKeyView)
    → parse_internal_key encoded ≡ ok v
    → (8 ≤ length encoded)
      × (v.user_key ≡ before_last 8 encoded)
      × (v.sequence ≡ decode_internal_key_sequence (decode_internal_key_trailer encoded))
      × (v.kind ≡ decode_internal_key_value_kind (decode_internal_key_trailer encoded))
      × (is_valid_value_kind v.kind ≡ true)
unfolding parse_internal_key
parse_parts encoded v h = ground arith

trailer_bytes :
    (tail : List ℕ)
    → length tail ≡ 8
    → AreBytes tail
    → (encode_fixed_trusted 8 (decode_fixed_trusted tail) ≡ tail)
      × (decode_fixed_trusted tail < 2 ^ 64)
trailer_bytes tail n h = (
  rw n at (encode-decode_fixed_trusted tail h),
  omega (arith, ap (λ (t : ℕ). 256 ^ t) n, decode_fixed_trusted-lt tail h),
)

-- A long enough view is the encoding of its parts, and the sequence in it has 56 bits.
encode_parts :
    (encoded : List ℕ)
    → AreBytes encoded
    → 8 ≤ length encoded
    → (decode_internal_key_sequence (decode_internal_key_trailer encoded) ≤ max_sequence_number)
      × (encode_unchecked
            (before_last 8 encoded)
            (decode_internal_key_sequence (decode_internal_key_trailer encoded))
            (decode_internal_key_value_kind (decode_internal_key_trailer encoded))
          ≡ encoded)
unfolding decode_internal_key_trailer encode_unchecked append_fixed
encode_parts encoded bytes room =
    let at : ℕ = length encoded - 8 in
    let n : length (drop at encoded) ≡ 8 = omega (arith, length-drop at encoded) in
    let (whole, small) = trailer_bytes (drop at encoded) n (All-drop IsByte at encoded bytes) in
    (
      unfold decode_internal_key_sequence in omega arith,
      rw (pack-unpack_internal_key_trailer _ small, whole) (take-append-drop at encoded),
    )

-- An accepted key is the encoding of what it parses to.
pub encode-parse :
    (encoded : List ℕ) (v : InternalKeyView)
    → AreBytes encoded
    → parse_internal_key encoded ≡ ok v
    → (v.sequence ≤ max_sequence_number)
      × (is_valid_value_kind v.kind ≡ true)
      × (encode_unchecked v.user_key v.sequence v.kind ≡ encoded)
encode-parse encoded v bytes h =
    let (room, eu, es, ek, hk) = parse_parts encoded v h in
    let (small, whole) = encode_parts encoded bytes room in (rw es small, hk, rw (eu, es, ek) whole)

-- `ParseInternalKey` accepts a byte string with a given result exactly when the string is the
-- encoding of that user key with a 56-bit sequence and a known kind.
pub parse_internal_key_iff :
    (encoded : List ℕ) (v : InternalKeyView)
    → AreBytes encoded
    → (parse_internal_key encoded ≡ ok v) ↔ (
        (v.sequence ≤ max_sequence_number)
        × (is_valid_value_kind v.kind ≡ true)
        × (encoded ≡ encode_unchecked v.user_key v.sequence v.kind))
parse_internal_key_iff encoded v bytes = (
  λ h. let (a, b, c) = encode-parse encoded v bytes h in (a, b, sym c),
  λ (a, b, c). rw c (parse-encode v.user_key v.sequence v.kind a b),
)

create_parts :
    (user_key : List ℕ) (sequence kind : ℕ) (key : InternalKey.InternalKey)
    → create user_key sequence kind ≡ ok key
    → (sequence ≤ max_sequence_number)
      × (is_valid_value_kind kind ≡ true)
      × (key.encoded ≡ encode_unchecked user_key sequence kind)
unfolding create
create_parts user_key sequence kind key h = ground arith

-- A key that `InternalKey::Create` made has the user key, sequence and kind it was made from, and
-- `InternalKey::Decode` of its bytes gives it back.
pub create_accessors :
    (user_key : List ℕ) (sequence kind : ℕ) (key : InternalKey.InternalKey)
    → create user_key sequence kind ≡ ok key
    → (InternalKey.user_key key ≡ user_key)
      × (InternalKey.sequence key ≡ sequence)
      × (InternalKey.kind key ≡ kind)
      × (decode key.encoded ≡ ok key)
unfolding InternalKey.user_key InternalKey.sequence InternalKey.kind decode
create_accessors user_key sequence kind key h =
    let (hs, hk, e) = create_parts user_key sequence kind key h in
    let small = valid_kind_byte kind hk in
    let (_, es, ek) = unpack-pack_internal_key_trailer sequence kind hs small in
    let t = trailer-encode user_key sequence kind hs small in
    (
      rw e (before_last-encode user_key sequence kind),
      rw (e, t) es,
      rw (e, t) ek,
      ground (arith, e, parse-encode user_key sequence kind hs hk),
    )
