-- ===== src/Format/KeyComparator/Order.antt =====
-- src/format/internal_key.cc: the order of internal keys, and what a seek finds.
use Prim.Native.Nat.{Ordering}
use modern_level_db.Prelude.{
  ℕ, ◌+◌, ◌*◌, ◌<◌, ◌≤◌, ◌≡◌, ◌≢◌, ◌↔◌, ◌∙◌, refl, true, arith, ltb, le→ltb, some, ap, sym, length,
  List, if◌then◌else◌,
}
use modern_level_db.Base.Coding.{decode_fixed_trusted}
use modern_level_db.Base.Comparator.{Comparator}
use modern_level_db.Base.Comparator.Laws.{IsComparator, reverse}
use modern_level_db.Format.InternalKey.{
  last, before_last, max_sequence_number, seek_value_kind, is_valid_value_kind, encode_unchecked,
  decode_internal_key_trailer,
}
use modern_level_db.Format.InternalKey.Trailer.{
  is_valid_value_kind_cases, pack_internal_key_trailer_lem,
}
use modern_level_db.Format.InternalKey.RoundTrip.{before_last-encode, length-encode, trailer-encode}
use modern_level_db.Format.KeyComparator.Laws.{HasTrailer}
use modern_level_db.Format.KeyComparator.{
  compare_descending_trailers, ordered_keys, internal_compare,
}

pub trailers_self : (a : List ℕ) → compare_descending_trailers a a ≡ Ordering.eq
unfolding compare_descending_trailers
trailers_self a = ground arith

trailers_flip :
    (a b : List ℕ) → compare_descending_trailers b a ≡ reverse (compare_descending_trailers a b)
unfolding compare_descending_trailers
trailers_flip a b = ground arith

trailers_trans :
    (a b d : List ℕ)
    → compare_descending_trailers a b ≢ Ordering.gt
    → compare_descending_trailers b d ≢ Ordering.gt
    → compare_descending_trailers a d ≢ Ordering.gt
unfolding compare_descending_trailers
trailers_trans a b d h k = ground arith

stored_trailer :
    (user_key : List ℕ) (s k : ℕ)
    → s ≤ max_sequence_number
    → is_valid_value_kind k ≡ true
    → decode_fixed_trusted (last 8 (encode_unchecked user_key s k)) ≡ s * 256 + k
unfolding decode_internal_key_trailer
stored_trailer user_key s k hs hk =
    let small : k < 256 = omega (arith, is_valid_value_kind_cases k hk) in
    trailer-encode user_key s k hs small ∙ pack_internal_key_trailer_lem s k hs small

pub internal_compare-HasTrailer :
    (c : Comparator) (a b : List ℕ)
    → HasTrailer a
    → HasTrailer b
    → internal_compare c a b ≡ some (ordered_keys c a b)
unfolding internal_compare
internal_compare-HasTrailer c a b ha hb = rw (le→ltb (length a) 8 ha, le→ltb (length b) 8 hb) refl

module _ (c : Comparator) (laws : IsComparator c) where
  pub ordered_keys_self : (a : List ℕ) → ordered_keys c a a ≡ Ordering.eq
  unfolding ordered_keys
  ordered_keys_self a =
      let same = laws.compare_self (before_last 8 a) in
      unfold compare_descending_trailers in ground arith

  pub ordered_keys_flip : (a b : List ℕ) → ordered_keys c b a ≡ reverse (ordered_keys c a b)
  unfolding ordered_keys
  ordered_keys_flip a b =
      let flip = laws.compare_flip (before_last 8 a) (before_last 8 b) in
      unfold compare_descending_trailers in ground arith

  pub ordered_keys_trans :
      (a b d : List ℕ)
      → ordered_keys c a b ≢ Ordering.gt
      → ordered_keys c b d ≢ Ordering.gt
      → ordered_keys c a d ≢ Ordering.gt
  unfolding ordered_keys
  ordered_keys_trans a b d h k =
      let ua = before_last 8 a in
      let ub = before_last 8 b in
      let ud = before_last 8 d in
      ground (
        arith,
        laws.compare_flip ua ub,
        laws.compare_flip ub ud,
        laws.compare_flip ua ud,
        laws.compare_trans ua ub ud,
        laws.compare_trans ub ud ua,
        laws.compare_trans ud ua ub,
        trailers_trans a b d,
      )

  -- Two versions of one user key are ordered by their trailers, the greater one first.
  ordered_keys_versions :
      (user_key : List ℕ) (s t j k : ℕ)
      → s ≤ max_sequence_number
      → t ≤ max_sequence_number
      → is_valid_value_kind j ≡ true
      → is_valid_value_kind k ≡ true
      → ordered_keys c (encode_unchecked user_key s j) (encode_unchecked user_key t k) ≡ (
          if ltb (t * 256 + k) (s * 256 + j)
          then Ordering.lt
          else if ltb (s * 256 + j) (t * 256 + k)
          then Ordering.gt
          else Ordering.eq)
  unfolding ordered_keys
  ordered_keys_versions user_key s t j k hs ht hj hk = ground (
    arith,
    before_last-encode user_key s j,
    before_last-encode user_key t k,
    laws.compare_self user_key,
    stored_trailer user_key s j hs hj,
    stored_trailer user_key t k ht hk,
  )

  internal_compare-encode :
      (user_key : List ℕ) (s t j k : ℕ)
      → internal_compare c (encode_unchecked user_key s j) (encode_unchecked user_key t k)
        ≡ some (ordered_keys c (encode_unchecked user_key s j) (encode_unchecked user_key t k))
  internal_compare-encode user_key s t j k =
      internal_compare-HasTrailer c (encode_unchecked user_key s j) (encode_unchecked user_key t k)
        (omega (arith, length-encode user_key s j)) (omega (arith, length-encode user_key t k))

  -- Of two versions of one user key with valid kinds, the one with the higher sequence compares
  -- less.
  pub newer_first :
      (user_key : List ℕ) (s t j k : ℕ)
      → s ≤ max_sequence_number
      → t < s
      → is_valid_value_kind j ≡ true
      → is_valid_value_kind k ≡ true
      → internal_compare c (encode_unchecked user_key s j) (encode_unchecked user_key t k)
        ≡ some Ordering.lt
  newer_first user_key s t j k hs ht hj hk =
      internal_compare-encode user_key s t j k
      ∙ ap some (
          ordered_keys_versions user_key s t j k hs (omega arith) hj hk
          ∙ ground (arith, is_valid_value_kind_cases k hk))

  -- Under a comparator that keeps its promises, the seek target of a user key at a snapshot does
  -- not compare greater than a version of the key exactly when the version is at or below the
  -- snapshot.
  pub seek_visible_iff :
      (user_key : List ℕ) (snapshot t k : ℕ)
      → snapshot ≤ max_sequence_number
      → t ≤ max_sequence_number
      → is_valid_value_kind k ≡ true
      → ((order : Ordering) × (internal_compare c
              (encode_unchecked user_key snapshot seek_value_kind)
              (encode_unchecked user_key t k)
            ≡ some order)
          × (order ≢ Ordering.gt))
        ↔ (t ≤ snapshot)
  seek_visible_iff user_key snapshot t k hs ht hk =
      let e =
        ordered_keys_versions user_key snapshot t seek_value_kind k hs ht
          (unfold is_valid_value_kind in refl) hk in
      let kinds = is_valid_value_kind_cases k hk in
      (
        λ (order, made, below). ground (
          arith,
          e,
          kinds,
          sym made ∙ internal_compare-encode user_key snapshot t seek_value_kind k,
        ),
        λ le.
            (_, internal_compare-encode user_key snapshot t seek_value_kind k, rw e (ground arith)),
      )
