-- ===== src/Format/KeyComparator/Separator.antt =====
-- src/format/internal_key.cc: the separators and successors of internal keys.
use Prim.Native.Nat.{Ordering}
use modern_level_db.Prelude.{
  ℕ, ◌≡◌, ◌≢◌, true, arith, List, some, ap, refl, sym, ◌∙◌, length-append, Bool-cases, inl, inr,
  ◌⊎◌,
}
use modern_level_db.Base.Coding.{append_fixed, encode_fixed_trusted}
use modern_level_db.Base.Coding.Fixed.{length-encode_fixed_trusted}
use modern_level_db.Base.Comparator.{Comparator}
use modern_level_db.Base.Comparator.Laws.{IsComparator}
use modern_level_db.Format.InternalKey.{
  blank_view, before_last, max_sequence_number, seek_value_kind, pack_internal_key_trailer,
  try_decode_internal_key,
}
use modern_level_db.Format.InternalKey.RoundTrip.{before_last-append}
use modern_level_db.Format.KeyComparator.{
  is_lt, ordered_keys, is_shorter_and_greater_user_key, append_max_seek_trailer,
  commit_separator_before_limit, shortened_separator, shortened_successor,
  internal_find_shortest_separator, internal_find_short_successor, internal_key_comparator,
}
use modern_level_db.Format.KeyComparator.Laws.{HasTrailer, NotAbove, IsComparatorOnKeys}
use modern_level_db.Format.KeyComparator.Order.{
  internal_compare-HasTrailer, ordered_keys_self, ordered_keys_flip, ordered_keys_trans,
}

is_lt→lt : (o : Ordering) → is_lt o ≡ true → o ≡ Ordering.lt
unfolding is_lt
is_lt→lt o h = ground arith

decoded_user_key :
    (key : List ℕ)
    → (try_decode_internal_key key blank_view).0 ≡ true
    → (try_decode_internal_key key blank_view).1.user_key ≡ before_last 8 key
unfolding try_decode_internal_key
decoded_user_key key h = ground arith

module _ (c : Comparator) (laws : IsComparator c) where
  -- A longest trailer behind a user key that is greater makes a greater internal key.
  candidate_above :
      (key shortened : List ℕ)
      → is_shorter_and_greater_user_key c (before_last 8 key) shortened ≡ true
      → ordered_keys c key (append_max_seek_trailer c shortened) ≡ Ordering.lt
  unfolding is_shorter_and_greater_user_key append_max_seek_trailer append_fixed ordered_keys
  candidate_above key shortened h =
      let e = before_last-append shortened _ (
        length-encode_fixed_trusted 8
          (pack_internal_key_trailer max_sequence_number seek_value_kind)) in
      ground (arith, e, is_lt→lt (c.compare (before_last 8 key) shortened))

  candidate-HasTrailer : (shortened : List ℕ) → HasTrailer (append_max_seek_trailer c shortened)
  unfolding append_max_seek_trailer append_fixed
  candidate-HasTrailer shortened =
      let trailer = pack_internal_key_trailer max_sequence_number seek_value_kind in
      omega (
        arith,
        length-append shortened (encode_fixed_trusted 8 trailer),
        length-encode_fixed_trusted 8 trailer,
      )

  -- A separator is the start, or what is committed of the start with a shorter user key.
  find_separator-cases :
      (start limit : List ℕ)
      → let shortened = c.find_shortest_separator (before_last 8 start) (before_last 8 limit) in
        (internal_find_shortest_separator c start limit ≡ some start)
        ⊎ ((is_shorter_and_greater_user_key c (before_last 8 start) shortened ≡ true)
            × (internal_find_shortest_separator c start limit
                ≡ commit_separator_before_limit c start
                    (append_max_seek_trailer c shortened)
                    limit))
  unfolding internal_find_shortest_separator shortened_separator
  find_separator-cases start limit = ground (arith, decoded_user_key start, decoded_user_key limit)

  record IsBetween (start key limit : List ℕ) : Type 0 where
    trailed : HasTrailer key
    not_below : ordered_keys c start key ≢ Ordering.gt
    below : ordered_keys c key limit ≡ Ordering.lt

  module _ (start limit : List ℕ) (hs : HasTrailer start) (hl : HasTrailer limit)
      (h : ordered_keys c start limit ≡ Ordering.lt) where
    start-IsBetween : IsBetween start start limit
    start-IsBetween = record {
      trailed = hs;
      not_below = ground (arith, ordered_keys_self c laws start);
      below = h;
    }

    commit_separator-IsBetween :
        (candidate : List ℕ)
        → HasTrailer candidate
        → ordered_keys c start candidate ≡ Ordering.lt
        → (key : List ℕ) × (commit_separator_before_limit c start candidate limit ≡ some key)
          × IsBetween start key limit
    unfolding commit_separator_before_limit
    commit_separator-IsBetween candidate hc above =
        let e = internal_compare-HasTrailer c candidate limit hc hl in
        elim (Bool-cases (is_lt (ordered_keys c candidate limit))) [
          | inl less ↦ (
            candidate,
            rw (commit_separator_before_limit, e, less) refl,
            record {
              trailed = hc;
              not_below = ground arith;
              below = is_lt→lt (ordered_keys c candidate limit) less;
            },
          )
          | inr late ↦ (start, rw (commit_separator_before_limit, e, late) refl, start-IsBetween)
        ]

    find_separator-IsBetween :
        (key : List ℕ) × (internal_find_shortest_separator c start limit ≡ some key)
        × IsBetween start key limit
    find_separator-IsBetween = elim (find_separator-cases start limit) [
      | inl kept ↦ (start, kept, start-IsBetween)
      | inr (shorter, committed) ↦
          let shortened = c.find_shortest_separator (before_last 8 start) (before_last 8 limit) in
          let (key, made, between) =
            commit_separator-IsBetween (append_max_seek_trailer c shortened)
              (candidate-HasTrailer shortened) (candidate_above start shortened shorter) in
          (key, committed ∙ made, between)
    ]

  internal_successor :
      (key : List ℕ)
      → HasTrailer key
      → HasTrailer (internal_find_short_successor c key)
        × (ordered_keys c key (internal_find_short_successor c key) ≢ Ordering.gt)
  unfolding internal_find_short_successor shortened_successor
  internal_successor key h = ground (
    arith,
    decoded_user_key key,
    ordered_keys_self c laws key,
    candidate_above key (c.find_short_successor (before_last 8 key)),
    candidate-HasTrailer (c.find_short_successor (before_last 8 key)),
  )

  NotAbove-ordered_keys :
      (a b : List ℕ)
      → HasTrailer a
      → HasTrailer b
      → ordered_keys c a b ≢ Ordering.gt
      → NotAbove (internal_key_comparator c) a b
  NotAbove-ordered_keys a b ha hb h =
      (ordered_keys c a b, internal_compare-HasTrailer c a b ha hb, h)

  ordered_keys-NotAbove :
      (a b : List ℕ)
      → HasTrailer a
      → HasTrailer b
      → NotAbove (internal_key_comparator c) a b
      → ordered_keys c a b ≢ Ordering.gt
  ordered_keys-NotAbove a b ha hb (order, made, h) =
      let e = sym (internal_compare-HasTrailer c a b ha hb) ∙ made in ground (arith, e)

  -- Over every user comparator that keeps the promises of the interface, the internal-key
  -- comparator keeps them on the keys that have a trailer: every comparison is defined, the order
  -- is a total preorder, a separator of two ordered keys is found in their half-open range, a
  -- successor is not below its key, and both have a trailer again.
  pub internal_key_comparator-IsComparatorOnKeys : IsComparatorOnKeys (internal_key_comparator c)
  internal_key_comparator-IsComparatorOnKeys = record {
    compare_defined = λ a b ha hb. (
      ordered_keys c a b,
      internal_compare-HasTrailer c a b ha hb,
      internal_compare-HasTrailer c b a hb ha ∙ ap some (ordered_keys_flip c laws a b),
    );
    compare_self =
        λ a ha. internal_compare-HasTrailer c a a ha ha ∙ ap some (ordered_keys_self c laws a);
    compare_trans = λ a b d ha hb hd h k. NotAbove-ordered_keys a d ha hd (
        ordered_keys_trans c laws a b d (ordered_keys-NotAbove a b ha hb h)
          (ordered_keys-NotAbove b d hb hd k));
    separator = λ start limit hs hl h.
        let e = sym (internal_compare-HasTrailer c start limit hs hl) ∙ h in
        let less : ordered_keys c start limit ≡ Ordering.lt = ground (arith, e) in
        let (key, made, between) = find_separator-IsBetween start limit hs hl less in
        (
          key,
          made,
          between.trailed,
          NotAbove-ordered_keys start key hs between.trailed between.not_below,
          internal_compare-HasTrailer c key limit between.trailed hl ∙ ap some between.below,
        );
    successor = λ key h.
        let (trailed, above) = internal_successor key h in
        (trailed, NotAbove-ordered_keys key (internal_find_short_successor c key) h trailed above);
  }
