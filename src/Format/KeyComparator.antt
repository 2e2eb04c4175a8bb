-- ===== src/Format/KeyComparator.antt =====
-- src/format/internal_key.cc: `InternalKeyComparator`, the order of the stored history.
pub mod Laws
pub mod Order
pub mod Separator
use Prim.Native.Nat.{Ordering}
use modern_level_db.Prelude.{
  ℕ, ◌+◌, ◌-◌, List, Bool, true, false, Option, none, some, String, ◌||◌, not, ltb, leb,
  if◌then◌else◌, length,
}
use modern_level_db.Base.Coding.{decode_fixed_trusted, append_fixed64}
use modern_level_db.Base.Comparator.{Comparator}
use modern_level_db.Format.InternalKey.{
  InternalKeyView, blank_view, last, before_last, internal_key_trailer_size, max_sequence_number,
  seek_value_kind, pack_internal_key_trailer, try_decode_internal_key,
}

unfoldable pub compare_descending_trailers : List ℕ → List ℕ → Ordering
compare_descending_trailers left right =
    let left_trailer = decode_fixed_trusted (last internal_key_trailer_size left) in
    let right_trailer = decode_fixed_trusted (last internal_key_trailer_size right) in
    if ltb right_trailer left_trailer
    then Ordering.lt
    else if ltb left_trailer right_trailer
    then Ordering.gt
    else Ordering.eq

is_lt : Ordering → Bool
is_lt Ordering.lt = true
is_lt Ordering.eq = false
is_lt Ordering.gt = false

-- The class, for keys that have a trailer: what it does on a shorter key is `none`.
pub record InternalKeyComparator : Type 0 where
  pub compare : List ℕ → List ℕ → Option Ordering
  pub name : String
  pub find_shortest_separator : List ℕ → List ℕ → Option (List ℕ)
  pub find_short_successor : List ℕ → List ℕ

-- `InternalKeyComparator` over a user comparator.
module _ (user_comparator : Comparator) where
  -- The user order, and the trailers of keys of one user.
  unfoldable pub ordered_keys : List ℕ → List ℕ → Ordering
  unfolding compare_descending_trailers
  ordered_keys left right =
      let left_user_key = before_last internal_key_trailer_size left in
      let right_user_key = before_last internal_key_trailer_size right in
      elim (user_comparator.compare left_user_key right_user_key) [
        | Ordering.eq ↦ compare_descending_trailers left right
        | user_order ↦ user_order
      ]

  -- `none` is a view of less than no bytes, for a key that is shorter than a trailer.
  unfoldable pub internal_compare : List ℕ → List ℕ → Option Ordering
  unfolding ordered_keys
  internal_compare left right =
      if ltb (length left) internal_key_trailer_size || ltb (length right) internal_key_trailer_size
      then none
      else some (ordered_keys left right)

  unfoldable pub is_shorter_and_greater_user_key : List ℕ → List ℕ → Bool
  unfolding is_lt
  is_shorter_and_greater_user_key original candidate =
      if leb (length original) (length candidate)
      then false
      else is_lt (user_comparator.compare original candidate)

  append_max_seek_trailer : List ℕ → List ℕ
  append_max_seek_trailer key =
      append_fixed64 key (pack_internal_key_trailer max_sequence_number seek_value_kind)

  -- `start` is replaced only by a candidate that comes before the limit.
  commit_separator_before_limit : List ℕ → List ℕ → List ℕ → Option (List ℕ)
  unfolding is_lt
  commit_separator_before_limit start candidate limit = elim (internal_compare candidate limit) [
    | none ↦ none
    | some order ↦ some (if is_lt order then candidate else start)
  ]

  shortened_separator : List ℕ → List ℕ → InternalKeyView → InternalKeyView → Option (List ℕ)
  unfolding is_shorter_and_greater_user_key append_max_seek_trailer commit_separator_before_limit
  shortened_separator start limit start_key limit_key =
      let shortened =
        user_comparator.find_shortest_separator start_key.user_key limit_key.user_key in
      if not (is_shorter_and_greater_user_key start_key.user_key shortened)
      then some start
      else commit_separator_before_limit start (append_max_seek_trailer shortened) limit

  unfoldable pub internal_find_shortest_separator : List ℕ → List ℕ → Option (List ℕ)
  unfolding shortened_separator try_decode_internal_key
  internal_find_shortest_separator start limit =
      let (got_start, start_key) = try_decode_internal_key start blank_view in
      let (got_limit, limit_key) = try_decode_internal_key limit blank_view in
      if not got_start || not got_limit
      then some start
      else shortened_separator start limit start_key limit_key

  shortened_successor : List ℕ → InternalKeyView → List ℕ
  unfolding is_shorter_and_greater_user_key append_max_seek_trailer
  shortened_successor key decoded =
      let successor = user_comparator.find_short_successor decoded.user_key in
      if not (is_shorter_and_greater_user_key decoded.user_key successor)
      then key
      else append_max_seek_trailer successor

  unfoldable pub internal_find_short_successor : List ℕ → List ℕ
  unfolding shortened_successor try_decode_internal_key
  internal_find_short_successor key =
      let (got, decoded) = try_decode_internal_key key blank_view in
      if not got then key else shortened_successor key decoded

  abbrev pub internal_key_comparator : InternalKeyComparator
  internal_key_comparator = record {
    compare = internal_compare;
    name = "leveldb.InternalKeyComparator";
    find_shortest_separator = internal_find_shortest_separator;
    find_short_successor = internal_find_short_successor;
  }
