-- ===== src/Format/WalFormat/Blocks.antt =====
-- src/format/wal_format.cc: where a fragment stands in its block, and that fragmenting ends.
use modern_level_db.Prelude.{
  ℕ, zero, suc, ◌+◌, ◌<◌, ◌≡◌, refl, sym, ap, ◌∙◌, List, [], ◌∷◌, ◌++◌, some, true, false, ◌==◌,
  length, arith, inl, inr, Bool-cases,
}
use modern_level_db.Base.Crc32c.{Crc}
use modern_level_db.Format.WalFormat.{WalFragment, wal_block_size}
use modern_level_db.Format.WalFormat.Cursor.{
  Cursor, cursor_for, take_padding, next_fragment, next, fragments,
}
use modern_level_db.Format.WalFormat.Places.{
  IsPlaced, measure, next_step, next-shrinks, next-IsPlaced,
}

-- The fragments of a whole record, one after the other, each placed in its block.
pub data Placed (c : Crc) : Cursor → List WalFragment → Cursor → Type 0 where
  finished : {cursor : Cursor} → cursor.done ≡ true → Placed c cursor [] cursor
  placed :
      {before after last : Cursor} {fragment : WalFragment} {rest : List WalFragment}
      → before.done ≡ false
      → IsPlaced c before fragment after
      → Placed c after rest last
      → Placed c before (fragment ∷ rest) last

module _ (c : Crc) where
  fragments-stop :
      (fuel : ℕ) (cursor : Cursor)
      → cursor.done ≡ true
      → fragments c (suc fuel) cursor ≡ some ([], cursor)
  unfolding fragments next
  fragments-stop fuel cursor h = rw h

  fragments_more :
      (fuel : ℕ) (cursor after last : Cursor) (f : WalFragment) (rest : List WalFragment)
      → next c cursor ≡ some (f, after)
      → fragments c fuel after ≡ some (rest, last)
      → fragments c (suc fuel) cursor ≡ some (f ∷ rest, last)
  unfolding fragments
  fragments_more fuel cursor after last f rest e h = ground arith

  fragments-Placed :
      (fuel : ℕ) (cursor : Cursor)
      → cursor.block_offset < wal_block_size
      → measure cursor < fuel
      → (fs : List WalFragment) × (last : Cursor) × (fragments c (suc fuel) cursor
          ≡ some (fs, last))
        × Placed c cursor fs last
  fragments-Placed zero cursor h m = absurd (omega arith)
  fragments-Placed (suc fuel) cursor h m = elim (Bool-cases cursor.done) [
    | inl over ↦ ([], cursor, fragments-stop (suc fuel) cursor over, finished over)
    | inr more ↦
        let (f, after) = next_fragment c (take_padding cursor).0 (take_padding cursor).1 in
        let e = next_step c cursor more in
        let place = next-IsPlaced c cursor f after h more e in
        elim (Bool-cases after.done) [
          | inl over ↦ (
            f ∷ [],
            after,
            fragments_more (suc fuel) cursor after after f [] e (fragments-stop fuel after over),
            placed more place (finished over),
          )
          | inr again ↦
              let small = next-shrinks c cursor h again in
              let (rest, last, run, ps) =
                fragments-Placed fuel after (omega (arith, place.offset)) (omega arith) in
              (
                f ∷ rest,
                last,
                fragments_more (suc fuel) cursor after last f rest e run,
                placed more place ps,
              )
        ]
  ]

-- The payloads of the fragments, joined.
abbrev pub payloads : List WalFragment → List ℕ
payloads [] = []
payloads (f ∷ fs) = f.payload ++ payloads fs

pub length-zero : (xs : List ℕ) → (length xs == 0) ≡ true → xs ≡ []
length-zero [] h = refl
length-zero (x ∷ xs) h = absurd (ground arith)

Placed-payloads :
    {c : Crc} {cursor last : Cursor} {fs : List WalFragment}
    → (cursor.done ≡ true → cursor.remaining ≡ [])
    → Placed c cursor fs last
    → (payloads fs ≡ cursor.remaining) × (last.done ≡ true) × (last.remaining ≡ [])
Placed-payloads h (finished over) = (sym (h over), over, h over)
Placed-payloads h (placed {before} {after} {last} {fragment} {rest} more place ps) =
    let empty : after.done ≡ true → after.remaining ≡ [] =
      λ over. length-zero after.remaining (sym place.ended ∙ over) in
    let (joined, over, none_left) = Placed-payloads empty ps in
    (rw joined place.bytes, over, none_left)

-- From every block offset below the block size, `length + 3` calls of `Next` exhaust any record:
-- the fragments stand in their blocks one behind the other, their payloads joined are the record,
-- and the cursor is done.
pub fragments-cursor_for :
    (c : Crc) (block_offset : ℕ) (logical_record : List ℕ)
    → block_offset < wal_block_size
    → (fs : List WalFragment) × (last : Cursor) × (fragments c
          (length logical_record + 3)
          (cursor_for block_offset logical_record)
        ≡ some (fs, last))
      × Placed c (cursor_for block_offset logical_record) fs last
      × (payloads fs ≡ logical_record)
      × (last.done ≡ true)
fragments-cursor_for c block_offset logical_record h =
    let fuel = length logical_record + 2 in
    let cursor = cursor_for block_offset logical_record in
    let rounds : length logical_record + 3 ≡ suc fuel = omega arith in
    let (fs, last, run, ps) = fragments-Placed c fuel cursor h (ground arith) in
    let (joined, over, _) = Placed-payloads (λ e. cc) ps in
    (fs, last, ap (λ n. fragments c n cursor) rounds ∙ run, ps, joined, over)
