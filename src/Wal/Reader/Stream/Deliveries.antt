-- ===== src/Wal/Reader/Stream/Deliveries.antt =====
-- src/wal/wal_io.cc: `ReadNext` gives back a record whose fragments stand next in the file.
use modern_level_db.Prelude.{
  ℕ, zero, suc, ◌+◌, ◌%◌, ◌≤◌, ◌≡◌, refl, ap, ◌∙◌, List, ◌∷◌, ◌++◌, false, length, drop, arith,
  append_assoc, append-nil,
}
use modern_level_db.Base.Crc32c.{Crc}
use modern_level_db.Format.WalFormat.{WalFragment, wal_block_size}
use modern_level_db.Format.WalFormat.Cursor.{Cursor, cursor_for, fragment_bytes}
use modern_level_db.Format.WalFormat.Blocks.{Placed, finished, placed}
use modern_level_db.Wal.Reader.{WalReader}
use modern_level_db.Wal.Reader.Stream.{SequentialFile}
use modern_level_db.Wal.Reader.Stream.Filling.{IsSequential}
use modern_level_db.Wal.Reader.Stream.Position.{At}
use modern_level_db.Wal.Reader.Stream.Records.{record_bytes, Delivered, behind_it, next_aligned}
use modern_level_db.Wal.Reader.Stream.Fragments.{
  Continues, deliver-last, deliver-full, continue-middle, continue-first,
}

module _ {S : Type 0} (ops : SequentialFile S) (unread : S → List ℕ)
    (laws : IsSequential ops unread) (log : List ℕ) (c : Crc) where
  -- The fragments behind the first one.
  continuation :
      {cursor last : Cursor} {fs : List WalFragment}
      → Placed c cursor fs last
      → (p fuel : ℕ) (rest : List ℕ) (file : S) → cursor.done ≡ false
      → cursor.begin ≡ false
      → p % wal_block_size ≡ cursor.block_offset
      → drop p log ≡ record_bytes fs ++ rest
      → length fs ≤ fuel
      → Continues ops unread laws log c fuel p file cursor rest last.block_offset
  continuation (finished over) p fuel rest file more begun aligned written enough reader here
        inside =
      absurd (cc)
  continuation (placed running place others) p zero rest file more begun aligned written enough
        reader here inside =
      absurd (omega arith)
  continuation (placed {before} {after} {fragment = f} running place (finished over)) p (suc fuel)
        rest file more begun aligned written enough reader here inside =
      let only = written ∙ ap (λ r. r ++ rest) (append-nil (fragment_bytes f)) in
      deliver-last ops unread laws log c p before after f rest place aligned only fuel file reader
        here begun over inside
  continuation
        (placed {before} {after} {last} {fragment = f} running place
          (placed {fragment = g} {rest = gs} again place' others))
        p (suc fuel) rest file more begun aligned written enough reader here inside =
      let behind = record_bytes (g ∷ gs) ++ rest in
      let all = written ∙ append_assoc (fragment_bytes f) (record_bytes (g ∷ gs)) rest in
      let next = p + f.padding_before + (7 + length f.payload) in
      continue-middle ops unread laws log c p before after f behind place aligned all fuel file
        reader here begun again inside
        (continuation (placed again place' others) next fuel rest _ again place.begun
          (next_aligned ops unread laws log c p before after f behind place aligned all)
          (behind_it ops unread laws log c p before after f behind place aligned all) (omega arith))

  -- A reader that stands, outside a record, in front of the fragments of a record in its file
  -- answers that record, whole, in as many rounds as it has fragments, and then stands behind them.
  pub next_event-Placed :
      {block_offset : ℕ} {whole : List ℕ} {last : Cursor} {fs : List WalFragment}
      → Placed c (cursor_for block_offset whole) fs last
      → (p fuel : ℕ) (rest : List ℕ) (file : S) (reader : WalReader)
      → p % wal_block_size ≡ block_offset
      → drop p log ≡ record_bytes fs ++ rest
      → length fs ≤ fuel
      → At unread log p file reader
      → reader.in_fragmented_record ≡ false
      → (offset : ℕ) × Delivered ops unread laws log c fuel file reader whole rest offset
          last.block_offset
  next_event-Placed (finished over) p fuel rest file reader aligned written enough here idle =
      absurd (cc)
  next_event-Placed (placed running place others) p zero rest file reader aligned written enough
        here idle =
      absurd (omega arith)
  next_event-Placed {block_offset} {whole}
        (placed {after} {fragment = f} running place (finished over)) p (suc fuel) rest file reader
        aligned written enough here idle =
      let only = written ∙ ap (λ r. r ++ rest) (append-nil (fragment_bytes f)) in
      (
        p + f.padding_before,
        deliver-full ops unread laws log c p (cursor_for block_offset whole) after f rest place
            aligned only fuel file reader here refl over idle,
      )
  next_event-Placed {block_offset} {whole}
        (placed {after} {fragment = f} running place
          (placed {fragment = g} {rest = gs} again place' others))
        p (suc fuel) rest file reader aligned written enough here idle =
      let before = cursor_for block_offset whole in
      let behind = record_bytes (g ∷ gs) ++ rest in
      let all = written ∙ append_assoc (fragment_bytes f) (record_bytes (g ∷ gs)) rest in
      let next = p + f.padding_before + (7 + length f.payload) in
      (
        p + f.padding_before,
        continue-first ops unread laws log c p before after f behind place aligned all fuel file
            reader here refl again idle
            (continuation (placed again place' others) next fuel rest _ again place.begun
              (next_aligned ops unread laws log c p before after f behind place aligned all)
              (behind_it ops unread laws log c p before after f behind place aligned all)
              (omega arith)),
      )
