-- ===== src/Wal/Reader/Stream/Fragments.antt =====
-- src/wal/wal_io.cc: what `ReadNext` does with the next fragment, by its type.
use mathlib.Core.Path.{subst}
use modern_level_db.Prelude.{
  ℕ, suc, ◌+◌, ◌%◌, ◌≡◌, refl, ap, ◌∙◌, List, ◌++◌, none, some, true, false, length, drop,
  append_assoc,
}
use modern_level_db.Base.Crc32c.{Crc}
use modern_level_db.Format.WalFormat.{WalFragment, wal_block_size, select_fragment_type}
use modern_level_db.Format.WalFormat.Cursor.{Cursor, fragment_bytes}
use modern_level_db.Format.WalFormat.Places.{IsPlaced}
use modern_level_db.Wal.Reader.{
  WalReader, logical_record, PhysicalFragment, consume_fragment, clear_partial,
}
use modern_level_db.Wal.Reader.Assembly.{
  middle-step, last-step, first-step, full-step, last-payload,
}
use modern_level_db.Wal.Reader.Stream.{SequentialFile}
use modern_level_db.Wal.Reader.Stream.Filling.{IsSequential}
use modern_level_db.Wal.Reader.Stream.Position.{At, At-same}
use modern_level_db.Wal.Reader.Stream.Arrival.{Arrived}
use modern_level_db.Wal.Reader.Stream.Records.{
  event-step, none-step, Delivered, start, type, stands, behind_it, next_aligned, arrive,
}

module _ {S : Type 0} (ops : SequentialFile S) (unread : S → List ℕ)
    (laws : IsSequential ops unread) (log : List ℕ) (c : Crc) where
  redelivered :
      {fuel : ℕ} {file : S} {reader : WalReader} {whole whole' left : List ℕ}
      {offset offset' block_offset : ℕ}
      → whole ≡ whole'
      → offset ≡ offset'
      → Delivered ops unread laws log c fuel file reader whole left offset block_offset
      → Delivered ops unread laws log c fuel file reader whole' left offset' block_offset
  redelivered {fuel} {file} {reader} {whole} {whole'} {left} {offset} {offset'} {block_offset} e e'
        d =
      subst (λ k. Delivered ops unread laws log c fuel file reader whole' left k block_offset) e'
        (subst (λ w. Delivered ops unread laws log c fuel file reader w left offset block_offset) e
          d)

  -- From a reader inside a record, the rest of it is delivered behind what the reader holds.
  abbrev pub Continues : ℕ → ℕ → S → Cursor → List ℕ → ℕ → Type 0
  Continues fuel p file cursor left block_offset =
      (reader : WalReader)
      → At unread log p file reader
      → reader.in_fragmented_record ≡ true
      → Delivered ops unread laws log c fuel file reader (reader.scratch ++ cursor.remaining) left
          reader.partial_record_offset block_offset

  module _ (p : ℕ) (before after : Cursor) (f : WalFragment) (rest : List ℕ)
      (place : IsPlaced c before f after) (aligned : p % wal_block_size ≡ before.block_offset)
      (written : drop p log ≡ fragment_bytes f ++ rest) (fuel : ℕ) (file : S) (reader : WalReader)
      (here : At unread log p file reader) where
    abbrev arrival :
        Arrived ops unread laws log c
          (start ops unread laws log c p before after f rest place aligned written)
          (type ops unread laws log c p before after f rest place aligned written)
          f.header
          f.payload
          rest
          (stands ops unread laws log c p before after f rest place aligned written)
          2
          file
          reader
    arrival =
        arrive ops unread laws log c p before after f rest place aligned written file reader here

    abbrev there : ℕ
    there = p + f.padding_before + (7 + length f.payload)

    abbrev read_fragment : PhysicalFragment
    read_fragment = record {
      type = select_fragment_type before.begin after.done;
      payload = f.payload;
      offset = p + f.padding_before;
      block_position = arrival.position;
    }

    -- The event of the fragment that ends a record.
    deliver :
        (whole : List ℕ) (offset : ℕ) (reader'' : WalReader)
        → consume_fragment arrival.reader' read_fragment
          ≡ (some (logical_record whole offset), reader'')
        → At unread log there arrival.file' reader''
        → reader''.in_fragmented_record ≡ false
        → Delivered ops unread laws log c
            (suc fuel)
            file
            reader
            whole
            rest
            offset
            after.block_offset
    deliver whole offset reader'' e at idle = record {
      file' = arrival.file';
      reader' = reader'';
      place = there;
      run =
          event-step ops c 2 fuel file arrival.file' reader arrival.reader' reader'' read_fragment
            (logical_record whole offset) arrival.run e;
      there = at;
      idle = idle;
      left = behind_it ops unread laws log c p before after f rest place aligned written;
      aligned = next_aligned ops unread laws log c p before after f rest place aligned written;
    }

    pub deliver-last :
        before.begin ≡ false
        → after.done ≡ true
        → reader.in_fragmented_record ≡ true
        → Delivered ops unread laws log c
            (suc fuel)
            file
            reader
            (reader.scratch ++ before.remaining)
            rest
            reader.partial_record_offset
            after.block_offset
    deliver-last begun over inside =
        let a = arrival in
        let kind : read_fragment.type ≡ select_fragment_type false true = rw (begun, over) refl in
        let consumed = last-step a.reader' read_fragment (a.keeps.partial ∙ inside) kind in
        let whole : a.reader'.scratch ++ f.payload ≡ reader.scratch ++ before.remaining =
          ap (λ r. r ++ f.payload) a.keeps.scratch
          ∙ ap (λ r. reader.scratch ++ r) (last-payload place over) in
        let said : logical_record (a.reader'.scratch ++ f.payload) a.reader'.partial_record_offset
            ≡ logical_record (reader.scratch ++ before.remaining) reader.partial_record_offset =
          ap (λ r. logical_record r a.reader'.partial_record_offset) whole
          ∙ ap (logical_record (reader.scratch ++ before.remaining)) a.keeps.offset in
        let joined : WalReader = record a.reader' {
          scratch = a.reader'.scratch ++ f.payload;
          in_fragmented_record = false;
        } in
        deliver _ _ joined (consumed ∙ ap (λ e. (some e, joined)) said)
          (At-same unread log there a.file' a.reader' a.there joined refl refl refl refl) refl

    pub deliver-full :
        before.begin ≡ true
        → after.done ≡ true
        → reader.in_fragmented_record ≡ false
        → Delivered ops unread laws log c
            (suc fuel)
            file
            reader
            before.remaining
            rest
            (p + f.padding_before)
            after.block_offset
    deliver-full begun over idle =
        let a = arrival in
        let kind : read_fragment.type ≡ select_fragment_type true true = rw (begun, over) refl in
        let consumed = full-step a.reader' read_fragment (a.keeps.partial ∙ idle) kind in
        deliver _ _ (clear_partial a.reader')
          (consumed
            ∙ ap (λ r. (some (logical_record r (p + f.padding_before)), clear_partial a.reader'))
                (last-payload place over))
          (unfold clear_partial in
            At-same unread log there a.file' a.reader' a.there _ refl refl refl refl)
          (unfold clear_partial in refl)

    -- A fragment that does not end its record.
    continue :
        {whole left : List ℕ} {offset block_offset : ℕ} (reader'' : WalReader)
        → consume_fragment arrival.reader' read_fragment ≡ (none, reader'')
        → Delivered ops unread laws log c fuel arrival.file' reader'' whole left offset block_offset
        → Delivered ops unread laws log c (suc fuel) file reader whole left offset block_offset
    continue reader'' e d = record {
      file' = d.file';
      reader' = d.reader';
      place = d.place;
      run =
          none-step ops c 2 fuel file arrival.file' reader arrival.reader' reader'' read_fragment
            arrival.run e
          ∙ d.run;
      there = d.there;
      idle = d.idle;
      left = d.left;
      aligned = d.aligned;
    }

    pub continue-middle :
        {left : List ℕ} {block_offset : ℕ}
        → before.begin ≡ false
        → after.done ≡ false
        → reader.in_fragmented_record ≡ true
        → Continues fuel there arrival.file' after left block_offset
        → Delivered ops unread laws log c
            (suc fuel)
            file
            reader
            (reader.scratch ++ before.remaining)
            left
            reader.partial_record_offset
            block_offset
    continue-middle begun more inside rest_of_it =
        let a = arrival in
        let kind : read_fragment.type ≡ select_fragment_type false false = rw (begun, more) refl in
        let held : a.reader'.in_fragmented_record ≡ true = a.keeps.partial ∙ inside in
        let joined : WalReader = record a.reader' { scratch = a.reader'.scratch ++ f.payload } in
        let whole : (a.reader'.scratch ++ f.payload) ++ after.remaining
            ≡ reader.scratch ++ before.remaining =
          append_assoc a.reader'.scratch f.payload after.remaining
          ∙ ap (λ r. r ++ (f.payload ++ after.remaining)) a.keeps.scratch
          ∙ ap (λ r. reader.scratch ++ r) place.bytes in
        redelivered whole a.keeps.offset (
          continue joined (middle-step a.reader' read_fragment held kind) (
            rest_of_it joined
              (At-same unread log there a.file' a.reader' a.there joined refl refl refl refl) held))

    pub continue-first :
        {left : List ℕ} {block_offset : ℕ}
        → before.begin ≡ true
        → after.done ≡ false
        → reader.in_fragmented_record ≡ false
        → Continues fuel there arrival.file' after left block_offset
        → Delivered ops unread laws log c
            (suc fuel)
            file
            reader
            before.remaining
            left
            (p + f.padding_before)
            block_offset
    continue-first begun more idle rest_of_it =
        let a = arrival in
        let kind : read_fragment.type ≡ select_fragment_type true false = rw (begun, more) refl in
        let started : WalReader = record a.reader' {
          scratch = f.payload;
          partial_record_offset = p + f.padding_before;
          in_fragmented_record = true;
        } in
        redelivered place.bytes refl (
          continue started (first-step a.reader' read_fragment (a.keeps.partial ∙ idle) kind) (
            rest_of_it started
              (At-same unread log there a.file' a.reader' a.there started refl refl refl refl)
              refl))
