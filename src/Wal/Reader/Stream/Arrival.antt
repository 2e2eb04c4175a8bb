-- ===== src/Wal/Reader/Stream/Arrival.antt =====
-- src/wal/wal_io.cc: `ReadPhysical` from any place in front of a fragment, and at the end of the log.
use mathlib.Core.Path.{subst}
use modern_level_db.Prelude.{
  ℕ, suc, ◌+◌, ◌%◌, ◌≤◌, ◌<◌, ◌≡◌, ◌⊎◌, inl, inr, refl, ap, ◌∙◌, List, none, some, Bool, true, not,
  ◌==◌, length, drop, arith, length-append, length-drop, Bool-cases,
}
use modern_level_db.Base.Error.{ok}
use modern_level_db.Base.Crc32c.{Crc}
use modern_level_db.Format.WalFormat.{wal_block_size}
use modern_level_db.Wal.Reader.{WalReader, physical_fragment}
use modern_level_db.Wal.Reader.Stream.{SequentialFile, filled_block, read_physical}
use modern_level_db.Wal.Reader.Stream.Filling.{IsSequential}
use modern_level_db.Wal.Reader.Stream.{filled_block}
use modern_level_db.Wal.Reader.Stream.Position.{At, behind, not_ended}
use modern_level_db.Wal.Reader.Stream.Physical.{Keeps, refill, Stands, some_left, read_in_block}
use modern_level_db.Wal.Reader.Stream.Rounds.{
  not-zero, filled-open, filled-used, fill-ended, read-step, again-step, end-step, short-tail,
  Keeps-trans,
}

module _ {S : Type 0} (ops : SequentialFile S) (unread : S → List ℕ)
    (laws : IsSequential ops unread) (log : List ℕ) (c : Crc) where
  module _ (p type : ℕ) (header payload rest : List ℕ)
      (stands : Stands ops unread laws log c p type header payload rest) where
    -- The fragment was read, and the reader stands behind it.
    pub record Arrived (fuel : ℕ) (file : S) (reader : WalReader) : Type 0 where
      pub file' : S
      pub reader' : WalReader
      pub position : ℕ
      pub run :
          read_physical ops c fuel file reader
          ≡ some (
            ok (
                some (
                  physical_fragment (record {
                    type = type;
                    payload = payload;
                    offset = p;
                    block_position = position;
                  }))),
            file',
            reader',
          )
      pub there : At unread log (p + (7 + length payload)) file' reader'
      pub keeps : Keeps reader reader'

    read-open :
        (fuel : ℕ) (file : S) (reader : WalReader)
        → At unread log p file reader
        → reader.block_position < length reader.block
        → Arrived (suc fuel) file reader
    read-open fuel file reader here open_part =
        let (e, there) =
          read_in_block ops unread laws log c p type header payload rest stands file reader here
            open_part in
        record {
          file' = file;
          reader' = _;
          position = reader.block_position;
          run =
              read-step ops c fuel file file reader reader _ _
                (filled-open ops file reader open_part) e;
          there = there;
          keeps = record { scratch = refl; offset = refl; partial = refl };
        }

    read-used :
        (fuel : ℕ) (file : S) (reader : WalReader)
        → At unread log p file reader
        → reader.block_position ≡ length reader.block
        → Arrived (suc fuel) file reader
    read-used fuel file reader here used =
        let left = some_left ops unread laws log c p type header payload rest stands in
        let unseen = not_ended unread log p file reader here used left in
        let (file', reader', r) = refill ops unread laws log p file reader here used unseen in
        let some_read : reader'.block_position < length reader'.block = elim r.full_or_last [
          | inl full ↦ omega (arith, r.front)
          | inr over ↦
              let known = ap length (behind unread log p file' reader' r.there) in
              let none_left = ap length over in
              omega (
                arith,
                length-append (drop reader'.block_position reader'.block) (unread file'),
                length-drop reader'.block_position reader'.block,
              )
        ] in
        let (e, there) =
          read_in_block ops unread laws log c p type header payload rest stands file' reader'
            r.there some_read in
        let filled : filled_block ops file reader ≡ some (ok true, file', reader') =
          filled-used ops file reader used
          ∙ r.run
          ∙ ap (λ (b : Bool). some (ok b, file', reader'))
              (not-zero (length reader'.block) (omega arith)) in
        record {
          file' = file';
          reader' = _;
          position = reader'.block_position;
          run = read-step ops c fuel file file' reader reader' _ _ filled e;
          there = there;
          keeps = Keeps-trans r.keeps (record { scratch = refl; offset = refl; partial = refl });
        }

  At-move :
      (p q : ℕ) (file : S) (reader : WalReader)
      → p ≡ q
      → At unread log p file reader
      → At unread log q file reader
  At-move p q file reader e here = subst (λ (k : ℕ). At unread log k file reader) e here

  position-cases :
      (p : ℕ) (file : S) (reader : WalReader)
      → At unread log p file reader
      → (reader.block_position < length reader.block)
        ⊎ (reader.block_position ≡ length reader.block)
  position-cases p file reader here =
      elim (Bool-cases (reader.block_position == length reader.block)) [
        | inl e ↦ inr (ground (arith, e))
        | inr e ↦ inl (ground (arith, e, here.inside))
      ]

  module _ (p k : ℕ) (file : S) (reader : WalReader) (here : At unread log p file reader) where
    -- Padding that more of the log follows ends a block that is full.
    padded-tail :
        p % wal_block_size + k ≡ wal_block_size
        → k < 7
        → 0 < length (drop (p + k) log)
        → (length reader.block ≡ reader.block_position + k)
    padded-tail edge small left =
        let known = ap length (behind unread log p file reader here) in
        let start = here.start in
        let size = length-append (drop reader.block_position reader.block) (unread file) in
        let rest = length-drop reader.block_position reader.block in
        let more = length-drop (p + k) log in
        let all = length-drop p log in
        elim here.more [
          | inl (_, inl none_read) ↦ absurd (omega (arith, start))
          | inl (_, inr full) ↦ omega (arith, start)
          | inr (_, over) ↦ let none_left = ap length over in absurd (omega arith)
        ]

  -- A block with only padding left is passed over.
  pub read_padded :
      (p k type fuel : ℕ) (header payload rest : List ℕ)
      (stands : Stands ops unread laws log c (p + k) type header payload rest) (file : S)
      (reader : WalReader)
      → (k ≡ 0) ⊎ (p % wal_block_size + k ≡ wal_block_size)
      → k < 7
      → At unread log p file reader
      → Arrived (p + k) type header payload rest stands (suc (suc fuel)) file reader
  read_padded p k type fuel header payload rest stands file reader (inl e) small here =
      let moved = At-move p (p + k) file reader (omega arith) here in
      elim (position-cases p file reader here) [
        | inl open_part ↦
            read-open (p + k) type header payload rest stands (suc fuel) file reader moved open_part
        | inr used ↦
            read-used (p + k) type header payload rest stands (suc fuel) file reader moved used
      ]
  read_padded p k type fuel header payload rest stands file reader (inr edge) small here =
      let left = some_left ops unread laws log c (p + k) type header payload rest stands in
      let size = padded-tail p k file reader here edge small left in
      let passed : WalReader = record reader { block_position = length reader.block } in
      let moved : At unread log (p + k) file passed = record {
        start = here.start;
        whole = here.whole;
        place = omega (arith, here.place);
        inside = omega arith;
        room = here.room;
        more = here.more;
      } in
      let next = read-used (p + k) type header payload rest stands fuel file passed moved refl in
      record {
        file' = next.file';
        reader' = next.reader';
        position = next.position;
        run =
            again-step ops c (suc fuel) file file reader reader passed
              (filled-open ops file reader (omega (arith, edge)))
              (short-tail ops c reader (omega arith))
            ∙ next.run;
        there = next.there;
        keeps = Keeps-trans (record { scratch = refl; offset = refl; partial = refl }) next.keeps;
      }

  -- At the end of the log there is nothing more to read.
  pub read_end :
      (p fuel : ℕ) (file : S) (reader : WalReader)
      → length log ≤ p
      → At unread log p file reader
      → (file' : S) × (reader' : WalReader) × (read_physical ops c (suc fuel) file reader
          ≡ some (ok none, file', reader'))
  read_end p fuel file reader over here =
      let known = ap length (behind unread log p file reader here) in
      let size = length-append (drop reader.block_position reader.block) (unread file) in
      let rest = length-drop reader.block_position reader.block in
      let all = length-drop p log in
      let used : reader.block_position ≡ length reader.block = omega (arith, here.inside) in
      elim (Bool-cases reader.eof_seen) [
        | inl e ↦ (
          file,
          reader,
          end-step ops c fuel file file reader reader
              (filled-used ops file reader used ∙ fill-ended ops file reader e),
        )
        | inr e ↦
            let (file', reader', r) = refill ops unread laws log p file reader here used e in
            let empty : length reader'.block ≡ 0 =
              let known' = ap length (behind unread log p file' reader' r.there) in
              omega (
                arith,
                r.front,
                length-append (drop reader'.block_position reader'.block) (unread file'),
                length-drop reader'.block_position reader'.block,
              ) in
            (
              file',
              reader',
              end-step ops c fuel file file' reader reader' (
                  filled-used ops file reader used
                  ∙ r.run
                  ∙ ap (λ (n : ℕ). some (ok (not (n == 0)), file', reader')) empty),
            )
      ]
