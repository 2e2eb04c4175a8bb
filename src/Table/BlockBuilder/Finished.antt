-- ===== src/Table/BlockBuilder/Finished.antt =====
-- src/table/block_builder.cc: what `Finish` writes behind the entries, and what `Block::Create` makes of
-- it.
use modern_level_db.Prelude.{
  ℕ, zero, suc, ◌+◌, ◌-◌, ◌*◌, ◌%◌, ◌^◌, ◌≤◌, ◌<◌, ◌≡◌, refl, sym, ap, ◌∙◌, List, [], ◌∷◌, ◌++◌,
  length, take, drop, get_or, arith, append_assoc, append-nil, length-append, take-append,
  drop-append, drop-drop,
}
use modern_level_db.Base.Error.{ok}
use modern_level_db.Base.Coding.{append_fixed, encode_fixed_trusted, decode_fixed_trusted}
use modern_level_db.Base.Coding.Fixed.{length-encode_fixed_trusted, decode-encode_fixed_trusted}
use modern_level_db.Table.BlockFormat.{BlockContents, contents_data}
use modern_level_db.Table.Block.{Block, Layout, create, read_restart_count, restart_point}
use modern_level_db.Table.Block.Items.{Item, Entry, restart_array, entries}
use modern_level_db.Table.Block.Shape.{Holds}
use modern_level_db.Table.Block.Restarts.{restart_array-le}
use modern_level_db.Table.BlockBuilder.{
  BlockBuilder, new_builder, append_each_fixed32, append_restarts, finish,
}
use modern_level_db.Table.BlockBuilder.Built.{
  IsBuilt, new_builder-IsBuilt, add_all, add_all-IsBuilt, AreSmall,
}

abbrev pub fixed32s : List ℕ → List ℕ
fixed32s [] = []
fixed32s (x ∷ xs) = encode_fixed_trusted 4 x ++ fixed32s xs

append_each_fixed32_lem :
    (output xs : List ℕ) → append_each_fixed32 output xs ≡ output ++ fixed32s xs
unfolding append_each_fixed32 append_fixed
append_each_fixed32_lem output [] = sym (append-nil output)
append_each_fixed32_lem output (x ∷ xs) =
    append_each_fixed32_lem (output ++ encode_fixed_trusted 4 x) xs
    ∙ append_assoc output (encode_fixed_trusted 4 x) (fixed32s xs)

length-fixed32s : (xs : List ℕ) → length (fixed32s xs) ≡ 4 * length xs
length-fixed32s [] = refl
length-fixed32s (x ∷ xs) = omega (
  arith,
  length-append (encode_fixed_trusted 4 x) (fixed32s xs),
  length-encode_fixed_trusted 4 x,
  length-fixed32s xs,
)

take-drop-fixed32s :
    (index : ℕ) (xs tail : List ℕ)
    → index < length xs
    → take 4 (drop (4 * index) (fixed32s xs ++ tail)) ≡ encode_fixed_trusted 4 (get_or xs index 0)
take-drop-fixed32s index [] tail h = absurd (omega arith)
take-drop-fixed32s zero (x ∷ xs) tail h =
    ap (take 4) (append_assoc (encode_fixed_trusted 4 x) (fixed32s xs) tail)
    ∙ take-append 4 (encode_fixed_trusted 4 x) (fixed32s xs ++ tail)
        (sym (length-encode_fixed_trusted 4 x))
take-drop-fixed32s (suc index) (x ∷ xs) tail h =
    let step : 4 * suc index ≡ 4 + 4 * index = omega arith in
    let here = encode_fixed_trusted 4 x in
    let skip = drop-append 4 here (fixed32s xs ++ tail) (sym (length-encode_fixed_trusted 4 x)) in
    ap (λ (k : ℕ). take 4 (drop k (fixed32s (x ∷ xs) ++ tail))) step
    ∙ ap (take 4) (sym (drop-drop (4 * index) 4 (fixed32s (x ∷ xs) ++ tail)))
    ∙ ap (λ l. take 4 (drop (4 * index) l))
        (ap (drop 4) (append_assoc here (fixed32s xs) tail) ∙ skip)
    ∙ take-drop-fixed32s index xs tail (omega arith)

finish_lem :
    (builder : BlockBuilder)
    → finish builder
      ≡ builder.buffer
        ++ (fixed32s (0 ∷ builder.restarts)
            ++ encode_fixed_trusted 4 ((length builder.restarts + 1) % 2 ^ 32))
unfolding finish append_restarts append_fixed
finish_lem builder =
    let zeroth = encode_fixed_trusted 4 0 in
    let count = encode_fixed_trusted 4 ((length builder.restarts + 1) % 2 ^ 32) in
    ap (λ l. l ++ count)
      (append_each_fixed32_lem (builder.buffer ++ zeroth) builder.restarts
        ∙ append_assoc builder.buffer zeroth (fixed32s builder.restarts))
    ∙ append_assoc builder.buffer (zeroth ++ fixed32s builder.restarts) count

pub length-finish :
    (builder : BlockBuilder)
    → length (finish builder) ≡ length builder.buffer + 4 * (length builder.restarts + 1) + 4
length-finish builder =
    let table = fixed32s (0 ∷ builder.restarts) in
    let count = encode_fixed_trusted 4 ((length builder.restarts + 1) % 2 ^ 32) in
    omega (
      arith,
      ap length (finish_lem builder),
      length-append builder.buffer (table ++ count),
      length-append table count,
      length-fixed32s (0 ∷ builder.restarts),
      length-encode_fixed_trusted 4 ((length builder.restarts + 1) % 2 ^ 32),
    )

module _ (builder : BlockBuilder) (items : List Item) (built : IsBuilt builder items)
    (room : length (finish builder) < 2 ^ 32) where
  abbrev layout : Layout
  layout = record {
    contents = finish builder;
    entries_end = length builder.buffer;
    restart_count = length builder.restarts + 1;
  }

  abbrev table : List ℕ
  table = fixed32s (0 ∷ builder.restarts)

  abbrev count : List ℕ
  count = encode_fixed_trusted 4 ((length builder.restarts + 1) % 2 ^ 32)

  point_lem :
      (index : ℕ)
      → index < layout.restart_count
      → restart_point layout index ≡ get_or (restart_array items) index 0
  unfolding restart_point
  point_lem index h =
      let end = length builder.buffer in
      let bound = restart_array-le items index in
      let buffer = ap length built.buffer_lem in
      let skip = drop-append end builder.buffer (table ++ count) refl in
      let entry = get_or (0 ∷ builder.restarts) index 0 in
      let same : entry ≡ get_or (restart_array items) index 0 =
        ap (λ l. get_or l index 0) built.points in
      ap (λ l. decode_fixed_trusted (take 4 (drop (end + 4 * index) l))) (finish_lem builder)
      ∙ ap (λ l. decode_fixed_trusted (take 4 l))
          (sym (drop-drop (4 * index) end (builder.buffer ++ (table ++ count))))
      ∙ ap (λ l. decode_fixed_trusted (take 4 (drop (4 * index) l))) skip
      ∙ ap decode_fixed_trusted
          (take-drop-fixed32s index (0 ∷ builder.restarts) count (omega arith))
      ∙ decode-encode_fixed_trusted 4 entry (omega (arith, length-finish builder))
      ∙ same

  layout-Holds : Holds layout items
  layout-Holds = record {
    behind = table ++ count;
    bytes = finish_lem builder ∙ ap (λ l. l ++ (table ++ count)) built.buffer_lem;
    size = ap length built.buffer_lem;
    count = omega (arith, ap length built.points);
    points = point_lem;
    items_lem = built.items_lem;
    begins = built.begins;
  }

  read_restart_count-finish : read_restart_count (finish builder) ≡ ok (length builder.restarts + 1)
  unfolding read_restart_count
  read_restart_count-finish =
      let front = length builder.buffer + 4 * (length builder.restarts + 1) in
      let split : finish builder ≡ (builder.buffer ++ table) ++ count =
        finish_lem builder ∙ sym (append_assoc builder.buffer table count) in
      let cut : length (finish builder) - 4 ≡ length (builder.buffer ++ table) = omega (
        arith,
        length-finish builder,
        length-append builder.buffer table,
        length-fixed32s (0 ∷ builder.restarts),
      ) in
      let counted : decode_fixed_trusted (drop (length (finish builder) - 4) (finish builder))
          ≡ length builder.restarts + 1 =
        ap (λ (k : ℕ). decode_fixed_trusted (drop k (finish builder))) cut
        ∙ ap (λ l. decode_fixed_trusted (drop (length (builder.buffer ++ table)) l)) split
        ∙ ap decode_fixed_trusted
            (drop-append (length (builder.buffer ++ table)) (builder.buffer ++ table) count refl)
        ∙ decode-encode_fixed_trusted 4 ((length builder.restarts + 1) % 2 ^ 32) (omega arith)
        ∙ omega (arith, length-finish builder) in
      ground (arith, counted, length-finish builder)

  -- The block that is finished is opened, and holds the items.
  pub create-finish :
      (contents : BlockContents)
      → contents_data contents ≡ finish builder
      → (block : Block) × (create contents ≡ ok block) × Holds block.layout items
  unfolding create
  create-finish contents same =
      let end : length (finish builder) - 4 * (length builder.restarts + 1 + 1)
          ≡ length builder.buffer =
        omega (arith, length-finish builder) in
      let total = length builder.restarts + 1 in
      let opened : create contents
          ≡ ok (record {
            contents = contents;
            layout = record {
              contents = contents_data contents;
              entries_end = length (contents_data contents) - 4 * (total + 1);
              restart_count = total;
            };
          }) =
        rw (create, ap read_restart_count same ∙ read_restart_count-finish) refl in
      let at_end : length (contents_data contents) - 4 * (total + 1) ≡ length builder.buffer =
        omega (arith, ap length same) in
      (
        record { contents = contents; layout = layout },
        opened
            ∙ ap
                (λ (k : ℕ). ok (record {
                  contents = contents;
                  layout = record {
                    contents = contents_data contents;
                    entries_end = k;
                    restart_count = total;
                  };
                }))
                at_end
            ∙ ap
                (λ l. ok (record {
                  contents = contents;
                  layout = record {
                    contents = l;
                    entries_end = length builder.buffer;
                    restart_count = total;
                  };
                }))
                same,
        layout-Holds,
      )

-- Entries put into a new builder, finished and opened, make a block that holds them.
pub create-add_all :
    (interval : ℕ) (es : List Entry) (contents : BlockContents)
    → 1 ≤ interval
    → AreSmall es
    → length (finish (add_all (new_builder interval) es)) < 2 ^ 32
    → contents_data contents ≡ finish (add_all (new_builder interval) es)
    → (items : List Item) × (block : Block) × (create contents ≡ ok block)
      × Holds block.layout items
      × (entries [] items ≡ es)
create-add_all interval es contents positive small room same =
    let builder = add_all (new_builder interval) es in
    let buffer_room : length builder.buffer < 2 ^ 32 = omega (arith, length-finish builder) in
    let (items, built, e) =
      add_all-IsBuilt (new_builder interval) [] es (new_builder-IsBuilt interval positive) small
        buffer_room in
    let (block, opened, holds) = create-finish builder items built room contents same in
    (items, block, opened, holds, e)
