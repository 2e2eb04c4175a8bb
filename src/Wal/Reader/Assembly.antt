-- ===== src/Wal/Reader/Assembly.antt =====
-- src/wal/wal_io.cc: the fragments of one record, consumed in order, give that record and nothing
-- else.
use modern_level_db.Prelude.{
  ℕ, ◌+◌, ◌≤◌, ◌≡◌, refl, sym, ap, ◌∙◌, List, [], ◌∷◌, ◌++◌, none, some, Bool, true, false, length,
  append_assoc, append-nil, arith,
}
use modern_level_db.Base.Crc32c.{Crc}
use modern_level_db.Format.WalFormat.{
  WalFragment, select_fragment_type, is_fragment_type, decode_wal_fragment, decoded, fragment,
  maximum_wal_payload,
}
use modern_level_db.Format.WalFormat.Decode.{decode-encode_header}
use modern_level_db.Format.WalFormat.Cursor.{Cursor, cursor_for}
use modern_level_db.Format.WalFormat.Blocks.{Placed, finished, placed, length-zero}
use modern_level_db.Format.WalFormat.Places.{IsPlaced}
use modern_level_db.Wal.Reader.{
  WalReadEvent, logical_record, PhysicalFragment, WalReader, consume_full, consume_first,
  consume_continuation, consume_fragment, clear_partial,
}

-- The events of fragments that are consumed one after the other.
abbrev pub consume_all : WalReader → List PhysicalFragment → List WalReadEvent
consume_all reader [] = []
consume_all reader (p ∷ rest) =
    let (event, reader') = consume_fragment reader p in
    let later = consume_all reader' rest in elim event [ none ↦ later | some e ↦ e ∷ later ]

-- A physical fragment is what the decoder gives on the bytes of a fragment, at some place.
abbrev pub Reads : Crc → WalFragment → PhysicalFragment → Type 0
Reads c f p =
    decode_wal_fragment c (f.header ++ (f.payload ++ [])) true
    ≡ decoded (record {
      kind = fragment;
      type = p.type;
      payload = p.payload;
      encoded_size = 7 + length f.payload;
    })

abbrev pub AllRead : Crc → List WalFragment → List PhysicalFragment → Type 0
AllRead c [] [] = Unit
AllRead c [] (p ∷ ps) = ⊥
AllRead c (f ∷ fs) [] = ⊥
AllRead c (f ∷ fs) (p ∷ ps) = Reads c f p × AllRead c fs ps

pub select-is_fragment_type :
    (begin end : Bool) → is_fragment_type (select_fragment_type begin end) ≡ true
unfolding is_fragment_type select_fragment_type
select-is_fragment_type true true = refl
select-is_fragment_type true false = refl
select-is_fragment_type false true = refl
select-is_fragment_type false false = refl

-- What the decoder gives on a placed fragment.
placed-Reads :
    (c : Crc) (before after : Cursor) (f : WalFragment) (p : PhysicalFragment)
    → IsPlaced c before f after
    → Reads c f p
    → (p.type ≡ select_fragment_type before.begin after.done) × (p.payload ≡ f.payload)
placed-Reads c before after f p place read =
    let type = select_fragment_type before.begin after.done in
    let fits : length f.payload ≤ maximum_wal_payload = omega (arith, place.inside) in
    let e =
      decode-encode_header c type f.payload [] fits true
        (select-is_fragment_type before.begin after.done) in
    let h = place.header in (cc, cc)

consume_all-none :
    (reader reader' : WalReader) (p : PhysicalFragment) (ps : List PhysicalFragment)
    → consume_fragment reader p ≡ (none, reader')
    → consume_all reader (p ∷ ps) ≡ consume_all reader' ps
consume_all-none reader reader' p ps h = ground arith

consume_all-some :
    (reader : WalReader) (e : WalReadEvent) (p : PhysicalFragment)
    → (consume_fragment reader p).0 ≡ some e
    → consume_all reader (p ∷ []) ≡ e ∷ []
consume_all-some reader e p h = rw (h, consume_all)

pub middle-step :
    (reader : WalReader) (p : PhysicalFragment)
    → reader.in_fragmented_record ≡ true
    → p.type ≡ select_fragment_type false false
    → consume_fragment reader p ≡ (none, record reader { scratch = reader.scratch ++ p.payload })
unfolding consume_fragment consume_continuation select_fragment_type
middle-step reader p h t = ground arith

pub last-step :
    (reader : WalReader) (p : PhysicalFragment)
    → reader.in_fragmented_record ≡ true
    → p.type ≡ select_fragment_type false true
    → consume_fragment reader p ≡ (
      some (logical_record (reader.scratch ++ p.payload) reader.partial_record_offset),
      record reader { scratch = reader.scratch ++ p.payload; in_fragmented_record = false },
    )
unfolding consume_fragment consume_continuation select_fragment_type
last-step reader p h t = ground arith

pub first-step :
    (reader : WalReader) (p : PhysicalFragment)
    → reader.in_fragmented_record ≡ false
    → p.type ≡ select_fragment_type true false
    → consume_fragment reader p ≡ (
      none,
      record reader {
        scratch = p.payload;
        partial_record_offset = p.offset;
        in_fragmented_record = true;
      },
    )
unfolding consume_fragment consume_first select_fragment_type
first-step reader p h t = ground arith

pub full-step :
    (reader : WalReader) (p : PhysicalFragment)
    → reader.in_fragmented_record ≡ false
    → p.type ≡ select_fragment_type true true
    → consume_fragment reader p ≡ (some (logical_record p.payload p.offset), clear_partial reader)
unfolding consume_fragment consume_full select_fragment_type
full-step reader p h t = ground arith

-- Nothing is left behind the last fragment, so its payload is all that remained.
pub last-payload :
    {c : Crc} {before after : Cursor} {f : WalFragment}
    → IsPlaced c before f after
    → after.done ≡ true
    → f.payload ≡ before.remaining
last-payload {c} {before} {after} {f} place over =
    let empty : after.remaining ≡ [] = length-zero after.remaining (sym place.ended ∙ over) in
    sym (append-nil f.payload) ∙ ap (λ r. f.payload ++ r) (sym empty) ∙ place.bytes

-- Behind a first fragment: the rest of the record is added to what was read.
continuation :
    {c : Crc} {cursor last : Cursor} {fs : List WalFragment}
    → Placed c cursor fs last
    → cursor.done ≡ false
    → cursor.begin ≡ false
    → (ps : List PhysicalFragment) (reader : WalReader) → AllRead c fs ps
    → reader.in_fragmented_record ≡ true
    → consume_all reader ps
      ≡ logical_record (reader.scratch ++ cursor.remaining) reader.partial_record_offset ∷ []
continuation (finished over) more begun ps reader read inside = absurd (cc)
continuation (placed running place rest) more begun [] reader read inside = absurd read
continuation {c} (placed {before} {after} {fragment = f} running place (finished over)) more begun
      (p ∷ []) reader (read, reads) inside =
    let (t, d) = placed-Reads c before after f p place read in
    let whole : p.payload ≡ before.remaining = d ∙ last-payload place over in
    let type : p.type ≡ select_fragment_type false true = rw (begun, over) at t in
    consume_all-some reader _ p (ap (λ t. t.0) (last-step reader p inside type))
    ∙ ap (λ r. logical_record (reader.scratch ++ r) reader.partial_record_offset ∷ []) whole
continuation (placed running place (finished over)) more begun (p ∷ q ∷ ps) reader (read, reads)
      inside =
    absurd reads
continuation {c} (placed {before} {after} {fragment = f} running place (placed again place' rest))
      more begun (p ∷ ps) reader (read, reads) inside =
    let (t, d) = placed-Reads c before after f p place read in
    let type : p.type ≡ select_fragment_type false false = rw (begun, again) at t in
    let moved : WalReader = record reader { scratch = reader.scratch ++ p.payload } in
    let next = continuation (placed again place' rest) again place.begun ps moved reads inside in
    let joined : (reader.scratch ++ p.payload) ++ after.remaining
        ≡ reader.scratch ++ before.remaining =
      append_assoc reader.scratch p.payload after.remaining
      ∙ ap (λ r. reader.scratch ++ r) (ap (λ r. r ++ after.remaining) d ∙ place.bytes) in
    consume_all-none reader moved p ps (middle-step reader p inside type)
    ∙ next
    ∙ ap (λ r. logical_record r reader.partial_record_offset ∷ []) joined

-- What follows a first fragment, once the reader holds it.
from-first :
    {c : Crc} {before after last : Cursor} {f : WalFragment} {fs : List WalFragment}
    → before.begin ≡ true
    → IsPlaced c before f after
    → Placed c after fs last
    → (p : PhysicalFragment) (ps : List PhysicalFragment) (reader : WalReader) → Reads c f p
    → AllRead c fs ps
    → reader.in_fragmented_record ≡ false
    → consume_all reader (p ∷ ps) ≡ logical_record before.remaining p.offset ∷ []
from-first {c} {before} {after} {f = f} begun place (finished over) p [] reader read reads idle =
    let (t, d) = placed-Reads c before after f p place read in
    let type : p.type ≡ select_fragment_type true true = rw (begun, over) at t in
    consume_all-some reader _ p (ap (λ t. t.0) (full-step reader p idle type))
    ∙ ap (λ r. logical_record r p.offset ∷ []) (d ∙ last-payload place over)
from-first begun place (finished over) p (q ∷ ps) reader read reads idle = absurd reads
from-first {c} {before} {after} {f = f} begun place (placed again place' rest) p ps reader read
      reads idle =
    let (t, d) = placed-Reads c before after f p place read in
    let type : p.type ≡ select_fragment_type true false = rw (begun, again) at t in
    let started : WalReader = record reader {
      scratch = p.payload;
      partial_record_offset = p.offset;
      in_fragmented_record = true;
    } in
    let joined : p.payload ++ after.remaining ≡ before.remaining =
      ap (λ r. r ++ after.remaining) d ∙ place.bytes in
    consume_all-none reader started p ps (first-step reader p idle type)
    ∙ continuation (placed again place' rest) again place.begun ps started reads refl
    ∙ ap (λ r. logical_record r p.offset ∷ []) joined

-- The fragments of one record as the fragmenter places them, each as `DecodeWalFragment` reads it
-- back, consumed in order by a reader that is not inside a record, give exactly one event: the
-- whole record at the offset of its first fragment.
pub consume_fragment-Placed :
    {c : Crc} {block_offset : ℕ} {whole : List ℕ} {last : Cursor} {fs : List WalFragment}
    → Placed c (cursor_for block_offset whole) fs last
    → (p : PhysicalFragment) (ps : List PhysicalFragment) (reader : WalReader)
    → AllRead c fs (p ∷ ps)
    → reader.in_fragmented_record ≡ false
    → consume_all reader (p ∷ ps) ≡ logical_record whole p.offset ∷ []
consume_fragment-Placed (finished over) p ps reader read idle = absurd read
consume_fragment-Placed (placed running place rest) p ps reader (read, reads) idle =
    from-first refl place rest p ps reader read reads idle
