-- ===== src/Metadata/VersionEdit/Writing.antt =====
-- src/metadata/version_edit.cc: `Encode` writes the bytes of the fields, and applying the fields to a
-- new edit gives the edit.
use modern_level_db.Prelude.{
  ℕ, ◌<◌, ◌^◌, ◌≡◌, refl, sym, ap, ◌∙◌, List, [], ◌∷◌, ◌++◌, Option, none, some, map, All,
  All-split, append_assoc, append-nil, arith,
}
use modern_level_db.Base.Coding.{u32, u64, encode_varint_trusted, append_varint}
use modern_level_db.Base.Coding.Varint.{append_varint_lem}
use modern_level_db.Base.Coding.Prefixed.{append_length_prefixed_lem}
use modern_level_db.Metadata.VersionEdit.{VersionEdit, CompactPointer, DeletedFile, NewFile}
use modern_level_db.Metadata.VersionEdit.Encode.{
  append_tag, append_comparator_name, append_number_field, append_compact_pointer,
  append_deleted_file, append_new_file, append_each, encode,
}
use modern_level_db.Metadata.VersionEdit.Fields.{
  Field, name_field, log_field, prev_field, next_field, sequence_field, pointer_field,
  deleted_field, file_field, opt, fields, tag_of, body, all_bytes, IsField, all_bytes-append,
}
use modern_level_db.Metadata.VersionEdit.Reading.{small-tag, tag-lt}

append_tag_lem :
    (f : Field) (output : List ℕ) → append_tag output (tag_of f) ≡ output ++ (tag_of f ∷ [])
append_tag_lem f output =
    let small = tag-lt f in
    append_varint_lem u32 output (tag_of f) (omega arith) ∙ ap (λ l. output ++ l) (small-tag f)

u64-appended :
    (output : List ℕ) (n : ℕ)
    → n < 2 ^ 64
    → append_varint output n ≡ output ++ encode_varint_trusted n
u64-appended output n h = append_varint_lem u64 output n h

level-appended :
    (output : List ℕ) (n : ℕ) → n < 7 → append_varint output n ≡ output ++ encode_varint_trusted n
level-appended output n h = append_varint_lem u32 output n (omega arith)

append_comparator_name_lem :
    (output : List ℕ) (o : Option (List ℕ)) (rest : List ℕ)
    → append_comparator_name output o ++ rest ≡ output ++ all_bytes (opt name_field o) rest
unfolding append_comparator_name
append_comparator_name_lem output none rest = refl
append_comparator_name_lem output (some name) rest = rw (
  append_length_prefixed_lem,
  append_tag_lem (name_field name) output,
  append_assoc,
  append_assoc,
)

append_number_field_lem :
    (f : ℕ → Field) (tag : ℕ)
    → ((n : ℕ) → tag_of (f n) ≡ tag)
    → ((n : ℕ) (rest : List ℕ) → body (f n) rest ≡ encode_varint_trusted n ++ rest)
    → ((n : ℕ) → IsField (f n) → n < 2 ^ 64)
    → (output : List ℕ) (o : Option ℕ) (rest : List ℕ) → All IsField (opt f o)
    → append_number_field output tag o ++ rest ≡ output ++ all_bytes (opt f o) rest
unfolding append_number_field
append_number_field_lem f tag ht hb fits output none rest h = refl
append_number_field_lem f tag ht hb fits output (some n) rest (h, _) =
    let tagged : append_tag output tag ≡ output ++ (tag ∷ []) =
      ap (append_tag output) (sym (ht n))
      ∙ append_tag_lem (f n) output
      ∙ ap (λ t. output ++ (t ∷ [])) (ht n) in
    rw (u64-appended _ n (fits n h), tagged, append_assoc, append_assoc, ht n, hb n rest)

append_compact_pointer_lem :
    (output : List ℕ) (p : CompactPointer) (rest : List ℕ)
    → IsField (pointer_field p)
    → append_compact_pointer output p ++ rest ≡ output ++ all_bytes (pointer_field p ∷ []) rest
unfolding append_compact_pointer
append_compact_pointer_lem output p rest (hl, hk) = rw (
  append_length_prefixed_lem,
  level-appended _ p.level hl,
  append_tag_lem (pointer_field p) output,
  append_assoc,
  append_assoc,
  append_assoc,
)

append_deleted_file_lem :
    (output : List ℕ) (d : DeletedFile) (rest : List ℕ)
    → IsField (deleted_field d)
    → append_deleted_file output d ++ rest ≡ output ++ all_bytes (deleted_field d ∷ []) rest
unfolding append_deleted_file
append_deleted_file_lem output d rest (hl, hn) = simp (
  u64-appended _ d.number hn.1,
  level-appended _ d.level hl,
  append_tag_lem (deleted_field d) output,
  append_assoc,
)

append_new_file_lem :
    (output : List ℕ) (e : NewFile) (rest : List ℕ)
    → IsField (file_field e)
    → append_new_file output e ++ rest ≡ output ++ all_bytes (file_field e ∷ []) rest
unfolding append_new_file
append_new_file_lem output e rest (hl, hn, hs, hk, hm) = simp (
  append_length_prefixed_lem,
  u64-appended _ e.file.file_size hs,
  u64-appended _ e.file.number hn.1,
  level-appended _ e.level hl,
  append_tag_lem (file_field e) output,
  append_assoc,
)

append_each_lem {ℓ} :
    {A : Type ℓ} (append : List ℕ → A → List ℕ) (f : A → Field)
    → ((output : List ℕ) (a : A) (rest : List ℕ)
        → IsField (f a)
        → append output a ++ rest ≡ output ++ all_bytes (f a ∷ []) rest)
    → (output : List ℕ) (xs : List A) (rest : List ℕ) → All IsField (map f xs)
    → append_each append output xs ++ rest ≡ output ++ all_bytes (map f xs) rest
unfolding append_each
append_each_lem append f one output [] rest h = refl
append_each_lem append f one output (x ∷ xs) rest (hx, hs) =
    append_each_lem append f one (append output x) xs rest hs
    ∙ one output x (all_bytes (map f xs) rest) hx

-- What `Encode` writes are the bytes of the fields, in their order.
pub encode-fields :
    (edit : VersionEdit) → All IsField (fields edit) → encode edit ≡ all_bytes (fields edit) []
unfolding encode
encode-fields edit h =
    let (h1, g1) = All-split IsField (opt name_field edit.comparator_name) _ h in
    let (h2, g2) = All-split IsField (opt log_field edit.log_number) _ g1 in
    let (h3, g3) = All-split IsField (opt prev_field edit.prev_log_number) _ g2 in
    let (h4, g4) = All-split IsField (opt next_field edit.next_file_number) _ g3 in
    let (h5, g5) = All-split IsField (opt sequence_field edit.last_sequence) _ g4 in
    let (h6, g6) = All-split IsField (map pointer_field edit.compact_pointers) _ g5 in
    let (h7, h8) = All-split IsField (map deleted_field edit.deleted_files) _ g6 in
    let named = append_comparator_name [] edit.comparator_name in
    let logged = append_number_field named 2 edit.log_number in
    let previous = append_number_field logged 9 edit.prev_log_number in
    let numbered = append_number_field previous 3 edit.next_file_number in
    let sequenced = append_number_field numbered 4 edit.last_sequence in
    let pointed = append_each append_compact_pointer sequenced edit.compact_pointers in
    let deleted = append_each append_deleted_file pointed edit.deleted_files in
    let r8 = all_bytes (map file_field edit.new_files) [] in
    let r7 = all_bytes (map deleted_field edit.deleted_files) r8 in
    let r6 = all_bytes (map pointer_field edit.compact_pointers) r7 in
    let r5 = all_bytes (opt sequence_field edit.last_sequence) r6 in
    let r4 = all_bytes (opt next_field edit.next_file_number) r5 in
    let r3 = all_bytes (opt prev_field edit.prev_log_number) r4 in
    let r2 = all_bytes (opt log_field edit.log_number) r3 in
    sym (append-nil _)
    ∙ append_each_lem append_new_file file_field append_new_file_lem deleted edit.new_files [] h8
    ∙ append_each_lem append_deleted_file deleted_field append_deleted_file_lem pointed
        edit.deleted_files r8 h7
    ∙ append_each_lem append_compact_pointer pointer_field append_compact_pointer_lem sequenced
        edit.compact_pointers r7 h6
    ∙ append_number_field_lem sequence_field 4 (λ n. refl) (λ n r. refl) (λ n k. omega arith)
        numbered edit.last_sequence r6 h5
    ∙ append_number_field_lem next_field 3 (λ n. refl) (λ n r. refl) (λ n k. k.1) previous
        edit.next_file_number r5 h4
    ∙ append_number_field_lem prev_field 9 (λ n. refl) (λ n r. refl) (λ n k. k) logged
        edit.prev_log_number r4 h3
    ∙ append_number_field_lem log_field 2 (λ n. refl) (λ n r. refl) (λ n k. k) named edit.log_number
        r3 h2
    ∙ append_comparator_name_lem [] edit.comparator_name r2
    ∙ sym (simp all_bytes-append)
