-- ===== src/Metadata/VersionEdit/RoundTrip.antt =====
-- src/metadata/version_edit.cc: `Decode` of what `Encode` wrote.
use modern_level_db.Prelude.{
  ℕ, ◌≤◌, ◌≡◌, refl, sym, ap, ◌∙◌, List, [], ◌∷◌, ◌++◌, Option, none, some, true, false, length,
  map, All, append_assoc, append-nil, arith, length-append,
}
use modern_level_db.Base.Error.{ok}
use modern_level_db.Base.Coding.{encode_varint_trusted, encode_length_prefixed_trusted}
use modern_level_db.Format.InternalKey.{InternalKey}
use modern_level_db.Metadata.VersionEdit.{
  VersionEdit, CompactPointer, DeletedFile, NewFile, is_before, insert_deleted, empty_edit,
}
use modern_level_db.Metadata.VersionEdit.Encode.{encode}
use modern_level_db.Metadata.VersionEdit.Decode.{decode}
use modern_level_db.Metadata.VersionEdit.Fields.{
  Field, name_field, log_field, prev_field, next_field, sequence_field, pointer_field,
  deleted_field, file_field, opt, fields, body, all_bytes, apply, apply_all, IsSorted, IsEncodable,
  key_bytes,
}
use modern_level_db.Metadata.VersionEdit.Reading.{decode_fields-all_bytes}
use modern_level_db.Metadata.VersionEdit.Writing.{encode-fields}

apply_all-append :
    (xs ys : List Field) (edit : VersionEdit)
    → apply_all (xs ++ ys) edit ≡ apply_all ys (apply_all xs edit)
apply_all-append [] ys edit = refl
apply_all-append (x ∷ xs) ys edit = apply_all-append xs ys (apply x edit)

apply-pointers :
    (ps : List CompactPointer) (edit : VersionEdit)
    → apply_all (map pointer_field ps) edit
      ≡ record edit { compact_pointers = edit.compact_pointers ++ ps }
apply-pointers [] edit = ap (λ l. record edit { compact_pointers = l }) (sym (append-nil _))
apply-pointers (p ∷ ps) edit =
    apply-pointers ps (apply (pointer_field p) edit)
    ∙ ap (λ l. record edit { compact_pointers = l })
        (append_assoc edit.compact_pointers (p ∷ []) ps)

apply-files :
    (fs : List NewFile) (edit : VersionEdit)
    → apply_all (map file_field fs) edit ≡ record edit { new_files = edit.new_files ++ fs }
apply-files [] edit = ap (λ l. record edit { new_files = l }) (sym (append-nil _))
apply-files (f ∷ fs) edit =
    apply-files fs (apply (file_field f) edit)
    ∙ ap (λ l. record edit { new_files = l }) (append_assoc edit.new_files (f ∷ []) fs)

before-not_after : (a b : DeletedFile) → is_before a b ≡ true → is_before b a ≡ false
before-not_after a b h = ground arith

last-above :
    (x : DeletedFile) (xs : List DeletedFile) (d : DeletedFile) (ds : List DeletedFile)
    → All (λ y. is_before x y ≡ true) (xs ++ (d ∷ ds))
    → is_before x d ≡ true
last-above x [] d ds (h, _) = h
last-above x (_ ∷ xs) d ds (_, h) = last-above x xs d ds h

-- An element behind all others is inserted at the end.
insert-last :
    (xs : List DeletedFile) (d : DeletedFile) (ds : List DeletedFile)
    → IsSorted (xs ++ (d ∷ ds))
    → insert_deleted d xs ≡ xs ++ (d ∷ [])
unfolding insert_deleted
insert-last [] d ds h = refl
insert-last (x ∷ xs) d ds (above, h) =
    let before = last-above x xs d ds above in
    rw (before-not_after x d before, before) (ap (λ l. x ∷ l) (insert-last xs d ds h))

apply-deleted :
    (ds : List DeletedFile) (edit : VersionEdit)
    → IsSorted (edit.deleted_files ++ ds)
    → apply_all (map deleted_field ds) edit
      ≡ record edit { deleted_files = edit.deleted_files ++ ds }
apply-deleted [] edit h = ap (λ l. record edit { deleted_files = l }) (sym (append-nil _))
apply-deleted (d ∷ ds) edit h =
    let inserted = insert-last edit.deleted_files d ds h in
    let whole = append_assoc edit.deleted_files (d ∷ []) ds in
    let next : IsSorted ((edit.deleted_files ++ (d ∷ [])) ++ ds) = rw whole h in
    ap (λ l. apply_all (map deleted_field ds) (record edit { deleted_files = l })) inserted
    ∙ apply-deleted ds (record edit { deleted_files = edit.deleted_files ++ (d ∷ []) }) next
    ∙ ap (λ l. record edit { deleted_files = l }) whole

-- One optional field sets that field of the edit.
apply-opt {ℓ} :
    {A : Type ℓ} (f : A → Field) (set : Option A → VersionEdit) (o : Option A)
    → ((a : A) → apply (f a) (set none) ≡ set (some a))
    → apply_all (opt f o) (set none) ≡ set o
apply-opt f set none h = refl
apply-opt f set (some a) h = h a

apply-fields :
    (edit : VersionEdit) → IsSorted edit.deleted_files → apply_all (fields edit) empty_edit ≡ edit
apply-fields edit sorted =
    let e1 : VersionEdit = record empty_edit { comparator_name = edit.comparator_name } in
    let e2 : VersionEdit = record e1 { log_number = edit.log_number } in
    let e3 : VersionEdit = record e2 { prev_log_number = edit.prev_log_number } in
    let e4 : VersionEdit = record e3 { next_file_number = edit.next_file_number } in
    let e5 : VersionEdit = record e4 { last_sequence = edit.last_sequence } in
    let e6 : VersionEdit = record e5 { compact_pointers = edit.compact_pointers } in
    let e7 : VersionEdit = record e6 { deleted_files = edit.deleted_files } in
    rw (
      apply_all-append,
      apply-opt name_field (λ o. record empty_edit { comparator_name = o }) edit.comparator_name
          (λ a. refl),
      apply_all-append,
      apply-opt log_field (λ o. record e1 { log_number = o }) edit.log_number (λ a. refl),
      apply_all-append,
      apply-opt prev_field (λ o. record e2 { prev_log_number = o }) edit.prev_log_number
          (λ a. refl),
      apply_all-append,
      apply-opt next_field (λ o. record e3 { next_file_number = o }) edit.next_file_number
          (λ a. refl),
      apply_all-append,
      apply-opt sequence_field (λ o. record e4 { last_sequence = o }) edit.last_sequence
          (λ a. refl),
      apply_all-append,
      apply-pointers edit.compact_pointers e5,
      apply_all-append,
      apply-deleted edit.deleted_files e6 sorted,
      apply-files edit.new_files e7,
    )

length-behind : (xs ys : List ℕ) → length ys ≤ length (xs ++ ys)
length-behind xs ys = omega (arith, length-append xs ys)

length-key : (key : InternalKey) (rest : List ℕ) → length rest ≤ length (key_bytes key rest)
length-key key rest = length-behind (encode_length_prefixed_trusted key.encoded) rest

length-body : (f : Field) (rest : List ℕ) → length rest ≤ length (body f rest)
length-body (name_field name) rest = length-behind (encode_length_prefixed_trusted name) rest
length-body (log_field n) rest = length-behind (encode_varint_trusted n) rest
length-body (prev_field n) rest = length-behind (encode_varint_trusted n) rest
length-body (next_field n) rest = length-behind (encode_varint_trusted n) rest
length-body (sequence_field n) rest = length-behind (encode_varint_trusted n) rest
length-body (pointer_field p) rest = omega (
  arith,
  length-behind (encode_varint_trusted p.level) (key_bytes p.key rest),
  length-key p.key rest,
)
length-body (deleted_field d) rest =
    let number = encode_varint_trusted d.number in
    omega (
      arith,
      length-behind (encode_varint_trusted d.level) (number ++ rest),
      length-behind number rest,
    )
length-body (file_field e) rest =
    let largest = key_bytes e.file.largest rest in
    let keys = key_bytes e.file.smallest largest in
    let size = encode_varint_trusted e.file.file_size ++ keys in
    omega (
      arith,
      length-behind (encode_varint_trusted e.level) (encode_varint_trusted e.file.number ++ size),
      length-behind (encode_varint_trusted e.file.number) size,
      length-behind (encode_varint_trusted e.file.file_size) keys,
      length-key e.file.smallest largest,
      length-key e.file.largest rest,
    )

length-all_bytes : (fs : List Field) → length fs ≤ length (all_bytes fs [])
length-all_bytes [] = omega arith
length-all_bytes (f ∷ fs) = omega (arith, length-body f (all_bytes fs []), length-all_bytes fs)

-- An edit whose fields are valid and fit their types, with its deleted files in order, is decoded
-- from its encoding as it was.
pub decode-encode : (edit : VersionEdit) → IsEncodable edit → decode (encode edit) ≡ some (ok edit)
unfolding decode
decode-encode edit h =
    let bytes = encode-fields edit h.valid in
    let rounds = length-all_bytes (fields edit) in
    rw bytes (decode_fields-all_bytes (fields edit) _ empty_edit h.valid (omega arith))
    ∙ ap (λ e. some (ok e)) (apply-fields edit h.sorted)
