-- ===== src/Metadata/VersionEdit/Invariant.antt =====
-- src/metadata/version_edit.cc: every mutator, and every field that is decoded, leaves an edit that
-- can be encoded.
use modern_level_db.Prelude.{
  ◌≡◌, List, [], ◌∷◌, ◌++◌, true, map, All, All-append, All-split, arith, Bool-cases, inl, inr,
}
use modern_level_db.Metadata.VersionEdit.{
  VersionEdit, DeletedFile, is_before, insert_deleted, empty_edit,
}
use modern_level_db.Metadata.VersionEdit.Fields.{
  Field, name_field, log_field, prev_field, next_field, sequence_field, pointer_field,
  deleted_field, file_field, opt, apply, IsField, IsSorted, IsEncodable,
}

before_trans :
    (a b c : DeletedFile) → is_before a b ≡ true → is_before b c ≡ true → is_before a c ≡ true
before_trans a b c h k = ground arith

All-before :
    (d x : DeletedFile) (xs : List DeletedFile)
    → is_before d x ≡ true
    → All (λ y. is_before x y ≡ true) xs
    → All (λ y. is_before d y ≡ true) xs
All-before d x [] h k = tt
All-before d x (y ∷ ys) h (p, k) = (before_trans d x y h p, All-before d x ys h k)

module _ {κ} (P : DeletedFile → Type κ) where
  insert-All :
      (d : DeletedFile) (xs : List DeletedFile) → P d → All P xs → All P (insert_deleted d xs)
  unfolding insert_deleted
  insert-All d [] p h = (p, tt)
  insert-All d (x ∷ xs) p (q, h) = elim (Bool-cases (is_before d x)) [
    | inl first ↦ rw first (p, (q, h))
    | inr other ↦ elim (Bool-cases (is_before x d)) [
      | inl later ↦ rw (other, later) (q, insert-All d xs p h)
      | inr same ↦ rw (other, same) (q, h)
    ]
  ]

insert-IsSorted :
    (d : DeletedFile) (xs : List DeletedFile) → IsSorted xs → IsSorted (insert_deleted d xs)
unfolding insert_deleted
insert-IsSorted d [] h = (tt, tt)
insert-IsSorted d (x ∷ xs) (above, h) = elim (Bool-cases (is_before d x)) [
  | inl first ↦ rw first ((first, All-before d x xs first above), (above, h))
  | inr other ↦ elim (Bool-cases (is_before x d)) [
    | inl later ↦
        rw (other, later)
          (insert-All (λ y. is_before x y ≡ true) d xs later above, insert-IsSorted d xs h)
    | inr same ↦ rw (other, same) (above, h)
  ]
]

insert-IsField :
    (d : DeletedFile) (xs : List DeletedFile)
    → IsField (deleted_field d)
    → All IsField (map deleted_field xs)
    → All IsField (map deleted_field (insert_deleted d xs))
unfolding insert_deleted
insert-IsField d [] p h = (p, tt)
insert-IsField d (x ∷ xs) p (q, h) = elim (Bool-cases (is_before d x)) [
  | inl first ↦ rw first (p, (q, h))
  | inr other ↦ elim (Bool-cases (is_before x d)) [
    | inl later ↦ rw (other, later) (q, insert-IsField d xs p h)
    | inr same ↦ rw (other, same) (q, h)
  ]
]

push-IsField {ℓ} :
    {A : Type ℓ} (f : A → Field) (xs : List A) (x : A)
    → All IsField (map f xs)
    → IsField (f x)
    → All IsField (map f (xs ++ (x ∷ [])))
push-IsField f [] x h p = (p, tt)
push-IsField f (y ∷ ys) x (q, h) p = (q, push-IsField f ys x h p)

-- The fields of an edit, group by group.
record Groups (edit : VersionEdit) : Type 0 where
  names : All IsField (opt name_field edit.comparator_name)
  logs : All IsField (opt log_field edit.log_number)
  prevs : All IsField (opt prev_field edit.prev_log_number)
  nexts : All IsField (opt next_field edit.next_file_number)
  sequences : All IsField (opt sequence_field edit.last_sequence)
  pointers : All IsField (map pointer_field edit.compact_pointers)
  deleted : All IsField (map deleted_field edit.deleted_files)
  files : All IsField (map file_field edit.new_files)
  order : IsSorted edit.deleted_files

groups : (edit : VersionEdit) → IsEncodable edit → Groups edit
groups edit h =
    let (h1, g1) = All-split IsField (opt name_field edit.comparator_name) _ h.valid in
    let (h2, g2) = All-split IsField (opt log_field edit.log_number) _ g1 in
    let (h3, g3) = All-split IsField (opt prev_field edit.prev_log_number) _ g2 in
    let (h4, g4) = All-split IsField (opt next_field edit.next_file_number) _ g3 in
    let (h5, g5) = All-split IsField (opt sequence_field edit.last_sequence) _ g4 in
    let (h6, g6) = All-split IsField (map pointer_field edit.compact_pointers) _ g5 in
    let (h7, h8) = All-split IsField (map deleted_field edit.deleted_files) _ g6 in
    record {
      names = h1;
      logs = h2;
      prevs = h3;
      nexts = h4;
      sequences = h5;
      pointers = h6;
      deleted = h7;
      files = h8;
      order = h.sorted;
    }

module _ (edit : VersionEdit) where
  ungroup :
      All IsField (opt name_field edit.comparator_name)
      → All IsField (opt log_field edit.log_number)
      → All IsField (opt prev_field edit.prev_log_number)
      → All IsField (opt next_field edit.next_file_number)
      → All IsField (opt sequence_field edit.last_sequence)
      → All IsField (map pointer_field edit.compact_pointers)
      → All IsField (map deleted_field edit.deleted_files)
      → All IsField (map file_field edit.new_files)
      → IsSorted edit.deleted_files
      → IsEncodable edit
  ungroup h1 h2 h3 h4 h5 h6 h7 h8 order = record {
    valid = All-append IsField _ _ h1 (
        All-append IsField _ _ h2 (
          All-append IsField _ _ h3 (
            All-append IsField _ _ h4 (
              All-append IsField _ _ h5
                (All-append IsField _ _ h6 (All-append IsField _ _ h7 h8))))));
    sorted = order;
  }

apply-Groups :
    (f : Field) (edit : VersionEdit) → IsField f → Groups edit → IsEncodable (apply f edit)
apply-Groups (name_field name) edit h g =
    ungroup (apply (name_field name) edit) (h, tt) g.logs g.prevs g.nexts g.sequences g.pointers
      g.deleted g.files g.order
apply-Groups (log_field n) edit h g =
    ungroup (apply (log_field n) edit) g.names (h, tt) g.prevs g.nexts g.sequences g.pointers
      g.deleted g.files g.order
apply-Groups (prev_field n) edit h g =
    ungroup (apply (prev_field n) edit) g.names g.logs (h, tt) g.nexts g.sequences g.pointers
      g.deleted g.files g.order
apply-Groups (next_field n) edit h g =
    ungroup (apply (next_field n) edit) g.names g.logs g.prevs (h, tt) g.sequences g.pointers
      g.deleted g.files g.order
apply-Groups (sequence_field n) edit h g =
    ungroup (apply (sequence_field n) edit) g.names g.logs g.prevs g.nexts (h, tt) g.pointers
      g.deleted g.files g.order
apply-Groups (pointer_field p) edit h g =
    ungroup (apply (pointer_field p) edit) g.names g.logs g.prevs g.nexts g.sequences
      (push-IsField pointer_field edit.compact_pointers p g.pointers h) g.deleted g.files g.order
apply-Groups (deleted_field d) edit h g =
    ungroup (apply (deleted_field d) edit) g.names g.logs g.prevs g.nexts g.sequences g.pointers
      (insert-IsField d edit.deleted_files h g.deleted) g.files
      (insert-IsSorted d edit.deleted_files g.order)
apply-Groups (file_field f) edit h g =
    ungroup (apply (file_field f) edit) g.names g.logs g.prevs g.nexts g.sequences g.pointers
      g.deleted (push-IsField file_field edit.new_files f g.files h) g.order

pub apply-IsEncodable :
    (f : Field) (edit : VersionEdit) → IsField f → IsEncodable edit → IsEncodable (apply f edit)
apply-IsEncodable f edit h k = apply-Groups f edit h (groups edit k)

pub empty_edit-IsEncodable : IsEncodable empty_edit
empty_edit-IsEncodable = record { valid = tt; sorted = tt }
