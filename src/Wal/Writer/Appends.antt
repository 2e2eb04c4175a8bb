-- ===== src/Wal/Writer/Appends.antt =====
-- src/wal/wal_io.cc: what `AddRecord` leaves in the file when it answers ok, and that it always answers.
use mathlib.Core.Path.{subst}
use modern_level_db.Prelude.{
  ℕ, zero, suc, ◌≡◌, ◌⊎◌, inl, inr, refl, sym, ap, ◌∙◌, List, [], ◌∷◌, ◌++◌, Option, none, some,
  replicate, arith, append_assoc, append-nil, Option-cases,
}
use modern_level_db.Base.Error.{Status, Error, ok, err}
use modern_level_db.Base.Crc32c.{Crc}
use modern_level_db.Format.WalFormat.{WalFragment}
use modern_level_db.Format.WalFormat.Cursor.{Cursor, next, fragments, fragment_bytes}
use modern_level_db.Wal.Reader.Stream.Records.{record_bytes}
use modern_level_db.Wal.Writer.{
  WritableFile, append_padding, append_unless_empty, append_unless_zero, unless_failed,
  write_fragment, write_fragments,
}

-- An append that is answered ok puts its bytes behind the contents, and a flush changes no contents.
-- Of a call that fails nothing is said.
pub record IsAppending {S : Type 0} (ops : WritableFile S) (contents : S → List ℕ) : Type 0 where
  pub append_lem :
      (file file' : S) (bytes : List ℕ)
      → ops.append file bytes ≡ (ok tt, file')
      → contents file' ≡ contents file ++ bytes
  pub flush_lem :
      (file file' : S) → ops.flush file ≡ (ok tt, file') → contents file' ≡ contents file

-- What a call answers: ok with a property of the state, or an error.
pub data Answers {S : Type 0} (call : Status × S) (Good : S → Type 0) : Type 0 where
  answered : (s : S) → call ≡ (ok tt, s) → Good s → Answers call Good
  refused : (e : Error) (s : S) → call ≡ (err e, s) → Answers call Good

module _ {S : Type 0} (ops : WritableFile S) (contents : S → List ℕ)
    (laws : IsAppending ops contents) where
  abbrev pub Grows : S → List ℕ → S → Type 0
  Grows file bytes file' = contents file' ≡ contents file ++ bytes

  pub append_lem : (file : S) (bytes : List ℕ) → Answers (ops.append file bytes) (Grows file bytes)
  append_lem file bytes = go (ops.append file bytes) refl
    where
      go :
          (call : Status × S)
          → ops.append file bytes ≡ call
          → Answers (ops.append file bytes) (Grows file bytes)
      go (ok tt, file') e = answered file' e (laws.append_lem file file' bytes e)
      go (err e', file') e = refused e' file' e

  append_unless_empty_lem :
      (file : S) (bytes : List ℕ) → Answers (append_unless_empty ops file bytes) (Grows file bytes)
  unfolding append_unless_empty
  append_unless_empty_lem file [] = answered file refl (sym (append-nil (contents file)))
  append_unless_empty_lem file (b ∷ bytes) = append_lem file (b ∷ bytes)

  pub padding_lem :
      (file : S) (size : ℕ)
      → Answers (append_unless_zero ops file size) (Grows file (replicate size 0))
  unfolding append_unless_zero append_padding
  padding_lem file zero = answered file refl (sym (append-nil (contents file)))
  padding_lem file (suc size) =
      let call : append_unless_zero ops file (suc size) ≡ ops.append file (replicate (suc size) 0) =
        ground arith in
      subst (λ s. Answers s (Grows file (replicate (suc size) 0))) (sym call)
        (append_lem file (replicate (suc size) 0))

  -- One call behind the other.
  both_grow :
      (file : S) (first rest : List ℕ) (call : Status × S) (f : S → Status × S)
      → Answers call (Grows file first)
      → ((s : S) → Answers (f s) (Grows s rest))
      → Answers (unless_failed call f) (Grows file (first ++ rest))
  unfolding unless_failed
  both_grow file first rest call f (refused e s h) next = refused e s (rw h)
  both_grow file first rest call f (answered s h grown) next = elim (next s) [
    | refused e s' h' ↦ refused e s' (rw h h')
    | answered s' h' grown' ↦
        answered s' (rw h h')
          (grown' ∙ ap (λ l. l ++ rest) grown ∙ append_assoc (contents file) first rest)
  ]

  write_fragment_lem :
      (file : S) (f : WalFragment)
      → Answers (write_fragment ops file f) (Grows file (fragment_bytes f))
  unfolding write_fragment
  write_fragment_lem file f =
      both_grow file (replicate f.padding_before 0) (f.header ++ f.payload) _ _
        (padding_lem file f.padding_before)
        (λ padded.
          both_grow padded f.header f.payload _ _ (append_lem padded f.header)
            (λ headed. append_unless_empty_lem headed f.payload))

  module _ (c : Crc) where
    -- What the loop answers, with the block offset that it leaves.
    pub data Writes (call : Option (Status × S × ℕ)) (file : S) (bytes : List ℕ) (block_offset : ℕ)
        : Type 0 where
      wrote :
          (s : S)
          → call ≡ some (ok tt, s, block_offset)
          → Grows file bytes s
          → Writes call file bytes block_offset
      failed_at :
          (e : Error) (s : S) (at : ℕ)
          → call ≡ some (err e, s, at)
          → Writes call file bytes block_offset

    wrote_none :
        (fuel : ℕ) (cursor : Cursor) (file : S)
        → next c cursor ≡ none
        → write_fragments ops c (suc fuel) cursor file ≡ some (ok tt, file, cursor.block_offset)
    unfolding write_fragments
    wrote_none fuel cursor file h = ground (arith, h)

    module _ (fuel : ℕ) (cursor cursor' : Cursor) (file file' : S) (f : WalFragment)
        (h : next c cursor ≡ some (f, cursor')) where
      wrote_one :
          write_fragment ops file f ≡ (ok tt, file')
          → write_fragments ops c (suc fuel) cursor file ≡ write_fragments ops c fuel cursor' file'
      unfolding write_fragments
      wrote_one e = ground (arith, h, e)

      refused_one :
          (e' : Error)
          → write_fragment ops file f ≡ (err e', file')
          → write_fragments ops c (suc fuel) cursor file
            ≡ some (err e', file', cursor'.block_offset)
      unfolding write_fragments
      refused_one e' e = ground (arith, h, e)

    fragments-inverse :
        (fuel : ℕ) (cursor last : Cursor) (fs : List WalFragment)
        → fragments c (suc fuel) cursor ≡ some (fs, last)
        → ((next c cursor ≡ none) × (fs ≡ []) × (last ≡ cursor))
          ⊎ ((f : WalFragment) × (cursor' : Cursor) × (rest : List WalFragment) × (next c cursor
                ≡ some (f, cursor'))
              × (fragments c fuel cursor' ≡ some (rest, last))
              × (fs ≡ f ∷ rest))
    unfolding fragments
    fragments-inverse fuel cursor last fs e = elim (Option-cases (next c cursor)) [
      | inl h ↦ inl (h, ground (arith, h, e), ground (arith, h, e))
      | inr ((f, cursor'), h) ↦ elim (Option-cases (fragments c fuel cursor')) [
        | inl h' ↦ absurd (ground (arith, h, h', e))
        | inr ((rest, last'), h') ↦
            inr (f, cursor', rest, h, ground (arith, h, h', e), ground (arith, h, h', e))
      ]
    ]

    pub write_fragments_lem :
        (fuel : ℕ) (cursor last : Cursor) (fs : List WalFragment) (file : S)
        → fragments c fuel cursor ≡ some (fs, last)
        → Writes (write_fragments ops c fuel cursor file) file (record_bytes fs) last.block_offset
    unfolding fragments
    write_fragments_lem zero cursor last fs file e = absurd (cc)
    write_fragments_lem (suc fuel) cursor last fs file e =
        elim (fragments-inverse fuel cursor last fs e) [
          | inl (h, none_left, same) ↦
              wrote file
                (wrote_none fuel cursor file h
                  ∙ ap (λ (k : Cursor). some (ok tt, file, k.block_offset)) (sym same))
                (sym (append-nil (contents file))
                  ∙ ap (λ l. contents file ++ record_bytes l) (sym none_left))
          | inr (f, cursor', rest, h, run, split) ↦ elim (write_fragment_lem file f) [
            | refused e' s failed ↦
                failed_at e' s cursor'.block_offset
                  (refused_one fuel cursor cursor' file s f h e' failed)
            | answered s done grown ↦ elim (write_fragments_lem fuel cursor' last rest s run) [
              | failed_at e' s' at later ↦
                  failed_at e' s' at (wrote_one fuel cursor cursor' file s f h done ∙ later)
              | wrote s' later more ↦
                  wrote s' (wrote_one fuel cursor cursor' file s f h done ∙ later) (
                    more
                    ∙ ap (λ l. l ++ record_bytes rest) grown
                    ∙ append_assoc (contents file) (fragment_bytes f) (record_bytes rest)
                    ∙ ap (λ l. contents file ++ record_bytes l) (sym split))
            ]
          ]
        ]
