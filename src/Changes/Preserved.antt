-- ===== src/Changes/Preserved.antt =====
-- Every method that adds to the tracker keeps the invariant, on every branch.
use embedspicedb.Common.{
  ℕ, ◌≡◌, [], ◌∷◌, ◌++◌, true, false, none, arith, Option-cases, inl, inr, Bool-cases, List, any,
  ◌==◌,
}
use embedspicedb.Common.Str.{Str, str_eq_iff, str_Eq}
use embedspicedb.Common.GoMap
use embedspicedb.Common.GoMap.{lookup-insert, lookup-delete}
use embedspicedb.Changes.{Params, SchemaDefinition, WatchContent, Changes}
use embedspicedb.Changes.Tracking.{
  ns_prefix, caveat_prefix, new_changes, record_for_revision, store, drop_delete, put_touch,
  put_delete, add_revision_metadata, mark_namespace_deleted, mark_caveat_deleted, release_existing,
  put_definition, undelete_namespace, undelete_caveat, definition_size,
}
use embedspicedb.Changes.Records.{without_delete}
use embedspicedb.Changes.Consistent.{
  IsConsistent, Fits, record_for_revision-Fits, store-IsConsistent, adjust_byte_size-IsConsistent,
  without_delete-Fits, touched-Fits, deleted-Fits, namespace_deleted-Fits, caveat_deleted-Fits,
}

module _ (p : Params) where
  pub new_changes-IsConsistent :
      (content : WatchContent) (max_byte_size : ℕ)
      → IsConsistent p (new_changes p content max_byte_size)
  unfolding new_changes GoMap.lookup
  new_changes-IsConsistent content max_byte_size = record { distinct = tt; at = λ k r e. cc }

  module _ (rev : p.R) (ch : Changes p) (h : IsConsistent p ch) where
    pub drop_delete-IsConsistent : (key : Str) → IsConsistent p (drop_delete p rev key ch).1
    drop_delete-IsConsistent key =
        let r = record_for_revision p rev ch in
        let f = record_for_revision-Fits p rev ch h in
        elim (Option-cases (GoMap.lookup key r.rel_deletes)) [
          | inl gone ↦
              unfold drop_delete in rw (gone, drop_delete) (store-IsConsistent p rev r ch f h)
          | inr (x, held) ↦
              unfold drop_delete in
              rw (held, drop_delete)
                (adjust_byte_size-IsConsistent p (p.rel_size x) false
                  (store p rev (without_delete p key r) ch)
                  (store-IsConsistent p rev (without_delete p key r) ch
                    (without_delete-Fits p rev r f key) h))
        ]

    pub put_touch-IsConsistent :
        (rel : p.Rel)
        → let key = p.string_without_caveat_or_expiration rel in
          GoMap.lookup key (record_for_revision p rev ch).rel_deletes ≡ none
          → IsConsistent p (put_touch p rev key rel ch).1
    unfolding put_touch
    put_touch-IsConsistent rel free =
        let r = record_for_revision p rev ch in
        let f = record_for_revision-Fits p rev ch h in
        adjust_byte_size-IsConsistent p (p.rel_size rel) true _
          (store-IsConsistent p rev _ ch (touched-Fits p rev r f rel free) h)

    pub put_delete-IsConsistent :
        (rel : p.Rel)
        → IsConsistent p (put_delete p rev (p.string_without_caveat_or_expiration rel) rel ch).1
    put_delete-IsConsistent rel =
        let key = p.string_without_caveat_or_expiration rel in
        let r = record_for_revision p rev ch in
        let f = record_for_revision-Fits p rev ch h in
        elim (Option-cases (GoMap.lookup key r.rel_touches)) [
          | inr (x, touched) ↦
              unfold put_delete in rw (touched, put_delete) (store-IsConsistent p rev r ch f h)
          | inl free ↦
              unfold put_delete in
              rw (free, put_delete)
                (adjust_byte_size-IsConsistent p (p.rel_size rel) true _
                  (store-IsConsistent p rev _ ch (deleted-Fits p rev r f rel free) h))
        ]

    with_metadatas-Fits :
        (ms : List p.Metadata)
        → Fits p rev (record (record_for_revision p rev ch) { metadatas = ms })
    with_metadatas-Fits ms =
        let f = record_for_revision-Fits p rev ch h in
        (
          record {
            one_effect = f.0.one_effect;
            touch_key = f.0.touch_key;
            delete_key = f.0.delete_key;
            namespace_effect = f.0.namespace_effect;
            caveat_effect = f.0.caveat_effect;
          },
          f.1,
        )

    pub add_revision_metadata-IsConsistent :
        (m : p.Metadata) → IsConsistent p (add_revision_metadata p rev m ch).1
    add_revision_metadata-IsConsistent m =
        let r = record_for_revision p rev ch in
        elim (Bool-cases (p.metadata_len m == 0)) [
          | inl empty ↦ unfold add_revision_metadata in rw empty h
          | inr filled ↦ elim (Bool-cases (any (λ x. p.metadata_eq.beq x m) r.metadatas)) [
            | inl old ↦
                unfold add_revision_metadata in
                rw (filled, old)
                  (store-IsConsistent p rev r ch (record_for_revision-Fits p rev ch h) h)
            | inr new ↦
                unfold add_revision_metadata in
                rw (filled, new)
                  (store-IsConsistent p rev _ ch (with_metadatas-Fits (r.metadatas ++ m ∷ [])) h)
          ]
        ]

    pub mark_namespace_deleted-IsConsistent :
        (name : Str) → IsConsistent p (mark_namespace_deleted p rev name ch).1
    mark_namespace_deleted-IsConsistent name =
        let r = record_for_revision p rev ch in
        let f = record_for_revision-Fits p rev ch h in
        elim (Option-cases (GoMap.lookup (ns_prefix ++ name) r.definitions_changed)) [
          | inl free ↦
              unfold mark_namespace_deleted in
              rw (free, mark_namespace_deleted)
                (store-IsConsistent p rev _ ch (namespace_deleted-Fits p rev r f name free) h)
          | inr (d, held) ↦
              unfold mark_namespace_deleted in
              rw (held, mark_namespace_deleted) (store-IsConsistent p rev r ch f h)
        ]

    pub mark_caveat_deleted-IsConsistent :
        (name : Str) → IsConsistent p (mark_caveat_deleted p rev name ch).1
    mark_caveat_deleted-IsConsistent name =
        let r = record_for_revision p rev ch in
        let f = record_for_revision-Fits p rev ch h in
        elim (Option-cases (GoMap.lookup (caveat_prefix ++ name) r.definitions_changed)) [
          | inl free ↦
              unfold mark_caveat_deleted in
              rw (free, mark_caveat_deleted)
                (store-IsConsistent p rev _ ch (caveat_deleted-Fits p rev r f name free) h)
          | inr (d, held) ↦
              unfold mark_caveat_deleted in
              rw (held, mark_caveat_deleted) (store-IsConsistent p rev r ch f h)
        ]

    pub undelete_namespace-IsConsistent :
        (name : Str) → IsConsistent p (undelete_namespace p rev name ch)
    unfolding undelete_namespace
    undelete_namespace-IsConsistent name =
        let r = record_for_revision p rev ch in
        let f = record_for_revision-Fits p rev ch h in
        store-IsConsistent p rev _ ch
          (
            record {
              one_effect = f.0.one_effect;
              touch_key = f.0.touch_key;
              delete_key = f.0.delete_key;
              namespace_effect = λ n e.
                  ground (arith, f.0.namespace_effect n, lookup-delete name n r.namespaces_deleted);
              caveat_effect = λ n e.
                  ground (arith, f.0.caveat_effect n, lookup-delete name n r.namespaces_deleted);
            },
            f.1,
          )
          h

    pub undelete_caveat-IsConsistent : (name : Str) → IsConsistent p (undelete_caveat p rev name ch)
    unfolding undelete_caveat
    undelete_caveat-IsConsistent name =
        let r = record_for_revision p rev ch in
        let f = record_for_revision-Fits p rev ch h in
        store-IsConsistent p rev _ ch
          (
            record {
              one_effect = f.0.one_effect;
              touch_key = f.0.touch_key;
              delete_key = f.0.delete_key;
              namespace_effect = λ n e.
                  ground (arith, f.0.namespace_effect n, lookup-delete name n r.caveats_deleted);
              caveat_effect = λ n e.
                  ground (arith, f.0.caveat_effect n, lookup-delete name n r.caveats_deleted);
            },
            f.1,
          )
          h

    pub release_existing-IsConsistent :
        (key : Str) → IsConsistent p (release_existing p rev key ch).1
    release_existing-IsConsistent key =
        elim (Option-cases (GoMap.lookup key (record_for_revision p rev ch).definitions_changed)) [
          | inl free ↦ unfold release_existing in rw (free, release_existing) h
          | inr (d, held) ↦
              unfold release_existing in
              rw (held, release_existing)
                (adjust_byte_size-IsConsistent p (definition_size p d) false ch h)
        ]

    pub put_namespace-IsConsistent :
        (d : SchemaDefinition p) (name : Str)
        → GoMap.lookup name (record_for_revision p rev ch).namespaces_deleted ≡ none
        → IsConsistent p (put_definition p rev (ns_prefix ++ name) d ch).1
    unfolding put_definition
    put_namespace-IsConsistent d name free =
        let r = record_for_revision p rev ch in
        let f = record_for_revision-Fits p rev ch h in
        adjust_byte_size-IsConsistent p (definition_size p d) true _ (
          store-IsConsistent p rev _ ch
            (
              record {
                one_effect = f.0.one_effect;
                touch_key = f.0.touch_key;
                delete_key = f.0.delete_key;
                namespace_effect = λ n e. ground (
                  arith,
                  f.0.namespace_effect n,
                  lookup-insert (ns_prefix ++ name) (ns_prefix ++ n) d r.definitions_changed,
                  str_eq_iff (ns_prefix ++ name) (ns_prefix ++ n),
                );
                caveat_effect = λ n e. ground (
                  arith,
                  f.0.caveat_effect n,
                  lookup-insert (ns_prefix ++ name) (caveat_prefix ++ n) d r.definitions_changed,
                  str_eq_iff (ns_prefix ++ name) (caveat_prefix ++ n),
                );
              },
              f.1,
            )
            h)

    pub put_caveat-IsConsistent :
        (d : SchemaDefinition p) (name : Str)
        → GoMap.lookup name (record_for_revision p rev ch).caveats_deleted ≡ none
        → IsConsistent p (put_definition p rev (caveat_prefix ++ name) d ch).1
    unfolding put_definition
    put_caveat-IsConsistent d name free =
        let r = record_for_revision p rev ch in
        let f = record_for_revision-Fits p rev ch h in
        adjust_byte_size-IsConsistent p (definition_size p d) true _ (
          store-IsConsistent p rev _ ch
            (
              record {
                one_effect = f.0.one_effect;
                touch_key = f.0.touch_key;
                delete_key = f.0.delete_key;
                namespace_effect = λ n e. ground (
                  arith,
                  f.0.namespace_effect n,
                  lookup-insert (caveat_prefix ++ name) (ns_prefix ++ n) d r.definitions_changed,
                  str_eq_iff (caveat_prefix ++ name) (ns_prefix ++ n),
                );
                caveat_effect = λ n e. ground (
                  arith,
                  f.0.caveat_effect n,
                  lookup-insert (caveat_prefix ++ name) (caveat_prefix ++ n) d
                      r.definitions_changed,
                  str_eq_iff (caveat_prefix ++ name) (caveat_prefix ++ n),
                );
              },
              f.1,
            )
            h)
